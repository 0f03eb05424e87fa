-- ===== src/Plugin/Sync/Order/Ids.antt =====
-- topologicalSortNodes of server/api_sync.go: the external ids of its payloads.
use mathlib.Core.List
use mattermost_plugin_org_di.Common.{
  ℕ, suc, String, ◌==◌, ◌≡◌, refl, ap, subst, ◌∙◌, Bool, false, ◌||◌, some, List, [], ◌∷◌, arith,
  inl, inr, Bool-cases, eq_iff, eq_refl, contains, length, All,
}
use mattermost_plugin_org_di.Common.Sql.{select, select_row}
use mattermost_plugin_org_di.Model.Sync.{SyncNodePayload}
use mattermost_plugin_org_di.Plugin.Sync.Order.{Indexed, indexed_from}

abbrev pub ext : Indexed → String
ext p = p.1.external_id

abbrev pub parent_ext : Indexed → String
parent_ext p = p.1.parent_external_id

abbrev pub exts : List Indexed → List String
exts [] = []
exts (p ∷ ps) = ext p ∷ exts ps

-- No external id comes twice.
abbrev pub HasExts : List Indexed → Type 0
HasExts [] = Unit {0}
HasExts (p ∷ ps) = (contains (ext p) (exts ps) ≡ false) × HasExts ps

-- The payload is the one that its external id names.
abbrev pub IsNodeOf : List Indexed → Indexed → Type 0
IsNodeOf nodes p = select_row (λ y. ext y == ext p) nodes ≡ some p

pub contains-append :
    (s : String) (xs ys : List Indexed)
    → contains s (exts (List.◌++◌ xs ys)) ≡ (contains s (exts xs) || contains s (exts ys))
contains-append s [] ys = refl
contains-append s (x ∷ xs) ys = ground (arith, contains-append s xs ys)

pub ==-sym : (s t : String) → (s == t) ≡ (t == s)
==-sym s t = ground (arith, eq_iff s t, eq_iff t s)

contains-select_none :
    (s : String) (f : Indexed → Bool) (xs : List Indexed)
    → contains s (exts xs) ≡ false
    → contains s (exts (select f xs)) ≡ false
contains-select_none s f [] h = refl
contains-select_none s f (x ∷ xs) h = ground (arith, contains-select_none s f xs)

pub HasExts-select : (f : Indexed → Bool) (xs : List Indexed) → HasExts xs → HasExts (select f xs)
HasExts-select f [] h = tt
HasExts-select f (x ∷ xs) h = elim (Bool-cases (f x)) [
  | inl e ↦ rw e (contains-select_none (ext x) f xs h.0, HasExts-select f xs h.1)
  | inr e ↦ rw e (HasExts-select f xs h.1)
]

-- A selection holds the external id of a payload just where it holds the payload.
pub contains-select :
    (f : Indexed → Bool) (xs : List Indexed) (p : Indexed)
    → HasExts xs
    → IsNodeOf xs p
    → contains (ext p) (exts (select f xs)) ≡ f p
contains-select f [] p h e = cc
contains-select f (x ∷ xs) p h e = elim (Bool-cases (ext x == ext p)) [
  | inl here ↦
      let same : x ≡ p = ground (arith, here, e) in
      let gone : contains (ext x) (exts (select f xs)) ≡ false =
        contains-select_none (ext x) f xs h.0 in
      subst (λ q. contains (ext q) (exts (select f (x ∷ xs))) ≡ f q) same
        (ground (arith, gone, eq_refl (ext x)))
  | inr other ↦
      let there : IsNodeOf xs p = ground (arith, other, e) in
      ground (arith, other, ==-sym (ext p) (ext x), contains-select f xs p h.1 there)
]

IsNodeOf-weaken :
    (y : Indexed) (ys zs : List Indexed)
    → contains (ext y) (exts zs) ≡ false
    → All (IsNodeOf ys) zs
    → All (IsNodeOf (y ∷ ys)) zs
IsNodeOf-weaken y ys [] h a = tt
IsNodeOf-weaken y ys (z ∷ zs) h a =
    (ground (arith, h, a.0), IsNodeOf-weaken y ys zs (ground (arith, h)) a.1)

pub All-IsNodeOf : (xs : List Indexed) → HasExts xs → All (IsNodeOf xs) xs
All-IsNodeOf [] h = tt
All-IsNodeOf (x ∷ xs) h =
    (ground (arith, eq_refl (ext x)), IsNodeOf-weaken x xs xs h.0 (All-IsNodeOf xs h.1))

pub All-select_row {ℓ} :
    {A : Type 0} (P : A → Type ℓ) (f : A → Bool) (xs : List A) (x : A)
    → All P xs
    → select_row f xs ≡ some x
    → P x
All-select_row P f [] x a e = cc
All-select_row P f (y ∷ ys) x a e = elim (Bool-cases (f y)) [
  | inl here ↦ let same : y ≡ x = ground (arith, here, e) in subst P same a.0
  | inr other ↦ All-select_row P f ys x a.1 (ground (arith, other, e))
]

-- The same for the payloads of a request.
abbrev pub HasExternalIds : List SyncNodePayload → Type 0
HasExternalIds [] = Unit {0}
HasExternalIds (p ∷ ps) =
    (contains p.external_id (List.map (λ q. q.external_id) ps) ≡ false) × HasExternalIds ps

exts-indexed_from :
    (i : ℕ) (ps : List SyncNodePayload)
    → exts (indexed_from i ps) ≡ List.map (λ q. q.external_id) ps
unfolding indexed_from
exts-indexed_from i [] = refl
exts-indexed_from i (p ∷ ps) = ap (λ xs. p.external_id ∷ xs) (exts-indexed_from (suc i) ps)

pub indexed_from-HasExts :
    (i : ℕ) (ps : List SyncNodePayload) → HasExternalIds ps → HasExts (indexed_from i ps)
unfolding indexed_from
indexed_from-HasExts i [] h = tt
indexed_from-HasExts i (p ∷ ps) h = (
  ap (contains p.external_id) (exts-indexed_from (suc i) ps) ∙ h.0,
  indexed_from-HasExts (suc i) ps h.1,
)

pub length-indexed_from :
    (i : ℕ) (ps : List SyncNodePayload) → length (indexed_from i ps) ≡ length ps
unfolding indexed_from
length-indexed_from i [] = refl
length-indexed_from i (p ∷ ps) = ap (λ n. suc n) (length-indexed_from (suc i) ps)
