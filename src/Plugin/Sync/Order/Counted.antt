-- ===== src/Plugin/Sync/Order/Counted.antt =====
-- topologicalSortNodes of server/api_sync.go: its payloads by index, and how many of them a run has.
use mathlib.Core.Option
use mattermost_plugin_org_di.Common.{
  All, ℕ, suc, ◌+◌, ◌≤◌, String, ◌==◌, ◌≡◌, refl, subst, Bool, false, ◌||◌, not, some, List, [],
  ◌∷◌, arith, inl, inr, Bool-cases, eqb, contains, length, ==-path,
}
use mattermost_plugin_org_di.Common.Sql.{select, select_row}
use mattermost_plugin_org_di.Model.Sync.{SyncNodePayload}
use mattermost_plugin_org_di.Plugin.Sync.Order.{Indexed, indexed_from, first_index}
use mattermost_plugin_org_di.Plugin.Sync.Order.Ids.{ext, exts, HasExts, ==-sym}
use mattermost_plugin_org_di.Plugin.Sync.Order.Drain.{sorted_after}

-- The payload is the one at its index.
abbrev pub IsAt : List Indexed → Indexed → Type 0
IsAt nodes p = select_row (λ y. eqb y.0 p.0) nodes ≡ some p

IsAt-weaken :
    (k : ℕ) (y : SyncNodePayload) (ys : List Indexed) (j : ℕ) (zs : List SyncNodePayload)
    → suc k ≤ j
    → All (IsAt ys) (indexed_from j zs)
    → All (IsAt ((k, y) ∷ ys)) (indexed_from j zs)
unfolding indexed_from
IsAt-weaken k y ys j [] h a = tt
IsAt-weaken k y ys j (z ∷ zs) h a =
    (ground (arith, h, a.0), IsAt-weaken k y ys (suc j) zs (omega arith) a.1)

pub All-IsAt :
    (k : ℕ) (ps : List SyncNodePayload) → All (IsAt (indexed_from k ps)) (indexed_from k ps)
unfolding indexed_from
All-IsAt k [] = tt
All-IsAt k (p ∷ ps) = (
  ground arith,
  IsAt-weaken k p (indexed_from (suc k) ps) (suc k) ps (omega arith) (All-IsAt (suc k) ps),
)

pub first_index-map :
    (e : String) (xs : List Indexed)
    → first_index e xs ≡ Option.map (λ y. y.0) (select_row (λ y. ext y == e) xs)
unfolding first_index
first_index-map e [] = refl
first_index-map e ((i, p) ∷ xs) = ground (arith, first_index-map e xs)

pub length-select-not :
    (f : Indexed → Bool) (xs : List Indexed)
    → length (select f xs) + length (select (λ x. not (f x)) xs) ≡ length xs
length-select-not f [] = omega arith
length-select-not f (x ∷ xs) = ground (arith, length-select-not f xs)

pub select_no_name : (xs : List Indexed) → length (select (λ x. false) xs) ≡ 0
select_no_name [] = refl
select_no_name (x ∷ xs) = select_no_name xs

pub nil_of_length : (xs : List Indexed) → length xs ≡ 0 → xs ≡ []
nil_of_length [] h = refl
nil_of_length (x ∷ xs) h = absurd (omega (arith, h))

pub contains-sorted_after :
    (s : String) (sorted : List String) (out : List Indexed)
    → contains s (sorted_after sorted out) ≡ (contains s sorted || contains s (exts out))
contains-sorted_after s sorted [] = ground arith
contains-sorted_after s sorted (p ∷ out) =
    ground (arith, contains-sorted_after s (ext p ∷ sorted) out)

pub count_none :
    (e : String) (sorted : List String) (xs : List Indexed)
    → contains e (exts xs) ≡ false
    → length (select (λ x. contains (ext x) (e ∷ sorted)) xs)
      ≡ length (select (λ x. contains (ext x) sorted) xs)
count_none e sorted [] h = refl
count_none e sorted (x ∷ xs) h = ground (arith, h, ==-sym e (ext x), count_none e sorted xs)

-- One payload has the external id.
pub count_one :
    (e : String) (sorted : List String) (xs : List Indexed) (p : Indexed)
    → HasExts xs
    → select_row (λ y. ext y == e) xs ≡ some p
    → contains e sorted ≡ false
    → length (select (λ x. contains (ext x) (e ∷ sorted)) xs)
      ≡ suc (length (select (λ x. contains (ext x) sorted) xs))
count_one e sorted [] p h n new = cc
count_one e sorted (x ∷ xs) p h n new = elim (Bool-cases (ext x == e)) [
  | inl here ↦
      let same : ext x ≡ e = ==-path _ _ here in
      let others : contains e (exts xs) ≡ false =
        subst (λ t. contains t (exts xs) ≡ false) same h.0 in
      let unsorted : contains (ext x) sorted ≡ false = rw same new in
      ground (arith, here, unsorted, count_none e sorted xs others)
  | inr other ↦ ground (arith, other, count_one e sorted xs p h.1 (ground (arith, other, n)) new)
]
