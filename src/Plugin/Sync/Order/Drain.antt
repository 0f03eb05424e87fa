-- ===== src/Plugin/Sync/Order/Drain.antt =====
-- topologicalSortNodes of server/api_sync.go: the loop over the queue, where no external id comes
-- twice.
use mathlib.Core.List
use mathlib.Core.List.{append_assoc, append-nil}
use mattermost_plugin_org_di.Common.{
  All, ℕ, zero, suc, ◌+◌, ◌≤◌, String, ◌≡◌, ap, sym, ◌∙◌, Bool, true, false, ◌||◌, not, some, List,
  [], ◌∷◌, arith, inl, inr, Bool-cases, contains, length, length-append, ==-path,
}
use mattermost_plugin_org_di.Common.Sql.{select}
use mattermost_plugin_org_di.Plugin.Sync.Order.{Indexed, is_root, is_child_of, children_of, drain}
use mattermost_plugin_org_di.Plugin.Sync.Order.Ids.{
  ext, parent_ext, exts, HasExts, IsNodeOf, contains-append, ==-sym, HasExts-select,
  contains-select, All-IsNodeOf,
}

-- A payload may be sorted when it is a root, or when its parent is among those that are.
abbrev pub is_ready : List String → Indexed → Bool
is_ready sorted p = is_root p || contains (parent_ext p) sorted

-- The external ids that are sorted after `out`, the latest first.
abbrev pub sorted_after : List String → List Indexed → List String
sorted_after sorted [] = sorted
sorted_after sorted (p ∷ out) = sorted_after (ext p ∷ sorted) out

module _ (nodes : List Indexed) where
  -- Each payload comes once, and after its parent.
  abbrev pub IsRun : List String → List Indexed → Type 0
  IsRun sorted [] = Unit {0}
  IsRun sorted (p ∷ out) =
      IsNodeOf nodes p
      × (is_ready sorted p ≡ true)
      × (contains (ext p) sorted ≡ false)
      × IsRun (ext p ∷ sorted) out

  -- What waits in the queue may be sorted, is not sorted yet, and waits once.
  abbrev pub IsQueue : List String → List Indexed → Type 0
  IsQueue sorted [] = Unit {0}
  IsQueue sorted (p ∷ queue) =
      IsNodeOf nodes p
      × (is_ready sorted p ≡ true)
      × (contains (ext p) sorted ≡ false)
      × (contains (ext p) (exts queue) ≡ false)
      × IsQueue sorted queue

  -- The payloads that are sorted or wait are those that may be sorted.
  abbrev pub IsClosed : List String → List Indexed → Type 0
  IsClosed sorted queue =
      (x : Indexed)
      → IsNodeOf nodes x
      → (contains (ext x) sorted || contains (ext x) (exts queue)) ≡ is_ready sorted x

  child_not_ready :
      (sorted : List String) (e : String) (x : Indexed)
      → contains e sorted ≡ false
      → is_child_of e x ≡ true
      → is_ready sorted x ≡ false
  child_not_ready sorted e x h c =
      let same : parent_ext x ≡ e = ==-path _ _ (ground (arith, c)) in
      let not_sorted : contains (parent_ext x) sorted ≡ false = rw same h in
      ground (arith, c, not_sorted)

  ready_not_child :
      (sorted : List String) (e : String) (x : Indexed)
      → contains e sorted ≡ false
      → is_ready sorted x ≡ true
      → is_child_of e x ≡ false
  ready_not_child sorted e x h r = elim (Bool-cases (is_child_of e x)) [
    | inl c ↦ cc (child_not_ready sorted e x h c, r)
    | inr c ↦ c
  ]

  module _ (unique : HasExts nodes) where
    contains-children :
        (e : String) (x : Indexed)
        → IsNodeOf nodes x
        → contains (ext x) (exts (children_of nodes e)) ≡ is_child_of e x
    unfolding children_of
    contains-children e x n = contains-select (is_child_of e) nodes x unique n

    module _ (sorted : List String) (p : Indexed) (queue : List Indexed)
        (closed : IsClosed sorted (p ∷ queue)) (waiting : IsQueue sorted (p ∷ queue)) where
      step-IsClosed : IsClosed (ext p ∷ sorted) (List.◌++◌ queue (children_of nodes (ext p)))
      step-IsClosed x n = ground (
        arith,
        closed x n,
        contains-append (ext x) queue (children_of nodes (ext p)),
        contains-children (ext p) x n,
      )

      new_child :
          (x : Indexed)
          → IsNodeOf nodes x
          → is_child_of (ext p) x ≡ true
          → (contains (ext x) (ext p ∷ sorted)) ≡ false
      new_child x n c = ground (arith, closed x n, child_not_ready sorted (ext p) x waiting.2 c)

      children-IsQueue :
          (xs : List Indexed)
          → All (IsNodeOf nodes) xs
          → HasExts (select (is_child_of (ext p)) xs)
          → IsQueue (ext p ∷ sorted) (select (is_child_of (ext p)) xs)
      children-IsQueue [] a h = tt
      children-IsQueue (x ∷ xs) a h = elim (Bool-cases (is_child_of (ext p) x)) [
        | inl c ↦
            let h' : HasExts (x ∷ select (is_child_of (ext p)) xs) = rw c at h in
            rw c (a.0, ground (arith, c), new_child x a.0 c, h'.0, children-IsQueue xs a.1 h'.1)
        | inr c ↦ rw c (children-IsQueue xs a.1 (rw c at h))
      ]

      IsQueue-append :
          (xs : List Indexed)
          → IsQueue sorted xs
          → contains (ext p) (exts xs) ≡ false
          → IsQueue (ext p ∷ sorted) (List.◌++◌ xs (children_of nodes (ext p)))
      unfolding children_of
      IsQueue-append [] w h =
          children-IsQueue nodes (All-IsNodeOf nodes unique)
            (HasExts-select (is_child_of (ext p)) nodes unique)
      IsQueue-append (x ∷ xs) (n, ready, new, once, rest) h = (
        n,
        ground (arith, ready),
        ground (arith, new, h, ==-sym (ext x) (ext p)),
        ground (
          arith,
          once,
          contains-append (ext x) xs (children_of nodes (ext p)),
          contains-children (ext p) x n,
          ready_not_child sorted (ext p) x waiting.2 ready,
        ),
        IsQueue-append xs rest (ground (arith, h)),
      )

      step-IsQueue : IsQueue (ext p ∷ sorted) (List.◌++◌ queue (children_of nodes (ext p)))
      step-IsQueue = IsQueue-append queue waiting.4 waiting.3

    -- The payloads that may not be sorted yet.
    abbrev pub unready : List String → List Indexed → List Indexed
    unready sorted xs = select (λ x. not (is_ready sorted x)) xs

    length-unready :
        (sorted : List String) (e : String) (xs : List Indexed)
        → contains e sorted ≡ false
        → length (unready sorted xs)
          ≡ length (unready (e ∷ sorted) xs) + length (select (is_child_of e) xs)
    length-unready sorted e [] h = omega arith
    length-unready sorted e (x ∷ xs) h = elim (Bool-cases (is_child_of e x)) [
      | inl c ↦ ground (arith, c, child_not_ready sorted e x h c, length-unready sorted e xs h)
      | inr c ↦ ground (arith, c, length-unready sorted e xs h)
    ]

    abbrev pub Drained : List String → List Indexed → ℕ → List Indexed → Type 0
    Drained sorted queue fuel before =
        (out : List Indexed) × (drain nodes fuel queue before ≡ some (List.◌++◌ before out))
        × IsRun sorted out
        × IsClosed (sorted_after sorted out) []

    -- A round sorts one payload, and queues only payloads that could not be sorted before it.
    pub drain_total :
        (fuel : ℕ) (sorted : List String) (queue before : List Indexed)
        → IsClosed sorted queue
        → IsQueue sorted queue
        → length queue + length (unready sorted nodes) ≤ fuel
        → Drained sorted queue fuel before
    unfolding drain children_of
    drain_total fuel sorted [] before closed waiting enough =
        ([], ap some (sym (append-nil before)), tt, closed)
    drain_total zero sorted (p ∷ queue) before closed waiting enough =
        absurd (omega (arith, enough))
    drain_total (suc fuel) sorted (p ∷ queue) before closed waiting enough =
        let children = children_of nodes (ext p) in
        let fewer : length (List.◌++◌ queue children) + length (unready (ext p ∷ sorted) nodes)
            ≤ fuel =
          omega (
            arith,
            enough,
            length-append queue children,
            length-unready sorted (ext p) nodes waiting.2,
          ) in
        let (out, drained, run, done) =
          drain_total fuel (ext p ∷ sorted) (List.◌++◌ queue children) (List.◌++◌ before (p ∷ []))
            (step-IsClosed sorted p queue closed waiting)
            (step-IsQueue sorted p queue closed waiting) fewer in
        (
          p ∷ out,
          drained ∙ ap some (append_assoc before (p ∷ []) out),
          (waiting.0, waiting.1, waiting.2, run),
          done,
        )
