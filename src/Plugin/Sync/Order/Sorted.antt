-- ===== src/Plugin/Sync/Order/Sorted.antt =====
-- topologicalSortNodes of server/api_sync.go as a whole, where no external id comes twice.
use mathlib.Core.List
use mathlib.Core.List.{append-nil}
use mathlib.Core.Option
use mattermost_plugin_org_di.Common.{
  All, ℕ, ◌+◌, ◌≤◌, String, ◌==◌, ◌≡◌, refl, ap, sym, subst, ◌∙◌, true, false, not, some, List, [],
  ◌∷◌, arith, inl, inr, Bool-cases, eqb, ltb, contains, length, ==-path, ==_of_path,
}
use mattermost_plugin_org_di.Common.Sql.{select, select_row, select_cong}
use mattermost_plugin_org_di.Model.Sync.{SyncNodePayload}
use mattermost_plugin_org_di.Plugin.Sync.Order.{
  Indexed, indexed_from, is_root, first_index, is_added, append_rest, finish,
  topological_sort_nodes,
}
use mattermost_plugin_org_di.Plugin.Sync.Order.Ids.{
  ext, parent_ext, exts, HasExts, IsNodeOf, HasExternalIds, HasExts-select, contains-select,
  All-IsNodeOf, All-select_row, indexed_from-HasExts, length-indexed_from,
}
use mattermost_plugin_org_di.Plugin.Sync.Order.Drain.{
  is_ready, sorted_after, IsRun, IsQueue, IsClosed, drain_total,
}
use mattermost_plugin_org_di.Plugin.Sync.Order.Counted.{
  IsAt, All-IsAt, first_index-map, length-select-not, select_no_name, nil_of_length,
  contains-sorted_after, count_one,
}

module _ (payloads : List SyncNodePayload) (unique : HasExternalIds payloads) where
  abbrev pub nodes : List Indexed
  nodes = indexed_from 0 payloads

  nodes-HasExts : HasExts nodes
  nodes-HasExts = indexed_from-HasExts 0 payloads unique

  same_ext : (s p : Indexed) → IsNodeOf nodes s → IsNodeOf nodes p → ext p ≡ ext s → s ≡ p
  same_ext s p ns np e =
      let here : select_row (λ y. ext y == ext p) nodes ≡ some s =
        subst (λ t. select_row (λ y. ext y == t) nodes ≡ some s) (sym e) ns in
      cc (here, np)

  same_index : (s p : Indexed) → IsAt nodes s → IsAt nodes p → s.0 ≡ p.0 → s ≡ p
  same_index s p ns np e =
      let here : select_row (λ y. eqb y.0 p.0) nodes ≡ some s =
        subst (λ t. select_row (λ y. eqb y.0 t) nodes ≡ some s) e ns in
      cc (here, np)

  -- The search by index finds the payload by its external id.
  index_eq : (s p : Indexed) → IsNodeOf nodes s → IsNodeOf nodes p → eqb s.0 p.0 ≡ (ext p == ext s)
  index_eq s p ns np =
      let at_s : IsAt nodes s =
        All-select_row (IsAt nodes) (λ y. ext y == ext s) nodes s (All-IsAt 0 payloads) ns in
      let at_p : IsAt nodes p =
        All-select_row (IsAt nodes) (λ y. ext y == ext p) nodes p (All-IsAt 0 payloads) np in
      elim (Bool-cases (ext p == ext s)) [
        | inl e ↦
            let same : s ≡ p = same_ext s p ns np (==-path _ _ e) in
            let index : s.0 ≡ p.0 = ap (λ x. x.0) same in ground (arith, e, index)
        | inr e ↦ elim (Bool-cases (eqb s.0 p.0)) [
          | inl i ↦
              let same : s ≡ p = same_index s p at_s at_p (ground (arith, i)) in
              let equal : (ext p == ext s) ≡ true = ==_of_path _ _ (ap ext (sym same)) in
              cc (e, equal)
          | inr i ↦ ground (arith, e, i)
        ]
      ]

  is_added-contains :
      (sorted : List String) (out : List Indexed) (p : Indexed)
      → IsRun nodes sorted out
      → IsNodeOf nodes p
      → is_added nodes out p.0 ≡ contains (ext p) (exts out)
  unfolding is_added
  is_added-contains sorted [] p r n = refl
  is_added-contains sorted (s ∷ out) p (ns, ready, new, r) n =
      let found : first_index (ext s) nodes ≡ some s.0 =
        first_index-map (ext s) nodes ∙ ap (Option.map (λ y. y.0)) ns in
      rw (found, is_added)
        (ground (arith, is_added-contains (ext s ∷ sorted) out p r n, index_eq s p ns n))

  -- The payloads that the loop does not reach, in the order of the request.
  abbrev pub left_over : List Indexed → List Indexed
  left_over out = select (λ p. not (contains (ext p) (exts out))) nodes

  not_added :
      (out : List Indexed)
      → IsRun nodes [] out
      → (xs : List Indexed) → All (IsNodeOf nodes) xs
      → select (λ p. not (is_added nodes out p.0)) xs
        ≡ select (λ p. not (contains (ext p) (exts out))) xs
  not_added out r [] a = refl
  not_added out r (x ∷ xs) a =
      ground (arith, is_added-contains [] out x r a.0, not_added out r xs a.1)

  run_count :
      (sorted : List String) (out : List Indexed)
      → IsRun nodes sorted out
      → length (select (λ x. contains (ext x) (sorted_after sorted out)) nodes)
        ≡ length (select (λ x. contains (ext x) sorted) nodes) + length out
  run_count sorted [] r = omega arith
  run_count sorted (p ∷ out) (n, ready, new, r) = omega (
    arith,
    run_count (ext p ∷ sorted) out r,
    count_one (ext p) sorted nodes p nodes-HasExts n new,
  )

  sorted_count :
      (out : List Indexed)
      → IsRun nodes [] out
      → length (select (λ x. contains (ext x) (exts out)) nodes) ≡ length out
  sorted_count out r =
      let same : select (λ x. contains (ext x) (sorted_after [] out)) nodes
          ≡ select (λ x. contains (ext x) (exts out)) nodes =
        select_cong (λ x. contains (ext x) (sorted_after [] out)) (λ x. contains (ext x) (exts out))
          nodes (λ x. contains-sorted_after (ext x) [] out) in
      omega (arith, run_count [] out r, ap length same, select_no_name nodes)

  length-left_over :
      (out : List Indexed) → IsRun nodes [] out → length out + length (left_over out) ≡ length nodes
  length-left_over out r =
      omega (arith, sorted_count out r, length-select-not (λ x. contains (ext x) (exts out)) nodes)

  append_rest-run :
      (out : List Indexed)
      → IsRun nodes [] out
      → append_rest nodes out ≡ List.◌++◌ out (left_over out)
  unfolding append_rest
  append_rest-run out r = elim (Bool-cases (ltb (length out) (length nodes))) [
    | inl e ↦ rw e (ap (List.◌++◌ out) (not_added out r nodes (All-IsNodeOf nodes nodes-HasExts)))
    | inr e ↦
        let none_left : left_over out ≡ [] =
          nil_of_length (left_over out) (ground (arith, e, length-left_over out r)) in
        rw (e, none_left) (sym (append-nil out))
  ]

  initial-IsClosed : IsClosed nodes [] (select is_root nodes)
  initial-IsClosed x n = ground (arith, contains-select is_root nodes x nodes-HasExts n)

  roots-IsQueue :
      (xs : List Indexed)
      → All (IsNodeOf nodes) xs
      → HasExts (select is_root xs)
      → IsQueue nodes [] (select is_root xs)
  roots-IsQueue [] a h = tt
  roots-IsQueue (x ∷ xs) a h = elim (Bool-cases (is_root x)) [
    | inl c ↦
        let h' : HasExts (x ∷ select is_root xs) = rw c at h in
        rw c (a.0, ground (arith, c), refl, h'.0, roots-IsQueue xs a.1 h'.1)
    | inr c ↦ rw c (roots-IsQueue xs a.1 (rw c at h))
  ]

  initial-IsQueue : IsQueue nodes [] (select is_root nodes)
  initial-IsQueue =
      roots-IsQueue nodes (All-IsNodeOf nodes nodes-HasExts)
        (HasExts-select is_root nodes nodes-HasExts)

  initial_length :
      (xs : List Indexed)
      → length (select is_root xs) + length (select (λ x. not (is_ready [] x)) xs) ≡ length xs
  initial_length [] = omega arith
  initial_length (x ∷ xs) = ground (arith, initial_length xs)

  left_over_unready :
      (out : List Indexed)
      → IsClosed nodes (sorted_after [] out) []
      → (xs : List Indexed) → All (IsNodeOf nodes) xs
      → All
          (λ p. is_ready (exts out) p ≡ false)
          (select (λ p. not (contains (ext p) (exts out))) xs)
  left_over_unready out closed [] a = tt
  left_over_unready out closed (x ∷ xs) a = elim (Bool-cases (contains (ext x) (exts out))) [
    | inl e ↦ rw e (left_over_unready out closed xs a.1)
    | inr e ↦ rw e (
      ground (
        arith,
        e,
        closed x a.0,
        contains-sorted_after (ext x) [] out,
        contains-sorted_after (parent_ext x) [] out,
      ),
      left_over_unready out closed xs a.1,
    )
  ]

  -- Where the external ids of the payloads are distinct, topologicalSortNodes ends on fuel for as
  -- many rounds as there are payloads. Its answer is a run of payloads, each once and behind its
  -- parent, followed by the payloads that are not in the run, in their order, none of which is a
  -- root or has a parent in the run; together they are as many as the payloads.
  pub topological_sort_nodes_total :
      (fuel : ℕ)
      → length payloads ≤ fuel
      → (out : List Indexed) × (topological_sort_nodes fuel payloads
          ≡ some (List.map (λ p. p.1) (List.◌++◌ out (left_over out))))
        × IsRun nodes [] out
        × All (λ p. is_ready (exts out) p ≡ false) (left_over out)
        × (length out + length (left_over out) ≡ length payloads)
  unfolding topological_sort_nodes finish
  topological_sort_nodes_total fuel enough =
      let (out, drained, run, closed) =
        drain_total nodes nodes-HasExts fuel [] (select is_root nodes) [] initial-IsClosed
          initial-IsQueue
          (omega (arith, enough, initial_length nodes, length-indexed_from 0 payloads)) in
      (
        out,
        ap (finish nodes) drained
            ∙ ap (λ l. some (List.map (λ p. p.1) l)) (append_rest-run out run),
        run,
        left_over_unready out closed nodes (All-IsNodeOf nodes nodes-HasExts),
        length-left_over out run ∙ length-indexed_from 0 payloads,
      )
