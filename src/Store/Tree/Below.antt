-- ===== src/Store/Tree/Below.antt =====
-- server/store/node_store.go: a live node whose path continues another's is deeper.
use Prim.Native.String.{len}
use text.Mathlib.TextLemmas.{nil-append}
use mattermost_plugin_org_di.Common.{
  ℕ, zero, suc, ◌<◌, String, ◌++◌, ◌≡◌, refl, ap, sym, ◌∙◌, subst, true, some, List, inl, inr,
  arith, ℤ, pos, ◌+ℤ◌, ◌-ℤ◌, true_ne_false,
}
use mattermost_plugin_org_di.Common.Text.{has_prefix}
use mattermost_plugin_org_di.Common.Text.Laws.{has_prefix-child, no_prefix_nil}
use mattermost_plugin_org_di.Model.{OrgNode}
use mattermost_plugin_org_di.Store.Nodes.Rows.{find_node}
use mattermost_plugin_org_di.Store.Nodes.Children.{child_path, some_path}
use mattermost_plugin_org_di.Store.Tree.Invariant.{
  IsTree, IsPlaced, IsChild, find_node-id, same_path, segment-has_slash,
}
use mattermost_plugin_org_di.Store.Tree.Move.{path_proper}

shift_one : (a b c : ℤ) (k : ℕ) → a ≡ b +ℤ pos 1 → b ≡ c +ℤ pos k → a ≡ c +ℤ pos (suc k)
unfolding ◌+ℤ◌
shift_one a b c k e f = ground arith

shifted_back : (c : ℤ) (k : ℕ) → (((c +ℤ pos (suc k)) -ℤ c) -ℤ pos 1) ≡ pos k
unfolding ◌+ℤ◌ ◌-ℤ◌
shifted_back c k = ground arith

module _ (rows : List OrgNode) (t : IsTree rows) (i : String) (p : OrgNode)
    (found : find_node i rows ≡ some p) where
  -- So many levels below `p`, less one.
  abbrev IsDeeper : OrgNode → Type 0
  IsDeeper n = (k : ℕ) × (n.depth ≡ p.depth +ℤ pos (suc k))

  under_parent :
      (j : String) (n q : OrgNode)
      → find_node j rows ≡ some n
      → find_node n.parent_id rows ≡ some q
      → IsChild q n
      → has_prefix n.path (p.path ++ "/") ≡ true
      → (has_prefix q.path (p.path ++ "/") ≡ true → IsDeeper q)
      → IsDeeper n
  under_parent j n q e eq child h up =
      elim (has_prefix-child q.path p.path n.id (segment-has_slash n.id (t.segment j n e))
        (subst (λ s. has_prefix s (p.path ++ "/") ≡ true) child.0 h)) [
          | inl first ↦
              let key : n.parent_id ≡ i =
                sym (find_node-id n.parent_id rows q eq)
                ∙ same_path t n.parent_id i q p eq found first
                ∙ find_node-id i rows p found in
              let one : q ≡ p = some_path q p (sym eq ∙ ap (λ x. find_node x rows) key ∙ found) in
              (0, child.1 ∙ ap (λ x. x.depth +ℤ pos 1) one)
          | inr deeper ↦
              let (k, d) = up deeper in (suc k, shift_one n.depth q.depth p.depth (suc k) child.1 d)
        ]

  IsDeeper-below :
      (fuel : ℕ) (j : String) (n : OrgNode)
      → len n.path < fuel
      → find_node j rows ≡ some n
      → has_prefix n.path (p.path ++ "/") ≡ true
      → IsDeeper n
  IsDeeper-below zero j n small e h = absurd (omega (arith, small))
  IsDeeper-below (suc fuel) j n small e h = go (t.placed j n e) (IsDeeper-below fuel)
    where
      go :
          IsPlaced rows n
          → ((i : String) (q : OrgNode)
              → len q.path < fuel
              → find_node i rows ≡ some q
              → has_prefix q.path (p.path ++ "/") ≡ true
              → IsDeeper q)
          → IsDeeper n
      go (inl root) up =
          let h' : has_prefix ("" ++ ("/" ++ n.id)) (p.path ++ "/") ≡ true =
            subst (λ s. has_prefix s (p.path ++ "/") ≡ true)
              (root.1 ∙ sym (nil-append ("/" ++ n.id))) h in
          elim (has_prefix-child "" p.path n.id (segment-has_slash n.id (t.segment j n e)) h') [
            | inl empty ↦ absurd (path_proper rows i p t found empty)
            | inr more ↦ absurd (true_ne_false (sym more ∙ no_prefix_nil p.path))
          ]
      go (inr (q, eq, child)) up =
          under_parent j n q e eq child h (λ deeper.
            up n.parent_id q (omega (arith, small, child_path q q n refl child)) eq deeper)

  -- Behind the path of `p` there are only the nodes below it.
  pub has_prefix-deeper :
      (j : String) (n : OrgNode)
      → find_node j rows ≡ some n
      → has_prefix n.path (p.path ++ "/") ≡ true
      → (k : ℕ) × (((n.depth -ℤ p.depth) -ℤ pos 1) ≡ pos k)
  has_prefix-deeper j n e h =
      let (k, d) = IsDeeper-below (suc (len n.path)) j n (omega arith) e h in
      (k, ap (λ x. (x -ℤ p.depth) -ℤ pos 1) d ∙ shifted_back p.depth k)
