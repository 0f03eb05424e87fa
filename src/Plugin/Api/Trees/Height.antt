-- ===== src/Plugin/Api/Trees/Height.antt =====
-- server/api_tree.go: the query parameter depth bounds the tree.
use mattermost_plugin_org_di.Common.{
  ℕ, zero, suc, ◌+◌, ◌≤◌, ◌≡◌, refl, true, false, Option, none, some, List, [], ◌∷◌, arith, pos,
  ◌+ℤ◌, subst, not, is_nil, inl, inr, Bool-cases, Option-cases, if◌then◌else◌, ltb,
}
use mattermost_plugin_org_di.Store.Nodes.Children.{some_path}
use mattermost_plugin_org_di.Model.{OrgNode}
use mattermost_plugin_org_di.Store.Db.{Host, Db}
use mattermost_plugin_org_di.Plugin.Api.Nodes.Views.{children_of_node, members_at}
use mattermost_plugin_org_di.Plugin.Api.Trees.{
  TreeNode, TreeNodes, tree_node, leaf, branch, within, build_children, build_tree_node,
  with_children,
}

abbrev max : ℕ → ℕ → ℕ
max a b = if ltb a b then b else a

-- The number of edges from the node to its deepest descendant.
unfoldable mutual
  pub height : TreeNode → ℕ
  height (tree_node n has_children members ts) = heights ts

  pub heights : TreeNodes → ℕ
  heights leaf = 0
  heights (branch t ts) = max (suc (height t)) (heights ts)

-- Children that reach no deeper than `k` from depth `suc d` make a tree that does not from `d`.
build_children-height :
    (k d : ℕ) (build : OrgNode → Option TreeNode) (ns : List OrgNode) (ts : TreeNodes)
    → ((n : OrgNode) (t : TreeNode) → build n ≡ some t → height t + suc d ≤ k)
    → d ≤ k
    → build_children build ns ≡ some ts
    → heights ts + d ≤ k
unfolding build_children heights
build_children-height k d build [] ts h le e = ground arith
build_children-height k d build (n ∷ ns) ts h le e = elim (Option-cases (build n)) [
  | inl none_built ↦ absurd (ground arith)
  | inr (t, et) ↦ elim (Option-cases (build_children build ns)) [
    | inl none_built ↦ absurd (ground arith)
    | inr (us, eu) ↦
        let whole : branch t us ≡ ts = ground arith in
        let below : height t + suc d ≤ k = h n t et in
        let beside : heights us + d ≤ k = build_children-height k d build ns us h le eu in
        subst (λ x. heights x + d ≤ k) whole (ground (arith, below, beside))
  ]
]

built_height :
    (k d members : ℕ) (n : OrgNode) (t : TreeNode) (o : Option TreeNodes)
    → with_children n members o ≡ some t
    → ((ts : TreeNodes) → o ≡ some ts → heights ts + d ≤ k)
    → height t + d ≤ k
unfolding height
built_height k d members n t none e h = cc
built_height k d members n t (some ts) e h =
    let same : tree_node n false members ts ≡ t = ground arith in
    subst (λ x. height x + d ≤ k) same (h ts refl)

after_one : (d : ℕ) → pos d +ℤ pos 1 ≡ pos (suc d)
unfolding ◌+ℤ◌
after_one d = ground arith

deeper : (k d : ℕ) → within (pos k) (pos d) ≡ true → suc d ≤ k
deeper k d e = ground (arith, e)

module _ (host : Host) (db : Db) where
  -- With a limit that is not negative, the tree that buildTreeNode builds at a depth within the
  -- limit has no node deeper than the limit.
  pub build_tree_node-height :
      (fuel k d : ℕ) (n : OrgNode) (t : TreeNode)
      → build_tree_node host db fuel (pos k) (pos d) n ≡ some t
      → d ≤ k
      → height t + d ≤ k
  unfolding build_tree_node height
  build_tree_node-height zero k d n t e le = cc
  build_tree_node-height (suc fuel) k d n t e le = elim (Bool-cases (within (pos k) (pos d))) [
    | inl more ↦
        built_height k d (members_at host db n.id) n t _ (rw (build_tree_node, more) at e) (λ ts es.
          build_children-height k d (build_tree_node host db fuel (pos k) (pos d +ℤ pos 1))
            (children_of_node host db n.id) ts
            (λ c u eu.
              build_tree_node-height fuel k (suc d) c u
                (subst (λ x. build_tree_node host db fuel (pos k) x c ≡ some u) (after_one d) eu)
                (deeper k d more))
            le es)
    | inr done ↦
        let whole : tree_node n (not (is_nil (children_of_node host db n.id)))
              (members_at host db n.id) leaf
            ≡ t =
          some_path _ _ (rw (build_tree_node, done) at e) in
        subst (λ x. height x + d ≤ k) whole (omega (arith, le))
  ]
