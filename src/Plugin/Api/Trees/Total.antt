-- ===== src/Plugin/Api/Trees/Total.antt =====
-- server/api_tree.go on a well-formed tree: the recursion of buildTreeNode ends.
use Prim.Native.String.{len}
use mattermost_plugin_org_di.Common.{
  ℕ, zero, suc, ◌+◌, ◌<◌, String, ◌≡◌, refl, ap, ◌∙◌, false, Option, some, List, [], ◌∷◌, arith, ℤ,
  pos, ◌+ℤ◌, inl, inr, Bool-cases, Option-cases, All, ok, not, is_nil,
}
use mattermost_plugin_org_di.Model.{OrgNode}
use mattermost_plugin_org_di.Store.Db.{Host, Db}
use mattermost_plugin_org_di.Store.Nodes.Rows.{find_node}
use mattermost_plugin_org_di.Store.Nodes.Queries.{get_child_nodes, get_root_nodes}
use mattermost_plugin_org_di.Store.Nodes.Children.{
  longest, find_node-longest, IsChildOf, All-children, All-roots, All-map,
}
use mattermost_plugin_org_di.Store.Tree.Invariant.{IsTree, find_node-id}
use mattermost_plugin_org_di.Plugin.Api.Http.{Response, failure, json}
use mattermost_plugin_org_di.Plugin.Api.Nodes.Views.{children_of_node, members_at}
use mattermost_plugin_org_di.Plugin.Api.Trees.{
  TreeNode, TreeNodes, tree_node, leaf, branch, within, build_children, build_tree_node,
  with_children, handle_get_full_tree, handle_get_sub_tree, depth_limit, build_roots, built,
  answered,
}

build_children_total :
    (build : OrgNode → Option TreeNode) (ns : List OrgNode)
    → All (λ n. (t : TreeNode) × (build n ≡ some t)) ns
    → (ts : TreeNodes) × (build_children build ns ≡ some ts)
unfolding build_children
build_children_total build [] h = (leaf, refl)
build_children_total build (n ∷ ns) ((t, e), hs) =
    let (ts, es) = build_children_total build ns hs in
    (branch t ts, rw (build_children, e, es) refl)

module _ (host : Host) (db : Db) (tree : IsTree db.nodes) where
  -- Every live node is below the longest path by as many calls as its own path is shorter.
  pub build_tree_node_total :
      (fuel : ℕ) (max_depth depth : ℤ) (n : OrgNode)
      → find_node n.id db.nodes ≡ some n
      → longest db.nodes < fuel + len n.path
      → (t : TreeNode) × (build_tree_node host db fuel max_depth depth n ≡ some t)
  unfolding build_tree_node children_of_node get_child_nodes
  build_tree_node_total zero max_depth depth n found h =
      absurd (omega (arith, h, find_node-longest n.id n db.nodes found))
  build_tree_node_total (suc fuel) max_depth depth n found h =
      elim (Bool-cases (within max_depth depth)) [
        | inl e ↦
            let (ts, es) =
              build_children_total (build_tree_node host db fuel max_depth (depth +ℤ pos 1))
                (children_of_node host db n.id)
                (All-map (IsChildOf db.nodes n) _ (children_of_node host db n.id)
                  (λ c below.
                    build_tree_node_total fuel max_depth (depth +ℤ pos 1) c below.0
                      (omega (arith, h, below.2)))
                  (All-children host n db tree found)) in
            (
              tree_node n false (members_at host db n.id) ts,
              rw (build_tree_node, e) (ap (with_children n (members_at host db n.id)) es),
            )
        | inr e ↦ (
          tree_node n (not (is_nil (children_of_node host db n.id))) (members_at host db n.id) leaf,
          rw (build_tree_node, e) refl,
        )
      ]

  pub full_tree_total :
      (fuel : ℕ) (depth : String)
      → longest db.nodes < fuel
      → (r : Response TreeNodes) × (handle_get_full_tree host db fuel depth ≡ some r)
  unfolding handle_get_full_tree build_roots built get_root_nodes get_child_nodes
  full_tree_total fuel depth h =
      let (ts, es) =
        build_children_total (build_tree_node host db fuel (depth_limit depth) (pos 0)) _ (
          All-map _ _ _
            (λ c found.
              build_tree_node_total fuel (depth_limit depth) (pos 0) c found (omega (arith, h)))
            (All-roots host db tree)) in
      (json 200 ts, ap (λ o. built host db (ok o)) es)

  -- On a well-formed tree the recursion of buildTreeNode ends: handleGetSubTree answers, whatever
  -- the id and the depth, on fuel that exceeds the longest path of the table.
  pub handle_get_sub_tree_total :
      (fuel : ℕ) (id depth : String)
      → longest db.nodes < fuel
      → (r : Response TreeNode) × (handle_get_sub_tree host db fuel id depth ≡ some r)
  unfolding handle_get_sub_tree answered
  handle_get_sub_tree_total fuel id depth h = elim (Option-cases (find_node id db.nodes)) [
    | inl e ↦ (failure 404 "node not found", rw (handle_get_sub_tree, e) refl)
    | inr (n, e) ↦
        let (t, et) =
          build_tree_node_total fuel (depth_limit depth) (pos 0) n
            (ap (λ x. find_node x db.nodes) (find_node-id id db.nodes n e) ∙ e)
            (omega (arith, h)) in
        (json 200 t, rw (handle_get_sub_tree, e) (ap (answered host db) et))
  ]
