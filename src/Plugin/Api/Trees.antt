-- ===== src/Plugin/Api/Trees.antt =====
-- server/api_tree.go: the tree that the web application draws. buildTreeNode calls itself on the
-- children that the store finds, without a bound of its own: it has fuel, and `none` means that the
-- fuel ran out.
pub mod Total
pub mod Height
use mattermost_plugin_org_di.Common.{
  ℕ, zero, suc, String, ◌==◌, Bool, true, false, not, ◌||◌, Option, none, some, List, [], ◌∷◌, map,
  ℤ, pos, negsuc, ltb_ℤ, ◌+ℤ◌, if◌then◌else◌, Result, ok, err, reply, is_nil,
}
use mattermost_plugin_org_di.Common.Atoi.{atoi}
use mattermost_plugin_org_di.Model.{OrgNode}
use mattermost_plugin_org_di.Store.Db.{Host, Db}
use mattermost_plugin_org_di.Store.Nodes.Rows.{find_node}
use mattermost_plugin_org_di.Store.Nodes.Queries.{get_child_nodes, get_root_nodes}
use mattermost_plugin_org_di.Plugin.Api.Http.{Response, failure, json}
use mattermost_plugin_org_di.Plugin.Api.Nodes.Views.{
  NodeView, view_node, children_of_node, members_at,
}

-- OrgTreeNode, with the HasChildren of its node; Members is left empty by the code.
mutual
  pub data TreeNode : Type 0 where
    tree_node : OrgNode → Bool → ℕ → TreeNodes → TreeNode

  pub data TreeNodes : Type 0 where
    leaf : TreeNodes
    branch : TreeNode → TreeNodes → TreeNodes

-- The query parameter depth: -1 is no limit.
unfoldable pub depth_limit : String → ℤ
depth_limit text =
    if text == "" then negsuc 0 else (elim (atoi text) [ none ↦ negsuc 0 | some n ↦ n ])

-- maxDepth < 0 || currentDepth < maxDepth
abbrev pub within : ℤ → ℤ → Bool
within max_depth depth = ltb_ℤ max_depth (pos 0) || ltb_ℤ depth max_depth

-- append(treeNode.Children, …) for each child
unfoldable pub build_children : (OrgNode → Option TreeNode) → List OrgNode → Option TreeNodes
build_children build [] = some leaf
build_children build (n ∷ ns) = elim (build n) [
  | none ↦ none
  | some t ↦ elim (build_children build ns) [ none ↦ none | some ts ↦ some (branch t ts) ]
]

abbrev pub with_children : OrgNode → ℕ → Option TreeNodes → Option TreeNode
with_children n count none = none
with_children n count (some ts) = some (tree_node n false count ts)

module _ (host : Host) (db : Db) where
  -- buildTreeNode
  unfoldable pub build_tree_node : ℕ → ℤ → ℤ → OrgNode → Option TreeNode
  unfolding build_children children_of_node members_at
  build_tree_node zero max_depth depth n = none
  build_tree_node (suc fuel) max_depth depth n = elim (within max_depth depth) [
    | true ↦ with_children n (members_at host db n.id) (
        build_children (build_tree_node fuel max_depth (depth +ℤ pos 1))
          (children_of_node host db n.id))
    | false ↦
        some (
          tree_node n (not (is_nil (children_of_node host db n.id))) (members_at host db n.id) leaf)
  ]

  unfoldable pub built : Result (Option TreeNodes) → Option (Response TreeNodes)
  built (ok none) = none
  built (ok (some ts)) = some (json 200 ts)
  built (err e) = some (failure 500 "failed to get tree")

  unfoldable pub build_roots : ℕ → ℤ → Result (List OrgNode) → Option (Response TreeNodes)
  unfolding built build_tree_node
  build_roots fuel limit (ok roots) =
      built (ok (build_children (build_tree_node fuel limit (pos 0)) roots))
  build_roots fuel limit (err e) = built (err e)

  -- handleGetFullTree, with the query parameter depth
  unfoldable pub handle_get_full_tree : ℕ → String → Option (Response TreeNodes)
  unfolding build_roots depth_limit
  handle_get_full_tree fuel depth =
      build_roots fuel (depth_limit depth) (reply (get_root_nodes host) db)

  unfoldable pub answered : Option TreeNode → Option (Response TreeNode)
  answered none = none
  answered (some t) = some (json 200 t)

  -- handleGetSubTree
  unfoldable pub handle_get_sub_tree : ℕ → String → String → Option (Response TreeNode)
  unfolding answered build_tree_node depth_limit
  handle_get_sub_tree fuel id depth = elim (find_node id db.nodes) [
    | none ↦ some (failure 404 "node not found")
    | some n ↦ answered (build_tree_node fuel (depth_limit depth) (pos 0) n)
  ]

  viewed : Result (List OrgNode) → Response (List NodeView)
  unfolding view_node
  viewed (ok roots) = json 200 (map (view_node host db) roots)
  viewed (err e) = failure 500 "failed to get roots"

  -- handleGetRoots
  unfoldable pub handle_get_roots : Response (List NodeView)
  unfolding viewed
  handle_get_roots = viewed (reply (get_root_nodes host) db)
