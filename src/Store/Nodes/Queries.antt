-- ===== src/Store/Nodes/Queries.antt =====
-- node_store.go: the queries. GetNode and GetNodeByExternalID are in Rows.
use mattermost_plugin_org_di.Common.{
  ℕ, String, ◌++◌, ◌==◌, Bool, ◌&&◌, ◌||◌, none, some, List, [], ◌∷◌, ltb_ℤ, eqb_ℤ, eqb,
  if◌then◌else◌, length, contains, map, Exec, ok, pure, ◌>>=◌,
}
use mattermost_plugin_org_di.Common.Sql.{select, order_by, page_of}
use mattermost_plugin_org_di.Common.Text.{like, split_slash, trim_prefix}
use mattermost_plugin_org_di.Model.{OrgNode, OrgMember}
use mattermost_plugin_org_di.Store.Db.{Host, Db}
use mattermost_plugin_org_di.Store.Nodes.Rows.{is_live, find_node, get_node}
use mathlib.Core.List

-- SELECT COUNT(*) … WHERE node_id=$1 AND delete_at=0
abbrev pub is_live_member : OrgMember → Bool
is_live_member m = eqb m.delete_at 0

-- The distinct texts of a list.
unfoldable pub distinct : List String → List String
distinct [] = []
distinct (x ∷ xs) = let rest = distinct xs in if contains x xs then rest else x ∷ rest

-- JOIN org_directory_nodes n ON m.node_id = n.id WHERE p n AND m.delete_at=0: the users of the pairs.
unfoldable pub joined_users : (OrgNode → Bool) → List OrgNode → List OrgMember → List String
joined_users p nodes [] = []
joined_users p nodes (m ∷ ms) =
    List.◌++◌
      (if is_live_member m
        then map (λ n. m.user_id) (select (λ n. (n.id == m.node_id) && p n) nodes)
        else [])
      (joined_users p nodes ms)

-- GetNodeMemberCount
unfoldable pub get_node_member_count : String → Bool → Exec Db ℕ
unfolding get_node distinct joined_users
get_node_member_count id recursive db =
    if recursive
    then (do
      node ← get_node id
      pure (
          length (
            distinct (
              joined_users (λ n. (like n.path (node.path ++ "/%") || (n.id == id)) && is_live n)
                db.nodes db.members))))
        db
    else (ok (length (select (λ m. (m.node_id == id) && is_live_member m) db.members)), db)

-- The rows of the nodes that a path names, without those that GetNode does not find.
unfoldable pub nodes_on_path : List String → List OrgNode → List OrgNode
unfolding find_node
nodes_on_path [] rows = []
nodes_on_path (id ∷ ids) rows =
    let rest = nodes_on_path ids rows in
    if id == "" then rest else elim (find_node id rows) [ none ↦ rest | some n ↦ n ∷ rest ]

-- GetNodePath
unfoldable pub get_node_path : String → Exec Db (List OrgNode)
unfolding get_node nodes_on_path
get_node_path id db =
    (do node ← get_node id; pure (nodes_on_path (split_slash (trim_prefix node.path "/")) db.nodes))
      db

module _ (host : Host) where
  -- ORDER BY sort_order, name
  abbrev pub by_order : OrgNode → OrgNode → Bool
  by_order a b =
      ltb_ℤ a.sort_order b.sort_order
      || (eqb_ℤ a.sort_order b.sort_order && host.text_before a.name b.name)

  -- ORDER BY depth, sort_order, name
  abbrev pub by_depth : OrgNode → OrgNode → Bool
  by_depth a b = ltb_ℤ a.depth b.depth || (eqb_ℤ a.depth b.depth && by_order a b)

  -- ORDER BY path, sort_order
  abbrev pub by_path : OrgNode → OrgNode → Bool
  by_path a b =
      host.text_before a.path b.path || ((a.path == b.path) && ltb_ℤ a.sort_order b.sort_order)

  -- GetChildNodes
  unfoldable pub get_child_nodes : String → Exec Db (List OrgNode)
  get_child_nodes parent_id db =
      (ok (order_by by_order (select (λ n. (n.parent_id == parent_id) && is_live n) db.nodes)), db)

  -- GetRootNodes
  unfoldable pub get_root_nodes : Exec Db (List OrgNode)
  unfolding get_child_nodes
  get_root_nodes = get_child_nodes ""

  -- GetSubTree
  unfoldable pub get_sub_tree : String → Exec Db (List OrgNode)
  unfolding get_node
  get_sub_tree id db =
      (do
        node ← get_node id
        pure (
            order_by by_path (select (λ n. like n.path (node.path ++ "/%") && is_live n) db.nodes)))
        db

  -- SearchNodes
  unfoldable pub search_nodes : String → Exec Db (List OrgNode)
  search_nodes query db =
      let pattern_text = "%" ++ (host.lower query ++ "%") in
      (
        ok (
            page_of 50 0 (
              order_by by_depth
                (select (λ n. like (host.lower n.name) pattern_text && is_live n) db.nodes))),
        db,
      )

  -- GetNodesBySource
  unfoldable pub get_nodes_by_source : String → Exec Db (List OrgNode)
  get_nodes_by_source source db =
      (ok (order_by by_depth (select (λ n. (n.source == source) && is_live n) db.nodes)), db)
