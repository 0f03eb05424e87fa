-- ===== src/Plugin/Api/Nodes/Views.antt =====
-- server/api_node.go: the handlers that read, with the fields of a node that are filled for the answer.
use mattermost_plugin_org_di.Common.{
  ℕ, String, Bool, false, not, none, some, List, [], map, Result, ok, err, reply, is_nil,
}
use mattermost_plugin_org_di.Common.Atoi.{parse_bool}
use mattermost_plugin_org_di.Model.{OrgNode}
use mattermost_plugin_org_di.Store.Db.{Host, Db}
use mattermost_plugin_org_di.Store.Nodes.Rows.{find_node}
use mattermost_plugin_org_di.Store.Nodes.Queries.{get_child_nodes, get_node_member_count}
use mattermost_plugin_org_di.Plugin.Api.Http.{Response, failure, json, value_or, answer}

-- A node with HasChildren and MemberCount.
pub record NodeView : Type 0 where
  pub node : OrgNode
  pub has_children : Bool
  pub member_count : ℕ

module _ (host : Host) (db : Db) where
  -- Children and count of one node, where errors are dropped.
  unfoldable pub children_of_node : String → List OrgNode
  children_of_node id = value_or [] (reply (get_child_nodes host id) db)

  unfoldable pub members_at : String → ℕ
  members_at id = value_or 0 (reply (get_node_member_count id false) db)

  unfoldable pub view_node : OrgNode → NodeView
  unfolding children_of_node members_at
  view_node n = record {
    node = n;
    has_children = not (is_nil (children_of_node n.id));
    member_count = members_at n.id;
  }

  -- handleGetNode
  unfoldable pub handle_get_node : String → Response NodeView
  unfolding view_node children_of_node members_at
  handle_get_node id = elim (find_node id db.nodes) [
    | none ↦ failure 404 "node not found"
    | some n ↦ json 200 (record {
      node = n;
      has_children = not (is_nil (children_of_node id));
      member_count = members_at id;
    })
  ]

  abbrev viewed : Result (List OrgNode) → Response (List NodeView)
  viewed (ok nodes) = json 200 (map view_node nodes)
  viewed (err e) = failure 500 "failed to get children"

  -- handleGetChildren
  unfoldable pub handle_get_children : String → Response (List NodeView)
  unfolding view_node
  handle_get_children id = viewed (reply (get_child_nodes host id) db)

  -- handleGetNodeStats, with the query parameter recursive
  unfoldable pub handle_get_node_stats : String → String → Response ℕ
  handle_get_node_stats id recursive =
      answer 500 "failed to get stats" (reply (get_node_member_count id (parse_bool recursive)) db)
