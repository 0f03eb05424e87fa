-- ===== src/Plugin/Api/Sync/Users.antt =====
-- server/api_sync.go: the handlers of the sync API that read members, mappings and logs.
use mattermost_plugin_org_di.Common.{
  String, ◌==◌, Bool, true, false, Option, none, some, List, [], ◌∷◌, map, if◌then◌else◌, length,
  Result, ok, err, reply,
}
use mattermost_plugin_org_di.Common.Atoi.{atoi_value, parse_bool}
use mattermost_plugin_org_di.Common.Sql.{select}
use mattermost_plugin_org_di.Common.Text.{trim_space}
use mattermost_plugin_org_di.Model.{OrgNode, UserMapping}
use mattermost_plugin_org_di.Model.Sync.{SyncLog}
use mattermost_plugin_org_di.Store.Db.{Host, Db}
use mattermost_plugin_org_di.Store.Logs.{get_sync_logs, get_sync_log}
use mattermost_plugin_org_di.Store.Mappings.{get_user_mapping, get_user_mappings_by_source}
use mattermost_plugin_org_di.Store.Nodes.Rows.{get_node_by_external_id}
use mattermost_plugin_org_di.Store.Nodes.Queries.{get_sub_tree}
use mattermost_plugin_org_di.Store.Members.Queries.{
  User, MemberWithUser, get_members_for_nodes, get_user_nodes,
}
use mattermost_plugin_org_di.Plugin.Config.{Configuration}
use mattermost_plugin_org_di.Plugin.Sync.Dto.{build_sync_node_dto, build_sync_node_dtos, pooled}
use mattermost_plugin_org_di.Plugin.Api.Http.{Response, failure, json, per_page_of, answer}
use mattermost_plugin_org_di.Plugin.Api.Sync.Reads.{
  SyncNodeMember, SyncNodeMembers, SyncUserNodes, or_not_found,
}

-- The members whose node is in nodesByID, with the node.
unfoldable pub items_of : List OrgNode → List MemberWithUser → List SyncNodeMember
unfolding pooled
items_of nodes [] = []
items_of nodes (m ∷ ms) =
    let rest = items_of nodes ms in
    elim (pooled m.member.node_id nodes) [
      | none ↦ rest
      | some n ↦
          record {
            member = m;
            node_name = n.name;
            node_source = n.source;
            node_external_id = n.external_id;
          }
          ∷ rest
    ]

module _ (host : Host) (users : List User) (config : Option Configuration) (db : Db) where
  abbrev members_listed :
      OrgNode → Bool → List OrgNode → Result (List MemberWithUser) → Response SyncNodeMembers
  members_listed n recursive nodes (err e) = failure 500 "failed to get members"
  members_listed n recursive nodes (ok members) =
      let items = items_of nodes members in
      json 200 (record {
        node = build_sync_node_dto db.nodes n;
        recursive = recursive;
        total = length items;
        members = items;
      })

  -- GetMembersForNodes of the collected nodes, the page and its size.
  members_among : OrgNode → Bool → String → String → List OrgNode → Response SyncNodeMembers
  unfolding items_of
  members_among n recursive page per_page nodes = members_listed n recursive nodes (
      reply
        (get_members_for_nodes host users (map (λ (x : OrgNode). x.id) nodes) (atoi_value page)
          (per_page_of config per_page))
        db)

  abbrev members_below :
      String → OrgNode → String → String → Result (List OrgNode) → Response SyncNodeMembers
  members_below source n page per_page (err e) = failure 500 "failed to get subtree"
  members_below source n page per_page (ok subtree) =
      members_among n true page per_page (n ∷ select (λ (x : OrgNode). x.source == source) subtree)

  members_of_sync : String → String → String → Bool → Result OrgNode → Response SyncNodeMembers
  unfolding members_among
  members_of_sync source page per_page recursive (err e) =
      or_not_found "node not found" "failed to get node" e
  members_of_sync source page per_page recursive (ok n) =
      if recursive
      then members_below source n page per_page (reply (get_sub_tree host n.id) db)
      else members_among n false page per_page (n ∷ [])

  -- handleGetSyncNodeMembers, with source, page, per_page and recursive
  unfoldable pub handle_get_sync_node_members :
      String → String → String → String → String → Response SyncNodeMembers
  unfolding members_of_sync
  handle_get_sync_node_members external_id source page per_page recursive =
      if trim_space source == ""
      then failure 400 "source is required"
      else members_of_sync (trim_space source) page per_page (parse_bool recursive)
          (reply (get_node_by_external_id (trim_space source) external_id) db)

  abbrev user_nodes_listed :
      String → String → UserMapping → Result (List OrgNode) → Response SyncUserNodes
  user_nodes_listed source external_user_id m (err e) = failure 500 "failed to get user nodes"
  user_nodes_listed source external_user_id m (ok nodes) =
      let own = select (λ (n : OrgNode). n.source == source) nodes in
      json 200 (record {
        source = source;
        external_user_id = external_user_id;
        mm_user_id = m.mm_user_id;
        total = length own;
        nodes = build_sync_node_dtos db.nodes own;
      })

  nodes_of_mapping : String → String → Result UserMapping → Response SyncUserNodes
  nodes_of_mapping source external_user_id (err e) =
      or_not_found "user mapping not found" "failed to get user mapping" e
  nodes_of_mapping source external_user_id (ok m) =
      if m.mm_user_id == ""
      then failure 404 "user mapping not found"
      else user_nodes_listed source external_user_id m
          (reply (get_user_nodes host users m.mm_user_id) db)

  -- handleGetSyncUserNodes
  unfoldable pub handle_get_sync_user_nodes : String → String → Response SyncUserNodes
  unfolding nodes_of_mapping
  handle_get_sync_user_nodes source external_user_id =
      if trim_space source == ""
      then failure 400 "source is required"
      else nodes_of_mapping (trim_space source) external_user_id
          (reply (get_user_mapping (trim_space source) external_user_id) db)

  -- handleGetUserMappings
  unfoldable pub handle_get_user_mappings : String → String → String → Response (List UserMapping)
  handle_get_user_mappings source page per_page = answer 500 "failed to get mappings" (
      reply (get_user_mappings_by_source source (atoi_value page) (per_page_of config per_page)) db)

  -- handleGetSyncLogs
  unfoldable pub handle_get_sync_logs : String → String → String → Response (List SyncLog)
  handle_get_sync_logs source page per_page =
      answer 500 "failed to get sync logs"
        (reply (get_sync_logs source (atoi_value page) (per_page_of config per_page)) db)

  abbrev log_found : Result (Option SyncLog) → Response SyncLog
  log_found (err e) = failure 404 "sync log not found"
  log_found (ok none) = failure 404 "sync log not found"
  log_found (ok (some log)) = json 200 log

  -- handleGetSyncLog
  unfoldable pub handle_get_sync_log : String → Response SyncLog
  handle_get_sync_log id = log_found (reply (get_sync_log id) db)
