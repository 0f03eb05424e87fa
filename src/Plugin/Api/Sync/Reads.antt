-- ===== src/Plugin/Api/Sync/Reads.antt =====
-- server/api_sync.go: the handlers of the sync API that read. A handler takes its path variables and
-- its query parameters, empty where they are missing.
use mattermost_plugin_org_di.Common.{
  ℕ, String, ◌++◌, ◌==◌, Bool, true, ◌&&◌, not, Option, none, some, List, map, ℤ, pos, negsuc,
  ltb_ℤ, eqb_ℤ, ◌-ℤ◌, if◌then◌else◌, Result, ok, err, Error, no_rows, unique_violation, message,
  wrapped, reply,
}
use mattermost_plugin_org_di.Common.Atoi.{atoi}
use mattermost_plugin_org_di.Common.Sql.{select}
use mattermost_plugin_org_di.Common.Text.{trim_space, has_prefix}
use mattermost_plugin_org_di.Model.{OrgNode}
use mattermost_plugin_org_di.Store.Db.{Host, Db}
use mattermost_plugin_org_di.Store.Nodes.Rows.{get_node_by_external_id}
use mattermost_plugin_org_di.Store.Nodes.Queries.{
  get_nodes_by_source, get_node_path, get_child_nodes,
}
use mattermost_plugin_org_di.Store.Members.Queries.{MemberWithUser}
use mattermost_plugin_org_di.Plugin.Sync.Dto.{
  SyncNodeDto, build_sync_node_dto, build_sync_node_dtos, build_sync_node_dtos_with_pool,
}
use mattermost_plugin_org_di.Plugin.Api.Http.{Response, failure, json}

-- SyncNodeListResponse
pub record SyncNodeList : Type 0 where
  pub source : String
  pub nodes : List SyncNodeDto

-- SyncNodeDetailResponse
pub record SyncNodeDetail : Type 0 where
  pub node : SyncNodeDto
  pub path : List SyncNodeDto

-- SyncNodeMemberItem
pub record SyncNodeMember : Type 0 where
  pub member : MemberWithUser
  pub node_name : String
  pub node_source : String
  pub node_external_id : String

-- SyncNodeMembersResponse
pub record SyncNodeMembers : Type 0 where
  pub node : SyncNodeDto
  pub recursive : Bool
  pub total : ℕ
  pub members : List SyncNodeMember

-- SyncUserNodesResponse
pub record SyncUserNodes : Type 0 where
  pub source : String
  pub external_user_id : String
  pub mm_user_id : String
  pub total : ℕ
  pub nodes : List SyncNodeDto

-- What parseNonNegativeInt returns: no parameter, an error, or a number.
pub data Bound : Type 0 where
  absent refused : Bound
  bound : ℤ → Bound

-- A negative number is returned as -1 with the error of Atoi, which is nil.
abbrev checked : Option ℤ → Bound
checked none = refused
checked (some n) = if ltb_ℤ n (pos 0) then bound (negsuc 0) else bound n

unfoldable pub parse_non_negative_int : String → Bound
parse_non_negative_int text =
    if trim_space text == "" then absent else checked (atoi (trim_space text))

-- hasDepth && d != depth, and hasMaxDepth && d > maxDepth
abbrev pub at_depth : Bound → ℤ → Bool
at_depth (bound depth) d = eqb_ℤ d depth
at_depth absent d = true
at_depth refused d = true

abbrev pub up_to : Bound → ℤ → Bool
up_to (bound max_depth) d = not (ltb_ℤ max_depth d)
up_to absent d = true
up_to refused d = true

-- The loop of handleListSyncNodes keeps these nodes.
unfoldable pub is_listed : Option OrgNode → Bound → Bound → OrgNode → Bool
is_listed none depth max_depth n = at_depth depth n.depth && up_to max_depth n.depth
is_listed (some parent) depth max_depth n =
    let relative = (n.depth -ℤ parent.depth) -ℤ pos 1 in
    not (n.id == parent.id)
    && has_prefix n.path (parent.path ++ "/")
    && not (ltb_ℤ relative (pos 0))
    && at_depth depth relative
    && up_to max_depth relative

-- The answers to the errors of GetNodeByExternalID and GetUserMappingByExternalID.
abbrev pub or_not_found : {A : Type 0} → String → String → Error → Response A
or_not_found missing other no_rows = failure 404 missing
or_not_found missing other unique_violation = failure 500 other
or_not_found missing other (message text) = failure 500 other
or_not_found missing other (wrapped text e) = failure 500 other

module _ (host : Host) (db : Db) where
  abbrev list_found : String → Bound → Bound → Option OrgNode → List OrgNode → Response SyncNodeList
  list_found source depth max_depth parent nodes = json 200 (record {
    source = source;
    nodes =
        build_sync_node_dtos_with_pool db.nodes (select (is_listed parent depth max_depth) nodes)
          nodes;
  })

  abbrev list_below : String → Bound → Bound → List OrgNode → Result OrgNode → Response SyncNodeList
  list_below source depth max_depth nodes (ok parent) =
      list_found source depth max_depth (some parent) nodes
  list_below source depth max_depth nodes (err e) = failure 404 "parent node not found"

  abbrev list_from : String → String → Bound → Bound → Result (List OrgNode) → Response SyncNodeList
  list_from source parent depth max_depth (err e) = failure 500 "failed to get nodes"
  list_from source parent depth max_depth (ok nodes) =
      if parent == ""
      then list_found source depth max_depth none nodes
      else list_below source depth max_depth nodes
          (reply (get_node_by_external_id source parent) db)

  unfoldable pub list_bounded : String → String → Bound → Bound → Response SyncNodeList
  unfolding is_listed
  list_bounded source parent refused max_depth = failure 400 "depth must be a non-negative integer"
  list_bounded source parent absent refused = failure 400 "max_depth must be a non-negative integer"
  list_bounded source parent (bound d) refused =
      failure 400 "max_depth must be a non-negative integer"
  list_bounded source parent absent absent =
      list_from source parent absent absent (reply (get_nodes_by_source host source) db)
  list_bounded source parent absent (bound m) =
      list_from source parent absent (bound m) (reply (get_nodes_by_source host source) db)
  list_bounded source parent (bound d) absent =
      list_from source parent (bound d) absent (reply (get_nodes_by_source host source) db)
  list_bounded source parent (bound d) (bound m) =
      list_from source parent (bound d) (bound m) (reply (get_nodes_by_source host source) db)

  -- handleListSyncNodes, with source, depth, max_depth and parent_external_id
  unfoldable pub handle_list_sync_nodes : String → String → String → String → Response SyncNodeList
  unfolding list_bounded parse_non_negative_int
  handle_list_sync_nodes source depth max_depth parent =
      if trim_space source == ""
      then failure 400 "source is required"
      else list_bounded (trim_space source) (trim_space parent) (parse_non_negative_int depth)
          (parse_non_negative_int max_depth)

  abbrev detailed : OrgNode → Result (List OrgNode) → Response SyncNodeDetail
  detailed n (err e) = failure 500 "failed to get node path"
  detailed n (ok path) =
      json 200 (record {
        node = build_sync_node_dto db.nodes n;
        path = build_sync_node_dtos db.nodes path;
      })

  detail_of : Result OrgNode → Response SyncNodeDetail
  detail_of (err e) = or_not_found "node not found" "failed to get node" e
  detail_of (ok n) = detailed n (reply (get_node_path n.id) db)

  -- handleGetSyncNode
  unfoldable pub handle_get_sync_node : String → String → Response SyncNodeDetail
  unfolding detail_of
  handle_get_sync_node source external_id =
      if trim_space source == ""
      then failure 400 "source is required"
      else detail_of (reply (get_node_by_external_id (trim_space source) external_id) db)

  abbrev children_listed : String → Result (List OrgNode) → Response SyncNodeList
  children_listed source (err e) = failure 500 "failed to get child nodes"
  children_listed source (ok children) = json 200 (record {
    source = source;
    nodes =
        map (build_sync_node_dto db.nodes) (select (λ (c : OrgNode). c.source == source) children);
  })

  children_of_sync : String → Result OrgNode → Response SyncNodeList
  children_of_sync source (err e) = or_not_found "node not found" "failed to get node" e
  children_of_sync source (ok n) = children_listed source (reply (get_child_nodes host n.id) db)

  -- handleGetSyncNodeChildren
  unfoldable pub handle_get_sync_node_children : String → String → Response SyncNodeList
  unfolding children_of_sync
  handle_get_sync_node_children source external_id =
      if trim_space source == ""
      then failure 400 "source is required"
      else children_of_sync (trim_space source)
          (reply (get_node_by_external_id (trim_space source) external_id) db)
