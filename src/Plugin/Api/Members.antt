-- ===== src/Plugin/Api/Members.antt =====
-- server/api_member.go: the handlers that write memberships. A handler takes the user of the request,
-- its path variables, and its decoded body, where `none` is a body that json.Decode refuses.
use mattermost_plugin_org_di.Common.{
  String, ◌++◌, ◌==◌, Bool, not, Option, none, some, List, pos, if◌then◌else◌, Result, ok, err,
}
use mattermost_plugin_org_di.Model.{OrgMember}
use mattermost_plugin_org_di.Store.Db.{Host, Db}
use mattermost_plugin_org_di.Store.Members.Rows.{is_member}
use mattermost_plugin_org_di.Store.Members.Save.{
  add_member, remove_member, update_member_role, update_member_position, reorder_members,
}
use mattermost_plugin_org_di.Plugin.Config.{Configuration}
use mattermost_plugin_org_di.Plugin.Permissions.{check_node_permission}
use mattermost_plugin_org_di.Plugin.Api.Http.{
  World, Response, failure, json, no_content, Handler, Platform, broadcast_member_update, log_audit,
}

-- The body of handleAddMember.
pub record AddMemberRequest : Type 0 where
  pub user_id : String
  pub role : String
  pub position : String

-- &pluginmodel.OrgMember{…}, with the default role; the fields left out are Go's zero values.
unfoldable pub requested_member : String → AddMemberRequest → OrgMember
requested_member node_id req = record {
  id = "";
  node_id = node_id;
  user_id = req.user_id;
  role = if req.role == "" then "member" else req.role;
  position = req.position;
  sort_order = pos 0;
  source = "local";
  external_id = "";
  create_at = 0;
  update_at = 0;
  delete_at = 0;
}

-- nodeID + ":" + targetUserID
abbrev relation_text : String → String → String
relation_text node_id target = node_id ++ (":" ++ target)

module _ (host : Host) (platform : Platform) (config : Option Configuration)
    (user_id : String) where
  abbrev may : String → String → World → Bool
  may node_id role w = check_node_permission platform.is_system_admin user_id node_id role w.db

  abbrev pub after_add :
      String → AddMemberRequest → World → Result OrgMember × Db → Response OrgMember × World
  after_add id req w (ok m, db) = (
    json 201 m,
    log_audit host config user_id "add_member" "member" m.id "{}"
        (broadcast_member_update "add" id req.user_id (record w { db = db })),
  )
  after_add id req w (err e, db) = (failure 500 "failed to add member", record w { db = db })

  -- Behind the decoding of handleAddMember.
  unfoldable pub add_requested : String → AddMemberRequest → Handler OrgMember
  unfolding requested_member
  add_requested id req w =
      if req.user_id == ""
      then (failure 400 "user_id is required", w)
      else if not (platform.user_exists req.user_id)
      then (failure 400 "user not found", w)
      else if is_member id req.user_id w.db
      then (failure 409 "user is already a member of this node", w)
      else after_add id req w (add_member host (requested_member id req) w.db)

  -- handleAddMember
  unfoldable pub handle_add_member : String → Option AddMemberRequest → Handler OrgMember
  unfolding add_requested
  handle_add_member id none w =
      if not (may id "manager" w)
      then (failure 403 "insufficient permissions", w)
      else (failure 400 "invalid request body", w)
  handle_add_member id (some req) w =
      if not (may id "manager" w)
      then (failure 403 "insufficient permissions", w)
      else add_requested id req w

  abbrev pub after_remove :
      String → String → World → Result (Unit {0}) × Db → Response (Unit {0}) × World
  after_remove node_id target w (ok done, db) = (
    no_content,
    log_audit host config user_id "remove_member" "member" (relation_text node_id target) "{}"
        (broadcast_member_update "remove" node_id target (record w { db = db })),
  )
  after_remove node_id target w (err e, db) =
      (failure 500 "failed to remove member", record w { db = db })

  -- handleRemoveMember
  unfoldable pub handle_remove_member : String → String → Handler (Unit {0})
  handle_remove_member node_id target w =
      if not (may node_id "manager" w)
      then (failure 403 "insufficient permissions", w)
      else after_remove node_id target w (remove_member host node_id target w.db)

  abbrev pub after_role :
      String → String → String → World → Result (Unit {0}) × Db → Response (Unit {0}) × World
  after_role node_id target role w (ok done, db) = (
    no_content,
    log_audit host config user_id "update_member_role" "member" (relation_text node_id target)
        (platform.json_entry "role" role)
        (broadcast_member_update "update_role" node_id target (record w { db = db })),
  )
  after_role node_id target role w (err e, db) =
      (failure 500 "failed to update role", record w { db = db })

  -- handleUpdateMemberRole
  unfoldable pub handle_update_member_role : String → String → Option String → Handler (Unit {0})
  handle_update_member_role node_id target none w =
      if not (may node_id "admin" w)
      then (failure 403 "insufficient permissions", w)
      else (failure 400 "invalid request body", w)
  handle_update_member_role node_id target (some role) w =
      if not (may node_id "admin" w)
      then (failure 403 "insufficient permissions", w)
      else after_role node_id target role w (update_member_role host node_id target role w.db)

  abbrev pub after_position :
      String → String → String → World → Result (Unit {0}) × Db → Response (Unit {0}) × World
  after_position node_id target position w (ok done, db) = (
    no_content,
    log_audit host config user_id "update_member_position" "member" (relation_text node_id target)
        (platform.json_entry "position" position) (record w { db = db }),
  )
  after_position node_id target position w (err e, db) =
      (failure 500 "failed to update position", record w { db = db })

  -- handleUpdateMemberPosition, which publishes no event
  unfoldable pub handle_update_member_position :
      String → String → Option String → Handler (Unit {0})
  handle_update_member_position node_id target none w =
      if not (may node_id "manager" w)
      then (failure 403 "insufficient permissions", w)
      else (failure 400 "invalid request body", w)
  handle_update_member_position node_id target (some position) w =
      if not (may node_id "manager" w)
      then (failure 403 "insufficient permissions", w)
      else after_position node_id target position w
          (update_member_position host node_id target position w.db)

  abbrev pub after_reorder : World → Result (Unit {0}) × Db → Response (Unit {0}) × World
  after_reorder w (ok done, db) = (no_content, record w { db = db })
  after_reorder w (err e, db) = (failure 500 "failed to reorder members", record w { db = db })

  -- handleReorderMembers
  unfoldable pub handle_reorder_members : String → Option (List String) → Handler (Unit {0})
  handle_reorder_members id none w =
      if not (may id "manager" w)
      then (failure 403 "insufficient permissions", w)
      else (failure 400 "invalid request body", w)
  handle_reorder_members id (some user_ids) w =
      if not (may id "manager" w)
      then (failure 403 "insufficient permissions", w)
      else after_reorder w (reorder_members host id user_ids w.db)
