-- ===== src/Plugin/Api/Serve.antt =====
-- server/api.go: the routes of the session API that write, behind checkAuth, and who may use them.
pub mod Refused
pub mod Partial
pub mod Atomic
pub mod Consistent
pub mod Kept
pub mod Reach
pub mod Answers
use mattermost_plugin_org_di.Common.{
  ℕ, String, ◌==◌, Bool, true, ◌||◌, Option, none, some, List, if◌then◌else◌,
}
use mattermost_plugin_org_di.Store.Db.{Host}
use mattermost_plugin_org_di.Plugin.Config.{Configuration}
use mattermost_plugin_org_di.Plugin.Permissions.{
  Request, Access, pass, unauthorized, forbidden, check_auth, check_node_permission,
}
use mattermost_plugin_org_di.Plugin.Api.Http.{World, Response, failure, json, no_content, Platform}
use mattermost_plugin_org_di.Plugin.Api.Nodes.{
  CreateNodeRequest, UpdateNodeRequest, handle_create_node, handle_update_node, handle_delete_node,
  handle_move_node, handle_reorder_nodes,
}
use mattermost_plugin_org_di.Plugin.Api.Members.{
  AddMemberRequest, handle_add_member, handle_remove_member, handle_update_member_role,
  handle_update_member_position, handle_reorder_members,
}

-- A route with its path variables, its query parameter, and its body where it decodes.
pub data Command : Type 0 where
  post_node : Option CreateNodeRequest → Command
  put_node : String → Option UpdateNodeRequest → Command
  remove_node : String → String → Command
  post_move : String → Option String → Command
  post_node_order : String → Option (List String) → Command
  post_member : String → Option AddMemberRequest → Command
  remove_relation : String → String → Command
  put_role : String → String → Option String → Command
  put_position : String → String → Option String → Command
  post_member_order : String → Option (List String) → Command

-- The status code of an answer.
abbrev pub status : {A : Type 0} → Response A × World → ℕ × World
status (failure code text, w) = (code, w)
status (json code a, w) = (code, w)
status (no_content, w) = (204, w)

module _ (host : Host) (platform : Platform) (config : Option Configuration) where
  -- The handler of the route.
  unfoldable pub handle : String → Command → World → ℕ × World
  unfolding handle_create_node handle_update_node handle_delete_node handle_move_node
      handle_reorder_nodes handle_add_member handle_remove_member handle_update_member_role
      handle_update_member_position handle_reorder_members
  handle user (post_node body) w = status (handle_create_node host platform config user body w)
  handle user (put_node id body) w = status (handle_update_node host platform config user id body w)
  handle user (remove_node id strategy) w =
      status (handle_delete_node host platform config user id strategy w)
  handle user (post_move id body) w = status (handle_move_node host platform config user id body w)
  handle user (post_node_order id body) w =
      status (handle_reorder_nodes host platform config user id body w)
  handle user (post_member id body) w =
      status (handle_add_member host platform config user id body w)
  handle user (remove_relation id target) w =
      status (handle_remove_member host platform config user id target w)
  handle user (put_role id target body) w =
      status (handle_update_member_role host platform config user id target body w)
  handle user (put_position id target body) w =
      status (handle_update_member_position host platform config user id target body w)
  handle user (post_member_order id body) w =
      status (handle_reorder_members host platform config user id body w)

  unfoldable pub admitted : Access → String → Command → World → ℕ × World
  unfolding handle
  admitted pass user command w = handle user command w
  admitted unauthorized user command w = (401, w)
  admitted forbidden user command w = (403, w)

  -- p.checkAuth(p.handle…)
  unfoldable pub serve : Request → Command → World → ℕ × World
  unfolding admitted check_auth
  serve r command w = admitted (check_auth platform.is_system_admin r) r.user_id command w

module _ (platform : Platform) (user : String) where
  created_by : Option CreateNodeRequest → World → Bool
  created_by none w = true
  created_by (some req) w =
      if req.parent_id == ""
      then platform.is_system_admin user
      else check_node_permission platform.is_system_admin user req.parent_id "manager" w.db

  -- Who may do what: roots, deletions and moves are for system administrators, roles for the
  -- administrators of the node, and the rest for its managers.
  unfoldable pub entitled : Command → World → Bool
  unfolding created_by check_node_permission
  entitled (post_node body) w = created_by body w
  entitled (remove_node id strategy) w = platform.is_system_admin user
  entitled (post_move id body) w = platform.is_system_admin user
  entitled (put_role id target body) w =
      check_node_permission platform.is_system_admin user id "admin" w.db
  entitled (put_node id body) w =
      check_node_permission platform.is_system_admin user id "manager" w.db
  entitled (post_node_order id body) w =
      check_node_permission platform.is_system_admin user id "manager" w.db
  entitled (post_member id body) w =
      check_node_permission platform.is_system_admin user id "manager" w.db
  entitled (remove_relation id target) w =
      check_node_permission platform.is_system_admin user id "manager" w.db
  entitled (put_position id target body) w =
      check_node_permission platform.is_system_admin user id "manager" w.db
  entitled (post_member_order id body) w =
      check_node_permission platform.is_system_admin user id "manager" w.db
