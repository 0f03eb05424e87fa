-- ===== src/Plugin/Api/Serve/Refused.antt =====
-- server/api.go, api_node.go and api_member.go: the requests that are refused.
use mattermost_plugin_org_di.Common.{
  ℕ, ◌≤◌, String, ◌==◌, ◌&&◌, not, ◌≡◌, refl, false, Option, none, some, arith, Bool-cases, inl,
  inr,
}
use mattermost_plugin_org_di.Store.Db.{Host}
use mattermost_plugin_org_di.Plugin.Config.{Configuration}
use mattermost_plugin_org_di.Plugin.Permissions.{Request, check_auth}
use mattermost_plugin_org_di.Plugin.Api.Http.{World, Platform}
use mattermost_plugin_org_di.Plugin.Api.Nodes.{
  handle_create_node, create_requested, handle_update_node, handle_delete_node, handle_move_node,
  handle_reorder_nodes,
}
use mattermost_plugin_org_di.Plugin.Api.Members.{
  handle_add_member, handle_remove_member, handle_update_member_role, handle_update_member_position,
  handle_reorder_members,
}
use mattermost_plugin_org_di.Plugin.Api.Serve.{
  Command, post_node, put_node, remove_node, post_move, post_node_order, post_member,
  remove_relation, put_role, put_position, post_member_order, handle, serve, entitled,
}

abbrev IsRefusal : World → ℕ × World → Type 0
IsRefusal w r = (400 ≤ r.0) × (r.1 ≡ w)

-- The answer of every handler to a user without the permission.
refusal : (w : World) → IsRefusal w (403, w)
refusal w = (ground arith, refl)

module _ (host : Host) (platform : Platform) (config : Option Configuration) where
  handle_refused :
      (user : String) (command : Command) (w : World)
      → entitled platform user command w ≡ false
      → IsRefusal w (handle host platform config user command w)
  unfolding handle entitled handle_create_node create_requested handle_update_node
      handle_delete_node handle_move_node handle_reorder_nodes handle_add_member
      handle_remove_member handle_update_member_role handle_update_member_position
      handle_reorder_members
  handle_refused user (post_node none) w h = (ground arith, refl)
  handle_refused user (post_node (some req)) w h = (ground arith, ground arith)
  handle_refused user (put_node id body) w h = rw h (refusal w)
  handle_refused user (remove_node id strategy) w h = rw h (refusal w)
  handle_refused user (post_move id none) w h = rw h (refusal w)
  handle_refused user (post_move id (some p)) w h = rw h (refusal w)
  handle_refused user (post_node_order id none) w h = rw h (refusal w)
  handle_refused user (post_node_order id (some ids)) w h = rw h (refusal w)
  handle_refused user (post_member id none) w h = rw h (refusal w)
  handle_refused user (post_member id (some req)) w h = rw h (refusal w)
  handle_refused user (remove_relation id target) w h = rw h (refusal w)
  handle_refused user (put_role id target none) w h = rw h (refusal w)
  handle_refused user (put_role id target (some role)) w h = rw h (refusal w)
  handle_refused user (put_position id target none) w h = rw h (refusal w)
  handle_refused user (put_position id target (some text)) w h = rw h (refusal w)
  handle_refused user (post_member_order id none) w h = rw h (refusal w)
  handle_refused user (post_member_order id (some ids)) w h = rw h (refusal w)

-- A request without a user, or of a user who is not entitled to its command (roots, deletions and
-- moves are for system administrators, roles for administrators of the node, all else for its
-- managers), is answered with a status of at least 400 and leaves the world as it was: the tables,
-- the clock and the events.
pub serve_refused :
    (host : Host) (platform : Platform) (config : Option Configuration) (r : Request)
    (command : Command) (w : World)
    → (not (r.user_id == "") && entitled platform r.user_id command w) ≡ false
    → IsRefusal w (serve host platform config r command w)
unfolding serve check_auth
serve_refused host platform config r command w h = elim (Bool-cases (r.user_id == "")) [
  | inl e ↦ rw e (ground arith, refl)
  | inr e ↦ rw e (handle_refused host platform config r.user_id command w (ground (arith, h, e)))
]
