-- ===== src/Plugin/Api/Serve/Atomic.antt =====
-- server/api.go, api_node.go and api_member.go: a request that is answered by an error.
use mattermost_plugin_org_di.Common.{
  ◌≤◌, String, ◌==◌, ◌&&◌, not, refl, Option, none, some, arith, Bool-cases, inl, inr, Result, ok,
  err, if-both, elim-both,
}
use mattermost_plugin_org_di.Model.{OrgNode, OrgMember}
use mattermost_plugin_org_di.Store.Db.{Host, Db}
use mattermost_plugin_org_di.Store.Failed.{
  Unwritten, create_node-Unwritten, move_node-Unwritten, delete_node-Unwritten,
  add_member-Unwritten,
}
use mattermost_plugin_org_di.Plugin.Config.{Configuration}
use mattermost_plugin_org_di.Plugin.Permissions.{Request, check_auth, check_node_permission}
use mattermost_plugin_org_di.Plugin.Api.Http.{World, Platform}
use mattermost_plugin_org_di.Plugin.Api.Nodes.{
  CreateNodeRequest, UpdateNodeRequest, changed_node, requested_node, handle_create_node,
  create_requested, handle_update_node, update_requested, handle_delete_node, handle_move_node,
}
use mattermost_plugin_org_di.Store.Nodes.Rows.{find_node}
use mattermost_plugin_org_di.Store.Nodes.Save.{update_node}
use mattermost_plugin_org_di.Store.Members.Rows.{is_member}
use mattermost_plugin_org_di.Store.Members.Save.{
  remove_member, update_member_role, update_member_position,
}
use mattermost_plugin_org_di.Plugin.Api.Members
use mattermost_plugin_org_di.Plugin.Api.Members.{
  AddMemberRequest, requested_member, handle_add_member, add_requested, handle_remove_member,
  handle_update_member_role, handle_update_member_position,
}
use mattermost_plugin_org_di.Plugin.Api.Serve.{
  Command, post_node, put_node, remove_node, post_move, post_node_order, post_member,
  remove_relation, put_role, put_position, post_member_order, handle, serve,
}
use mattermost_plugin_org_di.Plugin.Api.Serve.Partial.{
  FailsTo, unchanged, ordered_nodes_failed, ordered_members_failed,
}
use mattermost_plugin_org_di.Plugin.Api.Serve.Answers.{
  IsAtomic, atomic, same_org, kept, created-IsAtomic, updated-IsAtomic, deleted-IsAtomic,
  moved-IsAtomic,
}

module _ (host : Host) (platform : Platform) (config : Option Configuration) (user : String) where
  create_node-IsAtomic :
      (body : Option CreateNodeRequest) (w : World)
      → IsAtomic w (handle_create_node host platform config user body w)
  unfolding handle_create_node create_requested
  create_node-IsAtomic none w = kept _ _ w
  create_node-IsAtomic (some req) w = if-both (IsAtomic w) (req.name == "") _ _ (kept _ _ w) (
      if-both (IsAtomic w)
        (not (req.parent_id == "")
          && not (check_node_permission platform.is_system_admin user req.parent_id "manager" w.db))
        _ _ (kept _ _ w)
        (if-both (IsAtomic w) ((req.parent_id == "") && not (platform.is_system_admin user)) _ _
          (kept _ _ w)
          (created-IsAtomic host platform config user w _
            (create_node-Unwritten host (requested_node user req) w.db))))

  requested-IsAtomic :
      (id : String) (n : OrgNode) (body : Option UpdateNodeRequest) (w : World)
      → IsAtomic w (update_requested host platform config user id n body w)
  unfolding update_requested update_node
  requested-IsAtomic id n none w = kept _ _ w
  requested-IsAtomic id n (some req) w =
      updated-IsAtomic host platform config user id n w (update_node host (changed_node req n) w.db)
        tt

  update_node-IsAtomic :
      (id : String) (body : Option UpdateNodeRequest) (w : World)
      → IsAtomic w (handle_update_node host platform config user id body w)
  unfolding handle_update_node
  update_node-IsAtomic id body w = if-both (IsAtomic w) _ _ _ (kept _ _ w) (
      elim-both (IsAtomic w) (find_node id w.db.nodes) _ _ (kept _ _ w)
        (λ n. requested-IsAtomic id n body w))

  delete_node-IsAtomic :
      (id query : String) (w : World)
      → IsAtomic w (handle_delete_node host platform config user id query w)
  unfolding handle_delete_node
  delete_node-IsAtomic id query w = if-both (IsAtomic w) _ _ _ (kept _ _ w) (
      elim-both (IsAtomic w) (find_node id w.db.nodes) _ _ (kept _ _ w) (λ n.
        deleted-IsAtomic host platform config user id _ n w _
          (delete_node-Unwritten host id _ w.db)))

  move_node-IsAtomic :
      (id : String) (body : Option String) (w : World)
      → IsAtomic w (handle_move_node host platform config user id body w)
  unfolding handle_move_node
  move_node-IsAtomic id none w = if-both (IsAtomic w) _ _ _ (kept _ _ w) (kept _ _ w)
  move_node-IsAtomic id (some parent) w = if-both (IsAtomic w) _ _ _ (kept _ _ w) (
      moved-IsAtomic host platform config user id parent w _
        (move_node-Unwritten host id parent w.db))

  added-IsAtomic :
      (id : String) (req : AddMemberRequest) (w : World) (r : Result OrgMember × Db)
      → Unwritten w.db r
      → IsAtomic w (Members.after_add host platform config user id req w r)
  added-IsAtomic id req w (ok m, db) u = atomic (λ h. absurd (ground (arith, h)))
  added-IsAtomic id req w (err e, db) u = atomic (λ h. (u.0, u.1, refl))

  add_member-IsAtomic :
      (id : String) (body : Option AddMemberRequest) (w : World)
      → IsAtomic w (handle_add_member host platform config user id body w)
  unfolding handle_add_member add_requested
  add_member-IsAtomic id none w = if-both (IsAtomic w) _ _ _ (kept _ _ w) (kept _ _ w)
  add_member-IsAtomic id (some req) w =
      if-both (IsAtomic w)
        (not (check_node_permission platform.is_system_admin user id "manager" w.db)) _ _
        (kept _ _ w)
        (if-both (IsAtomic w) (req.user_id == "") _ _ (kept _ _ w) (
          if-both (IsAtomic w) (not (platform.user_exists req.user_id)) _ _ (kept _ _ w) (
            if-both (IsAtomic w) (is_member id req.user_id w.db) _ _ (kept _ _ w) (
              added-IsAtomic id req w _
                (add_member-Unwritten host (requested_member id req) w.db)))))

  remove_member-IsAtomic :
      (id target : String) (w : World)
      → IsAtomic w (handle_remove_member host platform config user id target w)
  unfolding handle_remove_member remove_member
  remove_member-IsAtomic id target w =
      elim (Bool-cases (check_node_permission platform.is_system_admin user id "manager" w.db)) [
        | inl e ↦ rw e (atomic (λ h. absurd (ground (arith, h))))
        | inr e ↦ rw e (kept _ _ w)
      ]

  role-IsAtomic :
      (id target : String) (body : Option String) (w : World)
      → IsAtomic w (handle_update_member_role host platform config user id target body w)
  unfolding handle_update_member_role update_member_role
  role-IsAtomic id target none w = if-both (IsAtomic w) _ _ _ (kept _ _ w) (kept _ _ w)
  role-IsAtomic id target (some role) w =
      elim (Bool-cases (check_node_permission platform.is_system_admin user id "admin" w.db)) [
        | inl e ↦ rw e (atomic (λ h. absurd (ground (arith, h))))
        | inr e ↦ rw e (kept _ _ w)
      ]

  position-IsAtomic :
      (id target : String) (body : Option String) (w : World)
      → IsAtomic w (handle_update_member_position host platform config user id target body w)
  unfolding handle_update_member_position update_member_position
  position-IsAtomic id target none w = if-both (IsAtomic w) _ _ _ (kept _ _ w) (kept _ _ w)
  position-IsAtomic id target (some text) w =
      elim (Bool-cases (check_node_permission platform.is_system_admin user id "manager" w.db)) [
        | inl e ↦ rw e (atomic (λ h. absurd (ground (arith, h))))
        | inr e ↦ rw e (kept _ _ w)
      ]

module _ (host : Host) (platform : Platform) (config : Option Configuration) where
  handle_failed :
      (user : String) (command : Command) (w : World)
      → 400 ≤ (handle host platform config user command w).0
      → FailsTo host command w (handle host platform config user command w).1
  unfolding handle
  handle_failed user (post_node body) w =
      same_org (create_node-IsAtomic host platform config user body w)
  handle_failed user (put_node id body) w =
      same_org (update_node-IsAtomic host platform config user id body w)
  handle_failed user (remove_node id query) w =
      same_org (delete_node-IsAtomic host platform config user id query w)
  handle_failed user (post_move id body) w =
      same_org (move_node-IsAtomic host platform config user id body w)
  handle_failed user (post_node_order id body) w =
      ordered_nodes_failed host platform config user id body w
  handle_failed user (post_member id body) w =
      same_org (add_member-IsAtomic host platform config user id body w)
  handle_failed user (remove_relation id target) w =
      same_org (remove_member-IsAtomic host platform config user id target w)
  handle_failed user (put_role id target body) w =
      same_org (role-IsAtomic host platform config user id target body w)
  handle_failed user (put_position id target body) w =
      same_org (position-IsAtomic host platform config user id target body w)
  handle_failed user (post_member_order id body) w =
      ordered_members_failed host platform config user id body w

-- A request that is answered with a status of at least 400 leaves the nodes, the memberships and
-- the published events as they were, but for the two reorderings: where an UPDATE fails after some
-- were made, the events are as they were, and the database is that of a reordering, without an
-- error, by the first of the listed ids, and not by all.
pub serve_failed :
    (host : Host) (platform : Platform) (config : Option Configuration) (r : Request)
    (command : Command) (w : World)
    → 400 ≤ (serve host platform config r command w).0
    → FailsTo host command w (serve host platform config r command w).1
unfolding serve check_auth
serve_failed host platform config r command w = elim (Bool-cases (r.user_id == "")) [
  | inl e ↦ rw e (λ h. unchanged host command w)
  | inr e ↦ rw e (handle_failed host platform config r.user_id command w)
]
