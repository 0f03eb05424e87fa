-- ===== src/Plugin/Api/Serve/Kept.antt =====
-- server/api.go, api_node.go and api_member.go: every handler that writes keeps the constraints of the
-- tables.
use mattermost_plugin_org_di.Common.{
  String, ◌==◌, ◌&&◌, not, Option, none, some, List, Bool-cases, Option-cases, inl, inr, if-both,
  elim-both, subst, sym,
}
use mattermost_plugin_org_di.Model.{OrgNode, OrgMember}
use mattermost_plugin_org_di.Store.Db.{Host, IsSane}
use mattermost_plugin_org_di.Store.Tree.Invariant.{IsTree}
use mattermost_plugin_org_di.Store.Members.Table.{IsTable}
use mattermost_plugin_org_di.Plugin.Config.{Configuration}
use mattermost_plugin_org_di.Plugin.Permissions.{check_node_permission}
use mattermost_plugin_org_di.Plugin.Api.Http.{World, Platform}
use mattermost_plugin_org_di.Plugin.Api.Nodes.{
  CreateNodeRequest, UpdateNodeRequest, changed_node, requested_node, handle_create_node,
  create_requested, handle_update_node, update_requested, handle_delete_node, handle_move_node,
  handle_reorder_nodes,
}
use mattermost_plugin_org_di.Store.Nodes.Rows.{find_node}
use mattermost_plugin_org_di.Store.Nodes.Save.{update_node}
use mattermost_plugin_org_di.Store.Members.Rows.{is_member}
use mattermost_plugin_org_di.Store.Members.Save.{
  remove_member, update_member_role, update_member_position,
}
use mattermost_plugin_org_di.Plugin.Api.Members.{
  AddMemberRequest, requested_member, handle_add_member, add_requested, handle_remove_member,
  handle_update_member_role, handle_update_member_position, handle_reorder_members,
}
use mattermost_plugin_org_di.Plugin.Api.Serve.{
  Command, post_node, put_node, remove_node, post_move, post_node_order, post_member,
  remove_relation, put_role, put_position, post_member_order, handle,
}
use mattermost_plugin_org_di.Store.Nodes.Save.{create_node, reorder_nodes}
use mattermost_plugin_org_di.Store.Nodes.Move.{move_node}
use mattermost_plugin_org_di.Store.Nodes.Delete.{delete_node}
use mattermost_plugin_org_di.Store.Members.Save.{add_member, reorder_members}
use mattermost_plugin_org_di.Store.Members.Unique.{
  add_member-IsTable, remove_member-IsTable, update_member_role-IsTable,
  update_member_position-IsTable, reorder_members-IsTable,
}
use mattermost_plugin_org_di.Store.Tree.Create.{create_node-IsTree, update_node-IsTree}
use mattermost_plugin_org_di.Store.Tree.Delete.{ByCascade}
use mattermost_plugin_org_di.Store.Tree.Cascade.{cascade-IsTree}
use mattermost_plugin_org_di.Store.Tree.Move.{IsLiveRow, move_node-IsTree}
use mattermost_plugin_org_di.Store.Frame.{
  create_node-members, update_node-members, delete_node-members, move_node-members,
  reorder_nodes-members, reorder_nodes-IsTree, add_member-nodes, reorder_members-nodes,
}
use mattermost_plugin_org_di.Plugin.Api.Nodes.{requested_strategy}
use mattermost_plugin_org_di.Plugin.Api.Serve.Consistent.{
  IsConsistent, Keeps, refused, consistent, created, updated, deleted, moved, reordered, added,
  removed, given_role, given_position, reordered_members,
}

-- The conditions of the store: no deletion to the parent, and no move of or under a deleted row.
unfoldable pub Admissible : Option Configuration → Command → World → Type 0
unfolding requested_strategy
Admissible config (remove_node id query) w = ByCascade (requested_strategy config query)
Admissible config (post_move id (some parent)) w =
    IsLiveRow w.db.nodes id × IsLiveRow w.db.nodes parent
Admissible config (post_move id none) w = Unit {0}
Admissible config (post_node body) w = Unit {0}
Admissible config (put_node id body) w = Unit {0}
Admissible config (post_node_order id body) w = Unit {0}
Admissible config (post_member id body) w = Unit {0}
Admissible config (remove_relation id target) w = Unit {0}
Admissible config (put_role id target body) w = Unit {0}
Admissible config (put_position id target body) w = Unit {0}
Admissible config (post_member_order id body) w = Unit {0}

module _ (host : Host) (sane : IsSane host) (platform : Platform) (config : Option Configuration)
    (user : String) where
  create_node-Keeps :
      (body : Option CreateNodeRequest) (w : World)
      → Keeps w (handle_create_node host platform config user body w)
  unfolding handle_create_node create_requested
  create_node-Keeps none w = refused _ _ w
  create_node-Keeps (some req) w = if-both (Keeps w) (req.name == "") _ _ (refused _ _ w) (
      if-both (Keeps w)
        (not (req.parent_id == "")
          && not (check_node_permission platform.is_system_admin user req.parent_id "manager" w.db))
        _ _ (refused _ _ w)
        (if-both (Keeps w) ((req.parent_id == "") && not (platform.is_system_admin user)) _ _
          (refused _ _ w)
          (let n : OrgNode = requested_node user req in
            created host platform config user w (create_node host n w.db) (λ c. (
              create_node-IsTree host sane n w.db c.0,
              subst IsTable (sym (create_node-members host n w.db)) c.1,
            )))))

  requested-Keeps :
      (id : String) (n : OrgNode) (body : Option UpdateNodeRequest) (w : World)
      → Keeps w (update_requested host platform config user id n body w)
  unfolding update_requested
  requested-Keeps id n none w = refused _ _ w
  requested-Keeps id n (some req) w =
      let n' : OrgNode = changed_node req n in
      updated host platform config user id n w (update_node host n' w.db) (λ c. (
        update_node-IsTree host n' w.db c.0,
        subst IsTable (sym (update_node-members host n' w.db)) c.1,
      ))

  update_node-Keeps :
      (id : String) (body : Option UpdateNodeRequest) (w : World)
      → Keeps w (handle_update_node host platform config user id body w)
  unfolding handle_update_node
  update_node-Keeps id body w = if-both (Keeps w) _ _ _ (refused _ _ w) (
      elim-both (Keeps w) (find_node id w.db.nodes) _ _ (refused _ _ w)
        (λ n. requested-Keeps id n body w))

  delete_node-Keeps :
      (id query : String) (w : World)
      → ByCascade (requested_strategy config query)
      → Keeps w (handle_delete_node host platform config user id query w)
  unfolding handle_delete_node
  delete_node-Keeps id query w h = elim (Bool-cases (platform.is_system_admin user)) [
    | inr e ↦ rw e (refused _ _ w)
    | inl e ↦ elim (Option-cases (find_node id w.db.nodes)) [
      | inl missing ↦ rw (e, missing) (refused _ _ w)
      | inr (n, found) ↦
          rw (e, found)
            (let strategy : String = requested_strategy config query in
              deleted host platform config user id strategy n w (delete_node host id strategy w.db)
                (λ c. (
                  cascade-IsTree host id strategy n w.db sane c.0 found h,
                  subst IsTable (sym (delete_node-members host sane id strategy w.db)) c.1,
                )))
    ]
  ]

  move_node-Keeps :
      (id : String) (body : Option String) (w : World)
      → Admissible config (post_move id body) w
      → Keeps w (handle_move_node host platform config user id body w)
  unfolding handle_move_node Admissible
  move_node-Keeps id none w h = if-both (Keeps w) _ _ _ (refused _ _ w) (refused _ _ w)
  move_node-Keeps id (some parent) w h = if-both (Keeps w) _ _ _ (refused _ _ w) (
      moved host platform config user id parent w (move_node host id parent w.db) (λ c. (
        move_node-IsTree host id parent w.db c.0 h.0 h.1,
        subst IsTable (sym (move_node-members host id parent w.db)) c.1,
      )))

  reorder_nodes-Keeps :
      (id : String) (body : Option (List String)) (w : World)
      → Keeps w (handle_reorder_nodes host platform config user id body w)
  unfolding handle_reorder_nodes
  reorder_nodes-Keeps id none w = if-both (Keeps w) _ _ _ (refused _ _ w) (refused _ _ w)
  reorder_nodes-Keeps id (some ids) w = if-both (Keeps w) _ _ _ (refused _ _ w) (
      reordered host platform config user w (reorder_nodes host id ids w.db) (λ c. (
        reorder_nodes-IsTree host id ids w.db c.0,
        subst IsTable (sym (reorder_nodes-members host id ids w.db)) c.1,
      )))

  add_member-Keeps :
      (id : String) (body : Option AddMemberRequest) (w : World)
      → Keeps w (handle_add_member host platform config user id body w)
  unfolding handle_add_member add_requested
  add_member-Keeps id none w = if-both (Keeps w) _ _ _ (refused _ _ w) (refused _ _ w)
  add_member-Keeps id (some req) w =
      if-both (Keeps w)
        (not (check_node_permission platform.is_system_admin user id "manager" w.db)) _ _
        (refused _ _ w)
        (if-both (Keeps w) (req.user_id == "") _ _ (refused _ _ w) (
          if-both (Keeps w) (not (platform.user_exists req.user_id)) _ _ (refused _ _ w) (
            if-both (Keeps w) (is_member id req.user_id w.db) _ _ (refused _ _ w) (
              let m : OrgMember = requested_member id req in
              added host platform config user id req w (add_member host m w.db) (λ c. (
                subst IsTree (sym (add_member-nodes host m w.db)) c.0,
                add_member-IsTable host m w.db c.1,
              ))))))

  remove_member-Keeps :
      (id target : String) (w : World)
      → Keeps w (handle_remove_member host platform config user id target w)
  unfolding handle_remove_member remove_member
  remove_member-Keeps id target w = if-both (Keeps w) _ _ _ (refused _ _ w) (
      removed host platform config user id target w (remove_member host id target w.db)
        (λ c. (c.0, remove_member-IsTable host id target w.db c.1)))

  role-Keeps :
      (id target : String) (body : Option String) (w : World)
      → Keeps w (handle_update_member_role host platform config user id target body w)
  unfolding handle_update_member_role update_member_role
  role-Keeps id target none w = if-both (Keeps w) _ _ _ (refused _ _ w) (refused _ _ w)
  role-Keeps id target (some role) w = if-both (Keeps w) _ _ _ (refused _ _ w) (
      given_role host platform config user id target role w
        (update_member_role host id target role w.db)
        (λ c. (c.0, update_member_role-IsTable host id target role w.db c.1)))

  position-Keeps :
      (id target : String) (body : Option String) (w : World)
      → Keeps w (handle_update_member_position host platform config user id target body w)
  unfolding handle_update_member_position update_member_position
  position-Keeps id target none w = if-both (Keeps w) _ _ _ (refused _ _ w) (refused _ _ w)
  position-Keeps id target (some position) w = if-both (Keeps w) _ _ _ (refused _ _ w) (
      given_position host platform config user id target position w
        (update_member_position host id target position w.db)
        (λ c. (c.0, update_member_position-IsTable host id target position w.db c.1)))

  reorder_members-Keeps :
      (id : String) (body : Option (List String)) (w : World)
      → Keeps w (handle_reorder_members host platform config user id body w)
  unfolding handle_reorder_members
  reorder_members-Keeps id none w = if-both (Keeps w) _ _ _ (refused _ _ w) (refused _ _ w)
  reorder_members-Keeps id (some ids) w = if-both (Keeps w) _ _ _ (refused _ _ w) (
      reordered_members host platform config user w (reorder_members host id ids w.db) (λ c. (
        subst IsTree (sym (reorder_members-nodes host id ids w.db)) c.0,
        reorder_members-IsTable host id ids w.db c.1,
      )))

  pub handle-IsConsistent :
      (command : Command) (w : World)
      → Admissible config command w
      → IsConsistent w.db
      → IsConsistent (handle host platform config user command w).1.db
  unfolding handle Admissible
  handle-IsConsistent (post_node body) w h c = consistent (create_node-Keeps body w) c
  handle-IsConsistent (put_node id body) w h c = consistent (update_node-Keeps id body w) c
  handle-IsConsistent (remove_node id query) w h c = consistent (delete_node-Keeps id query w h) c
  handle-IsConsistent (post_move id (some parent)) w h c =
      consistent (move_node-Keeps id (some parent) w h) c
  handle-IsConsistent (post_move id none) w h c = consistent (move_node-Keeps id none w tt) c
  handle-IsConsistent (post_node_order id body) w h c = consistent (reorder_nodes-Keeps id body w) c
  handle-IsConsistent (post_member id body) w h c = consistent (add_member-Keeps id body w) c
  handle-IsConsistent (remove_relation id target) w h c =
      consistent (remove_member-Keeps id target w) c
  handle-IsConsistent (put_role id target body) w h c = consistent (role-Keeps id target body w) c
  handle-IsConsistent (put_position id target body) w h c =
      consistent (position-Keeps id target body w) c
  handle-IsConsistent (post_member_order id body) w h c =
      consistent (reorder_members-Keeps id body w) c
