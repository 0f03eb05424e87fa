-- ===== src/Plugin/Api/Serve/Partial.antt =====
-- server/api.go, api_node.go and api_member.go: what a request leaves that is answered by an error. The
-- two reorderings may have written when they fail.
use mattermost_plugin_org_di.Common.{
  ℕ, ◌≤◌, ◌<◌, String, ◌≡◌, refl, Option, none, some, List, ◌⊎◌, inl, inr, arith, not, Bool-cases,
  Result, ok, err, length, take, after,
}
use mattermost_plugin_org_di.Store.Db.{Host, Db, unfailing}
use mattermost_plugin_org_di.Store.Nodes.Save.{reorder_nodes}
use mattermost_plugin_org_di.Store.Members.Save.{reorder_members}
use mattermost_plugin_org_di.Store.Stopped.{
  IsStopped, reorder_nodes-IsStopped, reorder_members-IsStopped,
}
use mattermost_plugin_org_di.Plugin.Config.{Configuration}
use mattermost_plugin_org_di.Plugin.Permissions.{check_node_permission}
use mattermost_plugin_org_di.Plugin.Api.Http.{World, Platform}
use mattermost_plugin_org_di.Plugin.Api.Nodes
use mattermost_plugin_org_di.Plugin.Api.Nodes.{handle_reorder_nodes}
use mattermost_plugin_org_di.Plugin.Api.Members
use mattermost_plugin_org_di.Plugin.Api.Members.{handle_reorder_members}
use mattermost_plugin_org_di.Plugin.Api.Serve.{
  Command, post_node, put_node, remove_node, post_move, post_node_order, post_member,
  remove_relation, put_role, put_position, post_member_order, status,
}
use mattermost_plugin_org_di.Plugin.Api.Serve.Answers.{SameOrg}

-- The database is that of a reordering, without an error, by the first k of the ids, and not all.
abbrev pub PartlyOrdered : (List String → Db → Db) → List String → World → World → Type 0
PartlyOrdered order ids w w' =
    (k : ℕ) × (k < length ids) × (w'.db ≡ order (take k ids) w.db) × (w'.events ≡ w.events)

-- What a command leaves that is answered by an error.
abbrev pub FailsTo : Host → Command → World → World → Type 0
FailsTo host (post_node body) w w' = SameOrg w w'
FailsTo host (put_node id body) w w' = SameOrg w w'
FailsTo host (remove_node id query) w w' = SameOrg w w'
FailsTo host (post_move id body) w w' = SameOrg w w'
FailsTo host (post_node_order id none) w w' = SameOrg w w'
FailsTo host (post_node_order id (some ids)) w w' =
    SameOrg w w' ⊎ PartlyOrdered (λ js. after (reorder_nodes (unfailing host) id js)) ids w w'
FailsTo host (post_member id body) w w' = SameOrg w w'
FailsTo host (remove_relation id target) w w' = SameOrg w w'
FailsTo host (put_role id target body) w w' = SameOrg w w'
FailsTo host (put_position id target body) w w' = SameOrg w w'
FailsTo host (post_member_order id none) w w' = SameOrg w w'
FailsTo host (post_member_order id (some ids)) w w' =
    SameOrg w w' ⊎ PartlyOrdered (λ js. after (reorder_members (unfailing host) id js)) ids w w'

pub unchanged : (host : Host) (command : Command) (w : World) → FailsTo host command w w
unchanged host (post_node body) w = (refl, refl, refl)
unchanged host (put_node id body) w = (refl, refl, refl)
unchanged host (remove_node id query) w = (refl, refl, refl)
unchanged host (post_move id body) w = (refl, refl, refl)
unchanged host (post_node_order id none) w = (refl, refl, refl)
unchanged host (post_node_order id (some ids)) w = inl (refl, refl, refl)
unchanged host (post_member id body) w = (refl, refl, refl)
unchanged host (remove_relation id target) w = (refl, refl, refl)
unchanged host (put_role id target body) w = (refl, refl, refl)
unchanged host (put_position id target body) w = (refl, refl, refl)
unchanged host (post_member_order id none) w = (refl, refl, refl)
unchanged host (post_member_order id (some ids)) w = inl (refl, refl, refl)

module _ (host : Host) (platform : Platform) (config : Option Configuration) (user : String) where
  nodes_stopped :
      (order : List String → Db → Db) (ids : List String) (w : World) (r : Result (Unit {0}) × Db)
      → IsStopped (λ js. order js w.db) ids r
      → 400 ≤ (status (Nodes.after_reorder host platform config user w r)).0
      → PartlyOrdered order ids w (status (Nodes.after_reorder host platform config user w r)).1
  nodes_stopped order ids w (ok done, db) s h = absurd (ground (arith, h))
  nodes_stopped order ids w (err e, db) (k, short, same) h = (k, short, same, refl)

  pub ordered_nodes_failed :
      (id : String) (body : Option (List String)) (w : World)
      → 400 ≤ (status (handle_reorder_nodes host platform config user id body w)).0
      → FailsTo host
          (post_node_order id body)
          w
          (status (handle_reorder_nodes host platform config user id body w)).1
  unfolding handle_reorder_nodes
  ordered_nodes_failed id none w =
      elim (Bool-cases
        (not (check_node_permission platform.is_system_admin user id "manager" w.db))) [
          | inl e ↦ rw e (λ h. (refl, refl, refl))
          | inr e ↦ rw e (λ h. (refl, refl, refl))
        ]
  ordered_nodes_failed id (some ids) w =
      elim (Bool-cases
        (not (check_node_permission platform.is_system_admin user id "manager" w.db))) [
          | inl e ↦ rw e (λ h. inl (refl, refl, refl))
          | inr e ↦ rw e (λ h. inr (
              nodes_stopped (λ js. after (reorder_nodes (unfailing host) id js)) ids w _
                (reorder_nodes-IsStopped host id ids w.db) h))
        ]

  members_stopped :
      (order : List String → Db → Db) (ids : List String) (w : World) (r : Result (Unit {0}) × Db)
      → IsStopped (λ js. order js w.db) ids r
      → 400 ≤ (status (Members.after_reorder host platform config user w r)).0
      → PartlyOrdered order ids w (status (Members.after_reorder host platform config user w r)).1
  members_stopped order ids w (ok done, db) s h = absurd (ground (arith, h))
  members_stopped order ids w (err e, db) (k, short, same) h = (k, short, same, refl)

  pub ordered_members_failed :
      (id : String) (body : Option (List String)) (w : World)
      → 400 ≤ (status (handle_reorder_members host platform config user id body w)).0
      → FailsTo host
          (post_member_order id body)
          w
          (status (handle_reorder_members host platform config user id body w)).1
  unfolding handle_reorder_members
  ordered_members_failed id none w =
      elim (Bool-cases
        (not (check_node_permission platform.is_system_admin user id "manager" w.db))) [
          | inl e ↦ rw e (λ h. (refl, refl, refl))
          | inr e ↦ rw e (λ h. (refl, refl, refl))
        ]
  ordered_members_failed id (some ids) w =
      elim (Bool-cases
        (not (check_node_permission platform.is_system_admin user id "manager" w.db))) [
          | inl e ↦ rw e (λ h. inl (refl, refl, refl))
          | inr e ↦ rw e (λ h. inr (
              members_stopped (λ js. after (reorder_members (unfailing host) id js)) ids w _
                (reorder_members-IsStopped host id ids w.db) h))
        ]
