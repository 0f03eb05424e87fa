-- ===== src/Plugin/Api/Serve/Consistent.antt =====
-- server/api_node.go and api_member.go: what a handler does behind its call of the store leaves the
-- constraints of the tables.
use mattermost_plugin_org_di.Common.{
  ℕ, String, ◌==◌, Option, none, some, Bool-cases, inl, inr, Result, ok, err, if-both, after, any,
}
use mattermost_plugin_org_di.Model.{OrgNode, OrgMember, AuditLog}
use mattermost_plugin_org_di.Store.Db.{Host, Db}
use mattermost_plugin_org_di.Store.Logs.{log_action, insert_audit}
use mattermost_plugin_org_di.Store.Tree.Invariant.{IsTree}
use mattermost_plugin_org_di.Store.Members.Table.{IsTable}
use mattermost_plugin_org_di.Plugin.Config.{Configuration}
use mattermost_plugin_org_di.Plugin.Api.Http.{
  World, Platform, Response, log_audit, broadcast_tree_update, broadcast_member_update, failure,
}
use mattermost_plugin_org_di.Plugin.Api.Nodes
use mattermost_plugin_org_di.Plugin.Api.Nodes.{
  CreateNodeRequest, UpdateNodeRequest, changed_node, requested_node, handle_create_node,
  create_requested, handle_update_node, update_requested, handle_delete_node, handle_move_node,
  handle_reorder_nodes,
}
use mattermost_plugin_org_di.Plugin.Api.Members
use mattermost_plugin_org_di.Plugin.Api.Members.{
  AddMemberRequest, requested_member, handle_add_member, add_requested, handle_remove_member,
  handle_update_member_role, handle_update_member_position, handle_reorder_members,
}
use mattermost_plugin_org_di.Plugin.Api.Serve.{status}

-- The constraints of both tables.
abbrev pub IsConsistent : Db → Type 0
IsConsistent db = IsTree db.nodes × IsTable db.members

-- The answer leaves the constraints where they held.
pub data Keeps {A : Type 0} (w : World) (r : Response A × World) : Type 0 where
  keeps : (IsConsistent w.db → IsConsistent (status r).1.db) → Keeps w r

pub consistent :
    {A : Type 0} {w : World} {r : Response A × World}
    → Keeps w r
    → IsConsistent w.db
    → IsConsistent (status r).1.db
consistent (keeps k) = k

pub refused :
    {A : Type 0} → (code : ℕ) (text : String) (w : World) → Keeps {A = A} w (failure code text, w)
refused code text w = keeps (λ c. c)

log_action-IsConsistent :
    (host : Host) (log : AuditLog) (db : Db)
    → IsConsistent db
    → IsConsistent (after (log_action host log) db)
unfolding log_action insert_audit
log_action-IsConsistent host log db c =
    elim (Bool-cases (any (λ r. r.id == host.new_id db.ids_drawn) db.audit_logs)) [
      | inl e ↦ rw e c
      | inr e ↦ rw e c
    ]

module _ (host : Host) (platform : Platform) (config : Option Configuration) (user : String) where
  logged :
      (action target_type target_id details : String) (w : World)
      → IsConsistent w.db
      → IsConsistent (log_audit host config user action target_type target_id details w).db
  unfolding log_audit
  logged action target_type target_id details w c =
      if-both (λ (v : World). IsConsistent v.db) _ _ _ (log_action-IsConsistent host _ w.db c) c

  pub created :
      (w : World) (r : Result OrgNode × Db)
      → (IsConsistent w.db → IsConsistent r.1)
      → Keeps w (Nodes.after_create host platform config user w r)
  unfolding broadcast_tree_update
  created w (ok n, db) c = keeps (λ h. logged _ _ _ _ _ (c h))
  created w (err e, db) c = keeps c

  pub updated :
      (id : String) (n : OrgNode) (w : World) (r : Result OrgNode × Db)
      → (IsConsistent w.db → IsConsistent r.1)
      → Keeps w (Nodes.after_update host platform config user id n w r)
  unfolding broadcast_tree_update
  updated id n w (ok saved, db) c = keeps (λ h. logged _ _ _ _ _ (c h))
  updated id n w (err e, db) c = keeps c

  pub deleted :
      (id strategy : String) (n : OrgNode) (w : World) (r : Result (Unit {0}) × Db)
      → (IsConsistent w.db → IsConsistent r.1)
      → Keeps w (Nodes.after_delete host platform config user id strategy n w r)
  unfolding broadcast_tree_update
  deleted id strategy n w (ok done, db) c = keeps (λ h. logged _ _ _ _ _ (c h))
  deleted id strategy n w (err e, db) c = keeps c

  announced :
      (action : String) (o : Option OrgNode) (w : World)
      → IsConsistent w.db
      → IsConsistent (broadcast_tree_update action o w).db
  unfolding broadcast_tree_update
  announced action none w c = c
  announced action (some n) w c = c

  pub moved :
      (id parent : String) (w : World) (r : Result (Unit {0}) × Db)
      → (IsConsistent w.db → IsConsistent r.1)
      → Keeps w (Nodes.after_move host platform config user id parent w r)
  moved id parent w (ok done, db) c =
      keeps (λ h. logged _ _ _ _ _ (announced _ _ (record w { db = db }) (c h)))
  moved id parent w (err e, db) c = keeps c

  pub reordered :
      (w : World) (r : Result (Unit {0}) × Db)
      → (IsConsistent w.db → IsConsistent r.1)
      → Keeps w (Nodes.after_reorder host platform config user w r)
  reordered w (ok done, db) c = keeps c
  reordered w (err e, db) c = keeps c

  pub added :
      (id : String) (req : AddMemberRequest) (w : World) (r : Result OrgMember × Db)
      → (IsConsistent w.db → IsConsistent r.1)
      → Keeps w (Members.after_add host platform config user id req w r)
  unfolding broadcast_member_update
  added id req w (ok m, db) c = keeps (λ h. logged _ _ _ _ _ (c h))
  added id req w (err e, db) c = keeps c

  pub removed :
      (id target : String) (w : World) (r : Result (Unit {0}) × Db)
      → (IsConsistent w.db → IsConsistent r.1)
      → Keeps w (Members.after_remove host platform config user id target w r)
  unfolding broadcast_member_update
  removed id target w (ok done, db) c = keeps (λ h. logged _ _ _ _ _ (c h))
  removed id target w (err e, db) c = keeps c

  pub given_role :
      (id target role : String) (w : World) (r : Result (Unit {0}) × Db)
      → (IsConsistent w.db → IsConsistent r.1)
      → Keeps w (Members.after_role host platform config user id target role w r)
  unfolding broadcast_member_update
  given_role id target role w (ok done, db) c = keeps (λ h. logged _ _ _ _ _ (c h))
  given_role id target role w (err e, db) c = keeps c

  pub given_position :
      (id target position : String) (w : World) (r : Result (Unit {0}) × Db)
      → (IsConsistent w.db → IsConsistent r.1)
      → Keeps w (Members.after_position host platform config user id target position w r)
  given_position id target position w (ok done, db) c = keeps (λ h. logged _ _ _ _ _ (c h))
  given_position id target position w (err e, db) c = keeps c

  pub reordered_members :
      (w : World) (r : Result (Unit {0}) × Db)
      → (IsConsistent w.db → IsConsistent r.1)
      → Keeps w (Members.after_reorder host platform config user w r)
  reordered_members w (ok done, db) c = keeps c
  reordered_members w (err e, db) c = keeps c
