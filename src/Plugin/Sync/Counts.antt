-- ===== src/Plugin/Sync/Counts.antt =====
-- executeSyncRequest of server/api_sync.go: the counters of the response.
use mattermost_plugin_org_di.Common.{
  ℕ, suc, ◌+◌, String, ◌==◌, ◌≡◌, refl, Option, none, some, List, [], ◌∷◌, arith, if-both,
  elim-both, length, Result, ok, err,
}
use mattermost_plugin_org_di.Common.Sql.{length-append_row}
use mattermost_plugin_org_di.Model.{OrgNode, OrgMember}
use mattermost_plugin_org_di.Model.Sync.{SyncNodePayload, SyncMemberPayload, SyncResponse}
use mattermost_plugin_org_di.Store.Db.{Host, Db}
use mattermost_plugin_org_di.Store.Nodes.Delete.{delete_node}
use mattermost_plugin_org_di.Store.Nodes.Rows.{find_external}
use mattermost_plugin_org_di.Plugin.Sync.State.{Server, SyncState}
use mattermost_plugin_org_di.Plugin.Sync.Users.{Resolved, resolve_mm_user}
use mattermost_plugin_org_di.Plugin.Sync.Nodes.{
  deletion, upserted, node_counted, delete_payload, upsert_payload, place_payload, process_node,
  process_nodes,
}
use mattermost_plugin_org_di.Plugin.Sync.Members.{
  removal, related, member_counted, previous_member, upsert_member_payload, delete_member_payload,
  relate_payload, place_member, process_member, process_members,
}

-- The payloads that have an outcome: created, updated, deleted or an error.
abbrev pub node_outcomes : SyncResponse → ℕ
node_outcomes r = r.created_nodes + r.updated_nodes + r.deleted_nodes + length r.errors

-- Created, updated, deleted, skipped or an error.
abbrev pub member_outcomes : SyncResponse → ℕ
member_outcomes r =
    r.created_members + r.updated_members + r.deleted_members + r.skipped_users + length r.errors

abbrev CountsNode : SyncState → SyncState → Type 0
CountsNode s s' =
    (s'.resp.total_nodes ≡ s.resp.total_nodes)
    × (node_outcomes s'.resp ≡ suc (node_outcomes s.resp))

abbrev CountsMember : SyncState → SyncState → Type 0
CountsMember s s' =
    (s'.resp.total_members ≡ s.resp.total_members)
    × (member_outcomes s'.resp ≡ suc (member_outcomes s.resp))

module _ (host : Host) (server : Server) (source strategy : String) where
  deletion-counts :
      (p : SyncNodePayload) (s : SyncState) (r : Result (Unit {0}) × Db)
      → CountsNode s (deletion host server source strategy p s r)
  deletion-counts p s (ok done, db) = (refl, omega arith)
  deletion-counts p s (err e, db) = (refl, omega (arith, length-append_row s.resp.errors _))

  upserted-counts :
      (p : SyncNodePayload) (before : Option OrgNode) (s : SyncState) (r : Result OrgNode × Db)
      → CountsNode s (upserted host server source strategy p before s r)
  upserted-counts p (some n) s (ok m, db) = (refl, omega arith)
  upserted-counts p none s (ok m, db) = (refl, omega arith)
  upserted-counts p (some n) s (err e, db) =
      (refl, omega (arith, length-append_row s.resp.errors _))
  upserted-counts p none s (err e, db) = (refl, omega (arith, length-append_row s.resp.errors _))

  upsert_payload-counts :
      (p : SyncNodePayload) (parent_id : String) (s : SyncState)
      → CountsNode s (upsert_payload host server source strategy p parent_id s)
  unfolding upsert_payload
  upsert_payload-counts p parent_id s =
      upserted-counts p (find_external source p.external_id s.db.nodes) s _

  process_node-counts :
      (p : SyncNodePayload) (s : SyncState)
      → CountsNode (node_counted s) (process_node host server source strategy p s)
  unfolding process_node delete_payload place_payload
  process_node-counts p s =
      if-both (CountsNode (node_counted s)) (p.action == "delete") _ _
        (elim-both (CountsNode (node_counted s)) (find_external source p.external_id s.db.nodes) _
          (λ existing.
            deletion host server source strategy p (node_counted s)
              (delete_node host existing.id strategy s.db))
          (refl, omega (arith, length-append_row s.resp.errors _))
          (λ existing. deletion-counts p (node_counted s) _))
        (if-both (CountsNode (node_counted s)) (p.parent_external_id == "") _ _
          (upsert_payload-counts p "" (node_counted s))
          (elim-both (CountsNode (node_counted s))
            (find_external source p.parent_external_id s.db.nodes) _
            (λ parent. upsert_payload host server source strategy p parent.id (node_counted s))
            (refl, omega (arith, length-append_row s.resp.errors _))
            (λ parent. upsert_payload-counts p parent.id (node_counted s))))

  -- The loop over the nodes counts every payload once in the total, and once among the created,
  -- updated and deleted nodes and the errors.
  pub process_nodes-counts :
      (ps : List SyncNodePayload) (s : SyncState)
      → ((process_nodes host server source strategy ps s).resp.total_nodes
          ≡ s.resp.total_nodes + length ps)
        × (node_outcomes (process_nodes host server source strategy ps s).resp
            ≡ node_outcomes s.resp + length ps)
  unfolding process_nodes
  process_nodes-counts [] s = (omega arith, omega arith)
  process_nodes-counts (p ∷ ps) s =
      let (total, outcomes) =
        process_nodes-counts ps (process_node host server source strategy p s) in
      let (same, one) = process_node-counts p s in
      (omega (arith, total, same), omega (arith, outcomes, one))

module _ (host : Host) (server : Server) (strategy source : String) where
  removal-counts :
      (s : SyncState) (r : Result (Unit {0}) × Db)
      → CountsMember s (removal host server strategy source s r)
  removal-counts s (ok done, db) = (refl, omega arith)
  removal-counts s (err e, db) = (refl, omega (arith, length-append_row s.resp.errors _))

  related-counts :
      (before : Option OrgMember) (s : SyncState) (r : Result OrgMember × Db)
      → CountsMember s (related host server strategy source before s r)
  related-counts (some n) s (ok m, db) = (refl, omega arith)
  related-counts none s (ok m, db) = (refl, omega arith)
  related-counts (some n) s (err e, db) = (refl, omega (arith, length-append_row s.resp.errors _))
  related-counts none s (err e, db) = (refl, omega (arith, length-append_row s.resp.errors _))

  relate_payload-counts :
      (p : SyncMemberPayload) (node_id : String) (s : SyncState) (r : Resolved)
      → CountsMember s (relate_payload host server strategy source p node_id s r)
  unfolding relate_payload upsert_member_payload delete_member_payload
  relate_payload-counts p node_id s r =
      if-both (CountsMember s) (r.user_id == "") _ _ (refl, omega arith)
        (if-both (CountsMember s) (p.action == "delete") _ _
          (removal-counts (record s { db = r.db }) _)
          (related-counts (previous_member source node_id r.user_id p r.db) (record s { db = r.db })
            _))

  process_member-counts :
      (p : SyncMemberPayload) (s : SyncState)
      → CountsMember (member_counted s) (process_member host server strategy source p s)
  unfolding process_member place_member
  process_member-counts p s =
      elim-both (CountsMember (member_counted s))
        (find_external source p.node_external_id s.db.nodes) _
        (λ node.
          relate_payload host server strategy source p node.id (member_counted s)
            (resolve_mm_user host server strategy source p s.db))
        (refl, omega (arith, length-append_row s.resp.errors _))
        (λ node. relate_payload-counts p node.id (member_counted s) _)

  -- The loop over the members counts every payload once in the total, and once among the created,
  -- updated and deleted members, the skipped users and the errors.
  pub process_members-counts :
      (ps : List SyncMemberPayload) (s : SyncState)
      → ((process_members host server strategy source ps s).resp.total_members
          ≡ s.resp.total_members + length ps)
        × (member_outcomes (process_members host server strategy source ps s).resp
            ≡ member_outcomes s.resp + length ps)
  unfolding process_members
  process_members-counts [] s = (omega arith, omega arith)
  process_members-counts (p ∷ ps) s =
      let (total, outcomes) =
        process_members-counts ps (process_member host server strategy source p s) in
      let (same, one) = process_member-counts p s in
      (omega (arith, total, same), omega (arith, outcomes, one))
