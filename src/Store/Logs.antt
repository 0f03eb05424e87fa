-- ===== src/Store/Logs.antt =====
-- server/store/sync_store.go: the logs of synchronisations and the audit log.
use mattermost_plugin_org_di.Common.{
  String, ◌==◌, Bool, ◌&&◌, not, Option, List, ℤ, ltb, Exec, ok, err, pure, unique_violation, any,
  if◌then◌else◌, ◌>>=◌, ◌>>◌,
}
use mathlib.Core.List.{head?}
use mattermost_plugin_org_di.Common.Sql.{select, select_row, update, append_row, order_by}
use mattermost_plugin_org_di.Model.{AuditLog}
use mattermost_plugin_org_di.Model.Sync.{SyncLog}
use mattermost_plugin_org_di.Store.Db.{Host, Db, read_clock, draw_id}
use mattermost_plugin_org_di.Store.Paging.{paged}

insert_log : SyncLog → Exec Db (Unit {0})
insert_log log db =
    if any (λ r. r.id == log.id) db.sync_logs
    then (err unique_violation, db)
    else (ok tt, record db { sync_logs = append_row db.sync_logs log })

unfoldable pub insert_audit : AuditLog → Exec Db (Unit {0})
insert_audit log db =
    if any (λ r. r.id == log.id) db.audit_logs
    then (err unique_violation, db)
    else (ok tt, record db { audit_logs = append_row db.audit_logs log })

-- The columns that UpdateSyncLog writes.
abbrev pub with_results : SyncLog → SyncLog → SyncLog
with_results log row = record row {
  status = log.status;
  total_nodes = log.total_nodes;
  created_nodes = log.created_nodes;
  updated_nodes = log.updated_nodes;
  deleted_nodes = log.deleted_nodes;
  total_members = log.total_members;
  created_members = log.created_members;
  updated_members = log.updated_members;
  deleted_members = log.deleted_members;
  skipped_users = log.skipped_users;
  error_message = log.error_message;
  details = log.details;
  finished_at = log.finished_at;
}

-- UpdateSyncLog
unfoldable pub update_sync_log : SyncLog → Exec Db (Unit {0})
update_sync_log log db =
    (ok tt, record db { sync_logs = update (λ r. r.id == log.id) (with_results log) db.sync_logs })

-- GetSyncLog: a missing log is no error.
unfoldable pub get_sync_log : String → Exec Db (Option SyncLog)
get_sync_log id db = (ok (select_row (λ r. r.id == id) db.sync_logs), db)

abbrev latest_first : SyncLog → SyncLog → Bool
latest_first a b = ltb b.started_at a.started_at

-- GetSyncLogs
unfoldable pub get_sync_logs : String → ℤ → ℤ → Exec Db (List SyncLog)
unfolding paged
get_sync_logs source page per_page db =
    paged page per_page
      (order_by latest_first (
        if not (source == "") then select (λ r. r.source == source) db.sync_logs else db.sync_logs))
      db

-- GetLatestSyncLog
unfoldable pub get_latest_sync_log : String → Exec Db (Option SyncLog)
get_latest_sync_log source db =
    (ok (head? (order_by latest_first (select (λ r. r.source == source) db.sync_logs))), db)

-- GetAuditLogs
unfoldable pub get_audit_logs : String → String → ℤ → ℤ → Exec Db (List AuditLog)
unfolding paged
get_audit_logs target_type target_id page per_page db =
    paged page per_page
      (order_by (λ a b. ltb b.create_at a.create_at)
        (select (λ r. (r.target_type == target_type) && (r.target_id == target_id)) db.audit_logs))
      db

module _ (host : Host) where
  -- CreateSyncLog
  unfoldable pub create_sync_log : SyncLog → Exec Db SyncLog
  unfolding insert_log
  create_sync_log log = do
    id ← draw_id host
    insert_log (record log { id = id })
    pure (record log { id = id })

  -- LogAction
  unfoldable pub log_action : AuditLog → Exec Db (Unit {0})
  unfolding insert_audit
  log_action log = do
    id ← draw_id host
    now ← read_clock host
    insert_audit (record log { id = id; create_at = now })
