-- ===== src/Plugin/Sync/Execute.antt =====
-- executeSyncRequest of server/api_sync.go, around its two loops.
use mattermost_plugin_org_di.Common.{
  ℕ, ◌+◌, String, ◌==◌, ◌&&◌, ◌||◌, not, Option, none, some, List, [], if◌then◌else◌, is_nil, ltb,
  eqb, Result, ok, err, after,
}
use mattermost_plugin_org_di.Common.Sql.{append_row}
use mattermost_plugin_org_di.Model.Sync.{SyncLog, SyncRequest, SyncResponse, SyncNodePayload}
use mattermost_plugin_org_di.Store.Db.{Host, Db, read_clock}
use mattermost_plugin_org_di.Store.Logs.{create_sync_log, update_sync_log}
use mattermost_plugin_org_di.Store.Nodes.Delete.{soft_delete_nodes_by_source}
use mattermost_plugin_org_di.Store.Members.Save.{soft_delete_members_by_source}
use mattermost_plugin_org_di.Plugin.Config.{Configuration}
use mattermost_plugin_org_di.Plugin.Sync.State.{Server, SyncState, empty_response}
use mattermost_plugin_org_di.Plugin.Sync.Order.{topological_sort_nodes}
use mattermost_plugin_org_di.Plugin.Sync.Nodes.{process_nodes}
use mattermost_plugin_org_di.Plugin.Sync.Members.{process_members}

-- &pluginmodel.SyncLog{…} at the start.
unfoldable pub running_log : SyncRequest → ℕ → SyncLog
running_log req now = record {
  id = "";
  source = req.source;
  sync_type = req.sync_type;
  status = "running";
  total_nodes = 0;
  created_nodes = 0;
  updated_nodes = 0;
  deleted_nodes = 0;
  total_members = 0;
  created_members = 0;
  updated_members = 0;
  deleted_members = 0;
  skipped_users = 0;
  error_message = "";
  details = "{}";
  started_at = now;
  finished_at = 0;
  triggered_by = "";
}

-- "Determine final status"
unfoldable pub final_status : SyncResponse → String
final_status r =
    if not (is_nil r.errors) && eqb (r.created_nodes + r.updated_nodes) 0
    then "failed"
    else if ltb 0 r.skipped_users || not (is_nil r.errors)
    then "partial_success"
    else "success"

-- "Update sync log"
unfoldable pub finished_log : SyncLog → SyncResponse → ℕ → SyncLog
finished_log log r now = record log {
  status = r.status;
  finished_at = now;
  total_nodes = r.total_nodes;
  created_nodes = r.created_nodes;
  updated_nodes = r.updated_nodes;
  deleted_nodes = r.deleted_nodes;
  total_members = r.total_members;
  created_members = r.created_members;
  updated_members = r.updated_members;
  deleted_members = r.deleted_members;
  skipped_users = r.skipped_users;
}

-- The strategy for the deleted nodes of a request.
unfoldable pub cascade_strategy : Configuration → String
cascade_strategy c =
    if c.sync_full_delete_strategy == "" then "cascade_delete" else c.sync_full_delete_strategy

abbrev counted_nodes : SyncState → Result ℕ × Db → SyncState
counted_nodes s (ok n, db) = record s {
  db = db;
  resp = record s.resp { deleted_nodes = s.resp.deleted_nodes + n };
}
counted_nodes s (err e, db) = record s { db = db }

abbrev counted_members : SyncState → Result ℕ × Db → SyncState
counted_members s (ok n, db) = record s {
  db = db;
  resp = record s.resp { deleted_members = s.resp.deleted_members + n };
}
counted_members s (err e, db) = record s { db = db }

module _ (host : Host) where
  -- "Full sync: soft-delete stale data from this source", the nodes
  unfoldable pub clear_nodes : SyncRequest → SyncState → SyncState
  clear_nodes req s =
      if is_nil req.nodes
      then s
      else counted_nodes s (soft_delete_nodes_by_source host req.source s.node_ids s.db)

  unfoldable pub clear_members : SyncRequest → SyncState → SyncState
  clear_members req s =
      if is_nil req.members
      then s
      else counted_members s
          (soft_delete_members_by_source host req.source s.member_ids s.member_keys s.db)

  unfoldable pub clear_stale : SyncRequest → SyncState → SyncState
  unfolding clear_nodes clear_members
  clear_stale req s = if req.sync_type == "full" then clear_members req (clear_nodes req s) else s

  abbrev with_status : SyncState → SyncState
  with_status s = record s { resp = record s.resp { status = final_status s.resp } }

  -- UpdateSyncLog, whose error is dropped, and the broadcast.
  unfoldable pub conclude : SyncLog → SyncState → SyncState
  unfolding final_status finished_log
  conclude log s =
      let done = with_status s in
      let now = after (read_clock host) done.db in
      record done {
        db =
            after (update_sync_log (finished_log log done.resp (host.clock done.db.clock_reads)))
              now;
        broadcasts = append_row done.broadcasts "sync_complete";
      }

  -- The log that CreateSyncLog returned, or the one it was given.
  abbrev opened : SyncLog → Result SyncLog × Db → SyncLog × SyncState
  opened log (ok created, db) = (
    created,
    record {
      resp = record empty_response { sync_log_id = created.id };
      node_ids = [];
      member_ids = [];
      member_keys = [];
      db = db;
      broadcasts = [];
    },
  )
  opened log (err e, db) = (
    log,
    record {
      resp = empty_response;
      node_ids = [];
      member_ids = [];
      member_keys = [];
      db = db;
      broadcasts = [];
    },
  )

  unfoldable pub open_log : SyncRequest → Db → SyncLog × SyncState
  unfolding running_log
  open_log req db =
      let log = running_log req (host.clock db.clock_reads) in
      opened log (create_sync_log host log (after (read_clock host) db))

  module _ (server : Server) where
    unfoldable pub run_sync :
        Configuration → SyncRequest → List SyncNodePayload → SyncLog × SyncState → SyncState
    unfolding clear_stale conclude cascade_strategy
    run_sync config req sorted (log, s) = conclude log (
        clear_stale req (
          process_members host server config.sync_user_match_strategy req.source req.members
            (process_nodes host server req.source (cascade_strategy config) sorted s)))

    -- executeSyncRequest: `none` where the sort ran out of fuel.
    unfoldable pub execute_sync_request : ℕ → Configuration → SyncRequest → Db → Option SyncState
    unfolding run_sync open_log
    execute_sync_request fuel config req db = elim (topological_sort_nodes fuel req.nodes) [
      | none ↦ none
      | some sorted ↦ some (run_sync config req sorted (open_log req db))
    ]
