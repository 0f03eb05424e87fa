-- ===== src/Plugin/Sync/Nodes.antt =====
-- executeSyncRequest of server/api_sync.go: the loop over the sorted nodes.
use mattermost_plugin_org_di.Common.{
  suc, String, ◌++◌, ◌==◌, Option, none, some, List, [], ◌∷◌, pos, if◌then◌else◌, Result, ok, err,
}
use mattermost_plugin_org_di.Common.Sql.{append_row}
use mattermost_plugin_org_di.Model.{OrgNode}
use mattermost_plugin_org_di.Model.Sync.{SyncNodePayload}
use mattermost_plugin_org_di.Store.Db.{Host, Db}
use mattermost_plugin_org_di.Store.Nodes.Rows.{find_external}
use mattermost_plugin_org_di.Store.Nodes.Save.{upsert_node_by_external_id}
use mattermost_plugin_org_di.Store.Nodes.Delete.{delete_node}
use mattermost_plugin_org_di.Plugin.Sync.State.{
  Server, SyncState, error_text, with_error, node_created, node_updated, node_deleted,
}

-- &pluginmodel.OrgNode{…} of a payload; the fields left out are Go's zero values.
unfoldable pub node_of_payload : String → String → SyncNodePayload → OrgNode
node_of_payload source parent_id p = record {
  id = "";
  name = p.name;
  parent_id = parent_id;
  path = "";
  depth = pos 0;
  sort_order = p.sort_order;
  description = p.description;
  icon = p.icon;
  metadata = if p.metadata == "" then "{}" else p.metadata;
  source = source;
  external_id = p.external_id;
  create_at = 0;
  update_at = 0;
  delete_at = 0;
  creator_id = "";
}

abbrev pub failed : String → SyncState → SyncState
failed text s = record s { resp = with_error text s.resp }

abbrev pub node_counted : SyncState → SyncState
node_counted s = record s { resp = record s.resp { total_nodes = suc s.resp.total_nodes } }

module _ (host : Host) (server : Server) (source strategy : String) where
  -- The count behind DeleteNode.
  abbrev pub deletion : SyncNodePayload → SyncState → Result (Unit {0}) × Db → SyncState
  deletion p s (ok done, db) = record s { db = db; resp = node_deleted s.resp }
  deletion p s (err e, db) =
      record (failed
        ("failed to delete node "
          ++ (p.external_id ++ (": " ++ error_text server.constraint_text e)))
        s) { db = db }

  -- "Explicit delete action"
  unfoldable pub delete_payload : SyncNodePayload → SyncState → SyncState
  delete_payload p s = elim (find_external source p.external_id s.db.nodes) [
    | none ↦ failed ("node not found for delete: " ++ p.external_id) s
    | some existing ↦ deletion p s (delete_node host existing.id strategy s.db)
  ]

  -- The count behind UpsertNodeByExternalID: by what was there before.
  abbrev pub upserted :
      SyncNodePayload → Option OrgNode → SyncState → Result OrgNode × Db → SyncState
  upserted p (some existing) s (ok n, db) = record s { db = db; resp = node_updated s.resp }
  upserted p none s (ok n, db) = record s { db = db; resp = node_created s.resp }
  upserted p before s (err e, db) =
      record (failed
        ("failed to upsert node "
          ++ (p.external_id ++ (": " ++ error_text server.constraint_text e)))
        s) { db = db }

  abbrev synced : SyncNodePayload → SyncState → SyncState
  synced p s = record s { node_ids = append_row s.node_ids p.external_id }

  unfoldable pub upsert_payload : SyncNodePayload → String → SyncState → SyncState
  unfolding node_of_payload
  upsert_payload p parent_id s = synced p (
      upserted p (find_external source p.external_id s.db.nodes) s
        (upsert_node_by_external_id host (node_of_payload source parent_id p) s.db))

  -- "Resolve parent internal ID"
  unfoldable pub place_payload : SyncNodePayload → SyncState → SyncState
  unfolding upsert_payload
  place_payload p s =
      if p.parent_external_id == ""
      then upsert_payload p "" s
      else (elim (find_external source p.parent_external_id s.db.nodes) [
        | none ↦ failed ("parent not found for node: " ++ p.external_id) s
        | some parent ↦ upsert_payload p parent.id s
      ])

  -- One round of the loop.
  unfoldable pub process_node : SyncNodePayload → SyncState → SyncState
  unfolding delete_payload place_payload
  process_node p s =
      if p.action == "delete"
      then delete_payload p (node_counted s)
      else place_payload p (node_counted s)

  unfoldable pub process_nodes : List SyncNodePayload → SyncState → SyncState
  unfolding process_node
  process_nodes [] s = s
  process_nodes (p ∷ ps) s = process_nodes ps (process_node p s)
