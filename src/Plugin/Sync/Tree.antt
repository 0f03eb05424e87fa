-- ===== src/Plugin/Sync/Tree.antt =====
-- executeSyncRequest of server/api_sync.go: the loop over the nodes and the shape of the tree.
use mattermost_plugin_org_di.Common.{
  String, ◌==◌, sym, subst, Option, none, some, List, [], ◌∷◌, Option-cases, inl, inr, Result, ok,
  err, after, if-both, elim-both,
}
use mattermost_plugin_org_di.Model.{OrgNode}
use mattermost_plugin_org_di.Model.Sync.{SyncNodePayload}
use mattermost_plugin_org_di.Store.Db.{Host, Db, IsSane}
use mattermost_plugin_org_di.Store.Nodes.Rows.{find_node, find_external}
use mattermost_plugin_org_di.Store.Nodes.Delete.{delete_node}
use mattermost_plugin_org_di.Store.Tree.Invariant.{IsTree}
use mattermost_plugin_org_di.Store.Tree.Delete.{ByCascade, delete_node-none}
use mattermost_plugin_org_di.Store.Tree.Cascade.{cascade-IsTree}
use mattermost_plugin_org_di.Store.Tree.Upsert.{upsert-IsTree}
use mattermost_plugin_org_di.Plugin.Sync.State.{Server, SyncState}
use mattermost_plugin_org_di.Plugin.Sync.Nodes.{
  deletion, upserted, node_counted, node_of_payload, delete_payload, upsert_payload, place_payload,
  process_node, process_nodes,
}

abbrev HasTree : SyncState → Type 0
HasTree s = IsTree s.db.nodes

module _ (host : Host) (sane : IsSane host) (server : Server) (source strategy : String)
    (cascade : ByCascade strategy) where
  delete_node-IsTree :
      (id : String) (db : Db)
      → IsTree db.nodes
      → IsTree (after (delete_node host id strategy) db).nodes
  delete_node-IsTree id db t = elim (Option-cases (find_node id db.nodes)) [
    | inl e ↦ subst (λ r. IsTree r.1.nodes) (sym (delete_node-none host id strategy db e)) t
    | inr (n, e) ↦ cascade-IsTree host id strategy n db sane t e cascade
  ]

  deletion-IsTree :
      (p : SyncNodePayload) (s : SyncState) (r : Result (Unit {0}) × Db)
      → IsTree r.1.nodes
      → IsTree (deletion host server source strategy p s r).db.nodes
  deletion-IsTree p s (ok done, db) t = t
  deletion-IsTree p s (err e, db) t = t

  upserted-IsTree :
      (p : SyncNodePayload) (before : Option OrgNode) (s : SyncState) (r : Result OrgNode × Db)
      → IsTree r.1.nodes
      → IsTree (upserted host server source strategy p before s r).db.nodes
  upserted-IsTree p (some n) s (ok m, db) t = t
  upserted-IsTree p none s (ok m, db) t = t
  upserted-IsTree p (some n) s (err e, db) t = t
  upserted-IsTree p none s (err e, db) t = t

  upsert_payload-IsTree :
      (p : SyncNodePayload) (parent_id : String) (s : SyncState)
      → IsTree s.db.nodes
      → IsTree (upsert_payload host server source strategy p parent_id s).db.nodes
  unfolding upsert_payload
  upsert_payload-IsTree p parent_id s t =
      upserted-IsTree p (find_external source p.external_id s.db.nodes) s _
        (upsert-IsTree host sane (node_of_payload source parent_id p) s.db t)

  delete_payload-IsTree :
      (p : SyncNodePayload) (s : SyncState)
      → IsTree s.db.nodes
      → IsTree (delete_payload host server source strategy p s).db.nodes
  unfolding delete_payload
  delete_payload-IsTree p s t =
      elim-both HasTree (find_external source p.external_id s.db.nodes) _
        (λ existing.
          deletion host server source strategy p s (delete_node host existing.id strategy s.db))
        t (λ existing. deletion-IsTree p s _ (delete_node-IsTree existing.id s.db t))

  place_payload-IsTree :
      (p : SyncNodePayload) (s : SyncState)
      → IsTree s.db.nodes
      → IsTree (place_payload host server source strategy p s).db.nodes
  unfolding place_payload
  place_payload-IsTree p s t =
      if-both HasTree (p.parent_external_id == "") _ _ (upsert_payload-IsTree p "" s t) (
        elim-both HasTree (find_external source p.parent_external_id s.db.nodes) _
          (λ parent. upsert_payload host server source strategy p parent.id s) t
          (λ parent. upsert_payload-IsTree p parent.id s t))

  process_node-IsTree :
      (p : SyncNodePayload) (s : SyncState)
      → IsTree s.db.nodes
      → IsTree (process_node host server source strategy p s).db.nodes
  unfolding process_node
  process_node-IsTree p s t =
      if-both HasTree (p.action == "delete") _ _ (delete_payload-IsTree p (node_counted s) t)
        (place_payload-IsTree p (node_counted s) t)

  -- On a sane host, whatever the payloads are, and in whatever order: where the strategy for
  -- deletions is not "move_to_parent", the loop over the nodes takes a well-formed tree to a well-
  -- formed tree.
  pub process_nodes-IsTree :
      (ps : List SyncNodePayload) (s : SyncState)
      → IsTree s.db.nodes
      → IsTree (process_nodes host server source strategy ps s).db.nodes
  unfolding process_nodes
  process_nodes-IsTree [] s t = t
  process_nodes-IsTree (p ∷ ps) s t =
      process_nodes-IsTree ps (process_node host server source strategy p s)
        (process_node-IsTree p s t)
