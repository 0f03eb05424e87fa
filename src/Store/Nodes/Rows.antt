-- ===== src/Store/Nodes/Rows.antt =====
-- node_store.go: GetNode, GetNodeByExternalID, and the shape of an UPDATE of org_directory_nodes.
use mattermost_plugin_org_di.Common.{
  ℕ, String, ◌==◌, Bool, ◌&&◌, Option, List, eqb, Exec, ok, or_no_rows,
}
use mattermost_plugin_org_di.Common.Sql.{select_row, update, affected}
use mattermost_plugin_org_di.Model.{OrgNode}
use mattermost_plugin_org_di.Store.Db.{Db}

abbrev pub is_live : OrgNode → Bool
is_live n = eqb n.delete_at 0

-- The row of a live node: WHERE id=$1 AND delete_at=0.
unfoldable pub find_node : String → List OrgNode → Option OrgNode
find_node id rows = select_row (λ n. (n.id == id) && is_live n) rows

-- GetNode
unfoldable pub get_node : String → Exec Db OrgNode
get_node id db = or_no_rows (find_node id db.nodes) db

-- GetNodeByExternalID
unfoldable pub find_external : String → String → List OrgNode → Option OrgNode
find_external source external_id rows =
    select_row (λ n. (n.source == source) && (n.external_id == external_id) && is_live n) rows

unfoldable pub get_node_by_external_id : String → String → Exec Db OrgNode
unfolding find_external
get_node_by_external_id source external_id db =
    or_no_rows (find_external source external_id db.nodes) db

-- UPDATE org_directory_nodes
abbrev pub write_rows : (OrgNode → Bool) → (OrgNode → OrgNode) → Exec Db (Unit {0})
write_rows p f db = (ok tt, record db { nodes = update p f db.nodes })

-- The same, with RowsAffected.
abbrev pub write_counted : (OrgNode → Bool) → (OrgNode → OrgNode) → Exec Db ℕ
write_counted p f db = (ok (affected p db.nodes), record db { nodes = update p f db.nodes })

abbrev pub deleted_at : ℕ → OrgNode → OrgNode
deleted_at now n = record n { delete_at = now; update_at = now }
