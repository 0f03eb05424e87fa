-- ===== src/Store/Nodes/Save.antt =====
-- node_store.go: CreateNode, UpdateNode, UpsertNodeByExternalID and ReorderNodes.
use mattermost_plugin_org_di.Common.{
  ℕ, suc, String, ◌++◌, ◌==◌, ◌&&◌, none, some, List, [], ◌∷◌, pos, ◌+ℤ◌, if◌then◌else◌, any, Exec,
  ok, err, unique_violation, pure, wrap, ◌>>=◌, ◌>>◌,
}
use mattermost_plugin_org_di.Common.Sql.{append_row}
use mattermost_plugin_org_di.Model.{OrgNode, node_pre_save}
use mattermost_plugin_org_di.Store.Db.{Host, Db, read_clock, draw_id, attempt}
use mattermost_plugin_org_di.Store.Nodes.Rows.{is_live, get_node, find_external, write_rows}
use mattermost_plugin_org_di.Store.Nodes.Move.{move_node}

-- INSERT, with the table's PRIMARY KEY(id) and its DEFAULT of delete_at.
unfoldable pub insert_node : OrgNode → Exec Db (Unit {0})
insert_node n db =
    if any (λ r. r.id == n.id) db.nodes
    then (err unique_violation, db)
    else (ok tt, record db { nodes = append_row db.nodes (record n { delete_at = 0 }) })

-- "Build path from parent" of CreateNode
unfoldable pub place_node : OrgNode → Exec Db OrgNode
unfolding get_node
place_node n db =
    if n.parent_id == ""
    then (ok (record n { path = "/" ++ n.id; depth = pos 0 }), db)
    else (do
      parent ← wrap "parent node not found" (get_node n.parent_id)
      pure (record n { path = parent.path ++ ("/" ++ n.id); depth = parent.depth +ℤ pos 1 }))
        db

-- The UPDATE of UpdateNode: parent, path and depth are not among its columns.
abbrev pub with_fields : OrgNode → OrgNode → OrgNode
with_fields n row = record row {
  name = n.name;
  description = n.description;
  icon = n.icon;
  metadata = n.metadata;
  sort_order = n.sort_order;
  update_at = n.update_at;
}

unfoldable pub set_fields : OrgNode → Exec Db (Unit {0})
set_fields n = write_rows (λ r. (r.id == n.id) && is_live r) (with_fields n)

module _ (host : Host) where
  -- CreateNode
  unfoldable pub create_node : OrgNode → Exec Db OrgNode
  unfolding place_node insert_node
  create_node n = do
    id ← draw_id host
    now ← read_clock host
    placed ← place_node (node_pre_save (record n { id = id; create_at = now; update_at = now }))
    wrap "failed to create node" (insert_node placed)
    pure placed

  -- UpdateNode. Go writes UpdateAt through the pointer: the node comes back with it.
  unfoldable pub update_node : OrgNode → Exec Db OrgNode
  unfolding set_fields
  update_node n = do
    now ← read_clock host
    set_fields (record n { update_at = now })
    pure (record n { update_at = now })

  -- UpsertNodeByExternalID. The loaded node takes the new parent before it is compared with it.
  unfoldable pub upsert_node_by_external_id : OrgNode → Exec Db OrgNode
  unfolding update_node move_node create_node
  upsert_node_by_external_id n db = elim (find_external n.source n.external_id db.nodes) [
    | none ↦ create_node n db
    | some existing ↦
        (do
          changed ← update_node (record existing {
            name = n.name;
            parent_id = n.parent_id;
            description = n.description;
            icon = n.icon;
            metadata = n.metadata;
            sort_order = n.sort_order;
          })
          if changed.parent_id == n.parent_id
              then pure changed
              else (do move_node host changed.id n.parent_id; pure changed))
          db
  ]

  -- ReorderNodes, from the i-th id on
  unfoldable pub reorder_nodes_from : ℕ → ℕ → String → List String → Exec Db (Unit {0})
  reorder_nodes_from now i parent_id [] = pure tt
  reorder_nodes_from now i parent_id (id ∷ ids) = do
    attempt host i
    write_rows (λ n. (n.id == id) && (n.parent_id == parent_id))
        (λ n. record n { sort_order = pos i; update_at = now })
    reorder_nodes_from now (suc i) parent_id ids

  unfoldable pub reorder_nodes : String → List String → Exec Db (Unit {0})
  unfolding reorder_nodes_from
  reorder_nodes parent_id ids = do now ← read_clock host; reorder_nodes_from now 0 parent_id ids
