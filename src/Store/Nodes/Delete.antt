-- ===== src/Store/Nodes/Delete.antt =====
-- node_store.go: DeleteNode, with its two strategies, and the bulk deletions of a synchronisation.
use mattermost_plugin_org_di.Common.{
  ℕ, String, ◌++◌, ◌==◌, Bool, ◌&&◌, ◌||◌, not, List, [], ◌∷◌, if◌then◌else◌, contains, any, Exec,
  ok, pure, transaction, ◌>>=◌, ◌>>◌,
}
use mattermost_plugin_org_di.Common.Sql.{select, update}
use mattermost_plugin_org_di.Common.Text.{like}
use mattermost_plugin_org_di.Model.{OrgNode, OrgMember}
use mattermost_plugin_org_di.Store.Db.{Host, Db, read_clock}
use mattermost_plugin_org_di.Store.Nodes.Rows.{
  is_live, get_node, write_rows, write_counted, deleted_at,
}

-- The branch "move_to_parent" of DeleteNode.
unfoldable pub delete_to_parent : String → String → ℕ → Exec Db (Unit {0})
delete_to_parent id parent_id now = do
  write_rows (λ n. (n.parent_id == id) && is_live n)
      (λ n. record n { parent_id = parent_id; update_at = now })
  write_rows (λ n. n.id == id) (deleted_at now)

-- (path LIKE $2 OR id=$3) AND delete_at=0
abbrev pub in_subtree : String → String → OrgNode → Bool
in_subtree path id n = (like n.path (path ++ "/%") || (n.id == id)) && is_live n

abbrev pub member_deleted_at : ℕ → OrgMember → OrgMember
member_deleted_at now m = record m { delete_at = now; update_at = now }

-- UPDATE org_directory_members … WHERE node_id IN (SELECT id …)
unfoldable pub delete_members_of : (OrgNode → Bool) → ℕ → Exec Db (Unit {0})
delete_members_of p now db = (
  ok tt,
  record db {
    members =
        update (λ m. any (λ n. n.id == m.node_id) (select p db.nodes)) (member_deleted_at now)
          db.members;
  },
)

-- The default branch of DeleteNode: first the nodes, then the members of the nodes still live.
unfoldable pub delete_cascade : String → String → ℕ → Exec Db (Unit {0})
unfolding delete_members_of
delete_cascade id path now = do
  write_rows (in_subtree path id) (deleted_at now)
  delete_members_of (in_subtree path id) now

-- The condition of SoftDeleteNodesBySource: an empty list excludes nothing.
abbrev pub is_stale : String → List String → OrgNode → Bool
is_stale source [] n = (n.source == source) && is_live n
is_stale source (id ∷ ids) n =
    (n.source == source) && is_live n && not (contains n.external_id (id ∷ ids))

module _ (host : Host) where
  -- DeleteNode
  unfoldable pub delete_node : String → String → Exec Db (Unit {0})
  unfolding get_node delete_to_parent delete_cascade
  delete_node id strategy = do
    node ← get_node id
    now ← read_clock host
    transaction (
        if strategy == "move_to_parent"
        then delete_to_parent id node.parent_id now
        else delete_cascade id node.path now)

  -- SoftDeleteNodesBySource
  unfoldable pub soft_delete_nodes_by_source : String → List String → Exec Db ℕ
  soft_delete_nodes_by_source source exclude = do
    now ← read_clock host
    write_counted (is_stale source exclude) (λ n. record n { delete_at = now; update_at = now })

-- SoftDeleteNodes
unfoldable pub soft_delete_nodes : List String → ℕ → Exec Db (Unit {0})
soft_delete_nodes [] now = pure tt
soft_delete_nodes (id ∷ ids) now =
    write_rows (λ n. contains n.id (id ∷ ids)) (λ n. record n { delete_at = now; update_at = now })
