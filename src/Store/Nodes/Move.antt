-- ===== src/Store/Nodes/Move.antt =====
-- node_store.go: MoveNode.
use mattermost_plugin_org_di.Common.{
  ℕ, suc, String, ◌++◌, ◌==◌, ◌&&◌, ◌||◌, ℤ, pos, negsuc, ◌+ℤ◌, ◌-ℤ◌, if◌then◌else◌, Exec, ok,
  message, pure, raise, or_no_rows, transaction, ◌>>=◌, ◌>>◌,
}
use mattermost_plugin_org_di.Common.Sql.{select_row}
use mattermost_plugin_org_di.Common.Text.{has_prefix, like, substring_from}
use Prim.Native.String.{len}
use mattermost_plugin_org_di.Model.{OrgNode}
use mattermost_plugin_org_di.Store.Db.{Host, Db, read_clock}
use mattermost_plugin_org_di.Store.Nodes.Rows.{is_live, write_rows}

-- SELECT path, depth … WHERE id=$1, which finds deleted rows too.
unfoldable pub node_row : String → Exec Db OrgNode
node_row id db = or_no_rows (select_row (λ n. n.id == id) db.nodes) db

pub record Position : Type 0 where
  pub path : String
  pub depth : ℤ

-- The new parent's path and depth, and the test for a circular reference.
unfoldable pub parent_position : String → String → Exec Db Position
unfolding node_row
parent_position new_parent_id old_path db =
    if new_parent_id == ""
    then (ok (record { path = ""; depth = negsuc 0 }), db)
    else (do
      parent ← node_row new_parent_id
      if has_prefix parent.path (old_path ++ "/") || (parent.path == old_path)
          then raise (message "cannot move node to its own descendant")
          else pure (record { path = parent.path; depth = parent.depth }))
        db

-- "Batch-update all descendant paths and depths"
abbrev pub shifted : String → ℕ → ℤ → ℕ → OrgNode → OrgNode
shifted new_path old_len diff now n = record n {
  path = new_path ++ substring_from old_len n.path;
  depth = n.depth +ℤ diff;
  update_at = now;
}

unfoldable pub move_subtree : String → String → OrgNode → Position → ℕ → Exec Db (Unit {0})
move_subtree id new_parent_id old parent now =
    let new_path = parent.path ++ ("/" ++ id) in
    let new_depth = parent.depth +ℤ pos 1 in
    (do
      write_rows (λ n. n.id == id)
          (λ n. record n {
            parent_id = new_parent_id;
            path = new_path;
            depth = new_depth;
            update_at = now;
          })
      write_rows (λ n. like n.path (old.path ++ "/%") && is_live n)
          (shifted new_path (suc (len old.path)) (new_depth -ℤ old.depth) now))

module _ (host : Host) where
  -- MoveNode
  unfoldable pub move_node : String → String → Exec Db (Unit {0})
  unfolding node_row parent_position move_subtree
  move_node id new_parent_id = transaction (do
    old ← node_row id
    parent ← parent_position new_parent_id old.path
    now ← read_clock host
    move_subtree id new_parent_id old parent now)
