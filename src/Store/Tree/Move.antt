-- ===== src/Store/Tree/Move.antt =====
-- MoveNode of server/store/node_store.go, and the tree.
use mattermost_plugin_org_di.Common.{
  String, ◌++◌, ◌==◌, ◌≡◌, refl, ap, sym, ◌∙◌, subst, true, false, ◌||◌, none, some, List, inl, inr,
  negsuc, if◌then◌else◌, ==-path, ==_of_path, Option-cases, Bool-cases, after, Result, Error, ok,
  err, settle, continue, pure, ◌>>=◌,
}
use mattermost_plugin_org_di.Common.Sql.{select_row, select_row_strengthen}
use mattermost_plugin_org_di.Common.Text.{has_prefix}
use mattermost_plugin_org_di.Common.Text.Laws.{no_prefix_nil}
use mattermost_plugin_org_di.Model.{OrgNode}
use mattermost_plugin_org_di.Store.Db.{Host, Db, read_clock}
use mattermost_plugin_org_di.Store.Nodes.Rows.{is_live, find_node}
use mattermost_plugin_org_di.Store.Nodes.Move.{Position, parent_position, move_subtree, move_node}
use mattermost_plugin_org_di.Store.Tree.Invariant.{
  IsTree, find_node-id, no_empty_id, IsPlaced-last_segment,
}
use mattermost_plugin_org_di.Common.{
  message, no_rows, raise, Exec, ◌>>=◌, true_ne_false, ||-left, ||-right,
}
use mattermost_plugin_org_di.Common.Text.{last_segment}
use mattermost_plugin_org_di.Store.Tree.Moved.{IsAnchor, moved-IsTree}

-- The row with this id, if there is one, is not deleted. MoveNode reads rows without that test.
abbrev pub IsLiveRow : List OrgNode → String → Type 0
IsLiveRow rows id = (r : OrgNode) → select_row (λ n. n.id == id) rows ≡ some r → is_live r ≡ true

row_found :
    (rows : List OrgNode) (id : String) (r : OrgNode)
    → IsLiveRow rows id
    → select_row (λ n. n.id == id) rows ≡ some r
    → find_node id rows ≡ some r
unfolding find_node
row_found rows id r live e = select_row_strengthen (λ n. n.id == id) is_live rows r e (live r e)

-- What the guard of MoveNode lets through, for a node that is at `old_path`.
data Target (rows : List OrgNode) (new_parent_id old_path : String) (db : Db)
    (r : Result Position × Db) : Type 0 where
  refused : (e : Error) → r ≡ (err e, db) → Target rows new_parent_id old_path db r
  allowed :
      (parent : Position)
      → r ≡ (ok parent, db)
      → IsAnchor rows new_parent_id parent
      → ¬ (parent.path ≡ old_path)
      → has_prefix parent.path (old_path ++ "/") ≡ false
      → Target rows new_parent_id old_path db r

parent_position-Target :
    (new_parent_id : String) (n : OrgNode) (db : Db)
    → ¬ ("" ≡ n.path)
    → IsLiveRow db.nodes new_parent_id
    → Target db.nodes new_parent_id n.path db (parent_position new_parent_id n.path db)
unfolding parent_position
parent_position-Target new_parent_id n db proper live = elim (Bool-cases (new_parent_id == "")) [
  | inl top ↦ rw top (
      allowed (record { path = ""; depth = negsuc 0 }) refl
        (inl (==-path new_parent_id "" top, refl, refl)) proper (no_prefix_nil n.path))
  | inr named ↦ elim (Option-cases (select_row (λ m. m.id == new_parent_id) db.nodes)) [
    | inl missing ↦ rw (named, missing) (refused no_rows refl)
    | inr (q, e) ↦ rw (named, e) (under q (row_found db.nodes new_parent_id q live e))
  ]
]
  where
    under :
        (q : OrgNode)
        → find_node new_parent_id db.nodes ≡ some q
        → Target db.nodes new_parent_id n.path db (
            (if has_prefix q.path (n.path ++ "/") || (q.path == n.path)
                then raise (message "cannot move node to its own descendant")
                else pure (record { path = q.path; depth = q.depth }))
              db)
    under q e = elim (Bool-cases (has_prefix q.path (n.path ++ "/") || (q.path == n.path))) [
      | inl circular ↦ rw circular (refused (message "cannot move node to its own descendant") refl)
      | inr apart ↦ rw apart (
          allowed (record { path = q.path; depth = q.depth }) refl (inr (q, e, refl, refl))
            (λ same. true_ne_false (
              sym (==_of_path q.path n.path same)
              ∙ ||-right (has_prefix q.path (n.path ++ "/")) _ apart))
            (||-left _ _ apart))
    ]

-- MoveNode behind its two guards: the clock, and the two UPDATEs.
abbrev rest : Host → String → String → OrgNode → Position → Exec Db (Unit {0})
rest host id new_parent_id n parent = do
  now ← read_clock host
  move_subtree id new_parent_id n parent now

move_node-missing :
    (host : Host) (id new_parent_id : String) (db : Db)
    → select_row (λ n. n.id == id) db.nodes ≡ none
    → move_node host id new_parent_id db ≡ (err no_rows, db)
unfolding move_node
move_node-missing host id new_parent_id db e = rw e

move_node-row :
    (host : Host) (id new_parent_id : String) (n : OrgNode) (db : Db)
    → select_row (λ n. n.id == id) db.nodes ≡ some n
    → move_node host id new_parent_id db
      ≡ settle db
          (continue (rest host id new_parent_id n) (parent_position new_parent_id n.path db))
unfolding move_node
move_node-row host id new_parent_id n db e = rw e

rest-IsTree :
    (host : Host) (id new_parent_id : String) (n : OrgNode) (db : Db) (r : Result Position × Db)
    → IsTree db.nodes
    → find_node id db.nodes ≡ some n
    → Target db.nodes new_parent_id n.path db r
    → IsTree (settle db (continue (rest host id new_parent_id n) r)).1.nodes
unfolding move_subtree
rest-IsTree host id new_parent_id n db r t found (refused e eq) = rw eq t
rest-IsTree host id new_parent_id n db r t found (allowed parent eq anchor apart outside) = rw eq (
    moved-IsTree db.nodes id new_parent_id n parent (host.clock db.clock_reads) t found apart
      outside anchor)

pub path_proper :
    (rows : List OrgNode) (id : String) (n : OrgNode)
    → IsTree rows
    → find_node id rows ≡ some n
    → ¬ ("" ≡ n.path)
unfolding last_segment
path_proper rows id n t found empty =
    let blank : "" ≡ id =
      ap last_segment empty
      ∙ IsPlaced-last_segment rows n (t.placed id n found) (t.segment id n found)
      ∙ find_node-id id rows n found in
    no_empty_id t n (ap (λ x. find_node x rows) blank ∙ found)

-- On a well-formed tree, MoveNode of a row that is not deleted, to the root or under a row that is
-- not deleted, leaves a well-formed tree, whether the move is made or refused.
pub move_node-IsTree :
    (host : Host) (id new_parent_id : String) (db : Db)
    → IsTree db.nodes
    → IsLiveRow db.nodes id
    → IsLiveRow db.nodes new_parent_id
    → IsTree (after (move_node host id new_parent_id) db).nodes
move_node-IsTree host id new_parent_id db t live live' =
    elim (Option-cases (select_row (λ n. n.id == id) db.nodes)) [
      | inl missing ↦
          subst (λ r. IsTree r.1.nodes) (sym (move_node-missing host id new_parent_id db missing)) t
      | inr (n, e) ↦
          let found : find_node id db.nodes ≡ some n = row_found db.nodes id n live e in
          subst (λ r. IsTree r.1.nodes) (sym (move_node-row host id new_parent_id n db e))
            (rest-IsTree host id new_parent_id n db (parent_position new_parent_id n.path db) t
              found
              (parent_position-Target new_parent_id n db (path_proper db.nodes id n t found) live'))
    ]
