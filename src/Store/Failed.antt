-- ===== src/Store/Failed.antt =====
-- server/store: a method of the session API that makes one statement or one transaction, and that
-- returns an error, has written no node and no membership.
use mattermost_plugin_org_di.Common.{
  ℕ, suc, String, ◌==◌, ◌≡◌, refl, Option, none, some, Result, ok, err, continue, settle, pure, any,
  or_no_rows, Exec, wrap, ◌>>◌, ◌>>=◌, ◌||◌, Bool-cases, Option-cases, inl, inr,
}
use mattermost_plugin_org_di.Model.{OrgNode, OrgMember, node_pre_save}
use mattermost_plugin_org_di.Store.Db.{Host, Db}
use mattermost_plugin_org_di.Store.Nodes.Rows.{find_node, get_node}
use mattermost_plugin_org_di.Store.Nodes.Save.{insert_node, place_node, create_node}
use mattermost_plugin_org_di.Store.Nodes.Move.{move_node}
use mattermost_plugin_org_di.Store.Nodes.Delete.{delete_node}
use mattermost_plugin_org_di.Store.Members.Rows.{insert_member, at_relation}
use mattermost_plugin_org_di.Store.Members.Save.{restore_or_insert, add_member}

-- Where the method fails, both tables are as they were.
abbrev pub Unwritten : {A : Type 0} → Db → Result A × Db → Type 0
Unwritten db (ok a, db') = Unit {0}
Unwritten db (err e, db') = (db'.nodes ≡ db.nodes) × (db'.members ≡ db.members)

-- Steps that read only and a transaction, which rolls back.
settle-Unwritten : {A : Type 0} → (db : Db) (r : Result A × Db) → Unwritten db (settle db r)
settle-Unwritten db (ok a, db') = tt
settle-Unwritten db (err e, db') = (refl, refl)

found-Unwritten :
    {A : Type 0}
    → (f : OrgNode → Exec Db A) (o : Option OrgNode) (db : Db)
    → ((n : OrgNode) → Unwritten db (f n db))
    → Unwritten db (continue f (or_no_rows o db))
found-Unwritten f none db h = (refl, refl)
found-Unwritten f (some n) db h = h n

-- An INSERT is refused before it writes.
inserted-Unwritten :
    (text : String) (placed : OrgNode) (db : Db)
    → Unwritten db ((wrap text (insert_node placed) >> pure placed) db)
unfolding insert_node
inserted-Unwritten text placed db = elim (Bool-cases (any (λ r. r.id == placed.id) db.nodes)) [
  | inl e ↦ rw e (refl, refl)
  | inr e ↦ rw e tt
]

placed-Unwritten :
    (text : String) (n : OrgNode) (db : Db)
    → Unwritten db ((place_node n >>= λ placed. wrap text (insert_node placed) >> pure placed) db)
unfolding place_node get_node
placed-Unwritten text n db = elim (Bool-cases (n.parent_id == "")) [
  | inl e ↦ rw e (inserted-Unwritten text _ db)
  | inr e ↦ elim (Option-cases (find_node n.parent_id db.nodes)) [
    | inl missing ↦ rw (e, missing) (refl, refl)
    | inr (p, found) ↦ rw (e, found) (inserted-Unwritten text _ db)
  ]
]

module _ (host : Host) where
  pub create_node-Unwritten : (n : OrgNode) (db : Db) → Unwritten db (create_node host n db)
  unfolding create_node
  create_node-Unwritten n db =
      placed-Unwritten "failed to create node"
        (node_pre_save (record n {
          id = host.new_id db.ids_drawn;
          create_at = host.clock db.clock_reads;
          update_at = host.clock db.clock_reads;
        }))
        (record db { clock_reads = suc db.clock_reads; ids_drawn = suc db.ids_drawn })

  pub move_node-Unwritten :
      (id new_parent_id : String) (db : Db) → Unwritten db (move_node host id new_parent_id db)
  unfolding move_node
  move_node-Unwritten id new_parent_id db = settle-Unwritten db _

  pub delete_node-Unwritten :
      (id strategy : String) (db : Db) → Unwritten db (delete_node host id strategy db)
  unfolding delete_node get_node
  delete_node-Unwritten id strategy db =
      found-Unwritten _ (find_node id db.nodes) db (λ n. settle-Unwritten _ _)

  restore-Unwritten :
      (m : OrgMember) (now : ℕ) (o : Option OrgMember) (db : Db)
      → Unwritten db (restore_or_insert host m now o db)
  unfolding restore_or_insert insert_member
  restore-Unwritten m now (some old) db = tt
  restore-Unwritten m now none db =
      elim (Bool-cases (
        any (λ r. (r.id == host.new_id db.ids_drawn) || at_relation m.node_id m.user_id r)
          db.members)) [ inl e ↦ rw e (refl, refl) | inr e ↦ rw e tt ]

  pub add_member-Unwritten : (m : OrgMember) (db : Db) → Unwritten db (add_member host m db)
  unfolding add_member
  add_member-Unwritten m db = restore-Unwritten _ _ _ _
