-- ===== src/Store/Tree/Create.antt =====
-- CreateNode and UpdateNode of server/store/node_store.go, and the tree.
use mattermost_plugin_org_di.Common.{
  String, ◌==◌, ◌≡◌, refl, Bool, true, false, ◌&&◌, none, some, List, [], ◌∷◌, ◌||◌, ◌⊎◌, inl, inr,
  arith, eq_iff, if◌then◌else◌, ==-path, Option-cases, Bool-cases, after, wrap, pure, continue,
  Result, Error, ok, err, unique_violation, suc, Exec, any, ◌>>◌,
}
use mattermost_plugin_org_di.Common.Sql.{append_row, select_row-append_row}
use mattermost_plugin_org_di.Common.Text.{is_path_text, is_segment}
use mattermost_plugin_org_di.Common.Text.Laws.{is_path_text-slash, is_path_text-child}
use mattermost_plugin_org_di.Model.{OrgNode, node_pre_save}
use mattermost_plugin_org_di.Store.Db.{Host, Db, IsSane}
use mattermost_plugin_org_di.Store.Nodes.Rows.{is_live, find_node}
use mattermost_plugin_org_di.Store.Nodes.Save.{
  insert_node, place_node, create_node, update_node, with_fields,
}
use mattermost_plugin_org_di.Store.Tree.Invariant.{IsPlaced, HasKeys, IsTree, update-IsTree}

-- A row at the end of the table hides no other.
find_node-append_row :
    (id : String) (rows : List OrgNode) (r : OrgNode)
    → find_node id (append_row rows r) ≡ (elim (find_node id rows) [
      | some x ↦ some x
      | none ↦ if (r.id == id) && is_live r then some r else none
    ])
unfolding find_node
find_node-append_row id rows r = select_row-append_row _ rows r

find_node_old :
    (id : String) (rows : List OrgNode) (r n : OrgNode)
    → find_node id rows ≡ some n
    → find_node id (append_row rows r) ≡ some n
find_node_old id rows r n e = ground (arith, find_node-append_row id rows r)

IsPlaced-append_row :
    (rows : List OrgNode) (r n : OrgNode) → IsPlaced rows n → IsPlaced (append_row rows r) n
IsPlaced-append_row rows r n (inl root) = inl root
IsPlaced-append_row rows r n (inr (p, e, child)) =
    inr (p, find_node_old n.parent_id rows r p e, child)

-- What a search in the longer table finds is an old node or the new one.
find_node_new :
    (id : String) (rows : List OrgNode) (r n : OrgNode)
    → find_node id (append_row rows r) ≡ some n
    → (find_node id rows ≡ some n) ⊎ (n ≡ r)
find_node_new id rows r n e = ground (arith, find_node-append_row id rows r)

any-append_row :
    (p : OrgNode → Bool) (rows : List OrgNode) (r : OrgNode)
    → any p (append_row rows r) ≡ (any p rows || p r)
any-append_row p [] r = ground arith
any-append_row p (x ∷ xs) r = ground (arith, any-append_row p xs r)

append_row-HasKeys :
    (rows : List OrgNode) (r : OrgNode)
    → any (λ x. x.id == r.id) rows ≡ false
    → HasKeys rows
    → HasKeys (append_row rows r)
append_row-HasKeys [] r h k = (refl, tt)
append_row-HasKeys (x ∷ xs) r h k = (
  ground (arith, any-append_row (λ y. y.id == x.id) xs r, eq_iff x.id r.id, eq_iff r.id x.id),
  append_row-HasKeys xs r (ground arith) k.1,
)

-- One more node under a live parent, or a root.
append_row-IsTree :
    (rows : List OrgNode) (r : OrgNode)
    → IsTree rows
    → IsPlaced rows r
    → is_segment r.id ≡ true
    → is_path_text r.path ≡ true
    → any (λ x. x.id == r.id) rows ≡ false
    → IsTree (append_row rows r)
append_row-IsTree rows r t placed segment plain fresh = record {
  keys = append_row-HasKeys rows r fresh t.keys;
  placed = λ id n e. elim (find_node_new id rows r n e) [
    | inl old ↦ IsPlaced-append_row rows r n (t.placed id n old)
    | inr new ↦ rw new (IsPlaced-append_row rows r r placed)
  ];
  segment = λ id n e. elim (find_node_new id rows r n e) [
    | inl old ↦ t.segment id n old
    | inr new ↦ rw new segment
  ];
  plain = λ id n e. elim (find_node_new id rows r n e) [
    | inl old ↦ t.plain id n old
    | inr new ↦ rw new plain
  ];
}

-- What "Build path from parent" computes: an error, or a position in the tree.
data Placing (m : OrgNode) (db : Db) (r : Result OrgNode × Db) : Type 0 where
  refused : (e : Error) → r ≡ (err e, db) → Placing m db r
  fits :
      (p : OrgNode)
      → r ≡ (ok p, db)
      → IsPlaced db.nodes (record p { delete_at = 0 })
      → p.id ≡ m.id
      → is_path_text p.path ≡ true
      → Placing m db r

place_node-Placing :
    (m : OrgNode) (db : Db)
    → IsTree db.nodes
    → is_segment m.id ≡ true
    → Placing m db (place_node m db)
unfolding place_node
place_node-Placing m db t seg = elim (Bool-cases (m.parent_id == "")) [
  | inl root ↦
      rw root (fits _ refl (inl (==-path _ _ root, refl, refl)) refl (is_path_text-slash m.id seg))
  | inr child ↦ elim (Option-cases (find_node m.parent_id db.nodes)) [
    | inl missing ↦ rw (child, missing) (refused _ refl)
    | inr (p, found) ↦
        rw (child, found)
          (fits _ refl (inr (p, found, (refl, refl))) refl
            (is_path_text-child p.path m.id (t.plain m.parent_id p found) seg))
  ]
]

-- INSERT writes the row, or finds the id taken and writes nothing.
insert_node_cases :
    (p : OrgNode) (db : Db)
    → (insert_node p db ≡ (err unique_violation, db))
      ⊎ ((any (λ r. r.id == p.id) db.nodes ≡ false)
          × (insert_node p db
              ≡ (ok tt, record db { nodes = append_row db.nodes (record p { delete_at = 0 }) })))
unfolding insert_node
insert_node_cases p db = ground arith

-- The INSERT of a placed node, and the return of CreateNode.
abbrev finish : OrgNode → Exec Db OrgNode
finish placed = wrap "failed to create node" (insert_node placed) >> pure placed

finish-IsTree :
    (m : OrgNode) (db : Db) (r : Result OrgNode × Db)
    → IsTree db.nodes
    → is_segment m.id ≡ true
    → Placing m db r
    → IsTree (continue finish r).1.nodes
finish-IsTree m db r t seg (refused e eq) = rw eq t
finish-IsTree m db r t seg (fits p eq placed same plain) = rw eq (elim (insert_node_cases p db) [
  | inl taken ↦ rw taken t
  | inr (fresh, written) ↦
      rw written
        (append_row-IsTree db.nodes (record p { delete_at = 0 }) t placed (rw same seg) plain fresh)
])

-- On a sane host (IsSane), from a well-formed tree CreateNode leaves a well-formed tree, whether it
-- succeeds or fails.
pub create_node-IsTree :
    (host : Host)
    → IsSane host
    → (n : OrgNode) (db : Db) → IsTree db.nodes
    → IsTree (after (create_node host n) db).nodes
unfolding create_node
create_node-IsTree host sane n db t =
    let fresh : OrgNode = node_pre_save (record n {
      id = host.new_id db.ids_drawn;
      create_at = host.clock db.clock_reads;
      update_at = host.clock db.clock_reads;
    }) in
    let seg : is_segment fresh.id ≡ true = unfold node_pre_save in sane.id_segment db.ids_drawn in
    let drawn : Db = record db { clock_reads = suc db.clock_reads; ids_drawn = suc db.ids_drawn } in
    finish-IsTree fresh drawn (place_node fresh drawn) t seg (place_node-Placing fresh drawn t seg)

-- UpdateNode takes a well-formed tree to a well-formed tree.
pub update_node-IsTree :
    (host : Host) (n : OrgNode) (db : Db)
    → IsTree db.nodes
    → IsTree (after (update_node host n) db).nodes
unfolding update_node
update_node-IsTree host n db t =
    update-IsTree (λ r. (r.id == n.id) && is_live r)
      (with_fields (record n { update_at = host.clock db.clock_reads })) db.nodes (λ r. refl) t
