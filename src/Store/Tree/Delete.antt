-- ===== src/Store/Tree/Delete.antt =====
-- DeleteNode of server/store/node_store.go: the two UPDATEs of the cascade.
use mattermost_plugin_org_di.Common.{
  ℕ, suc, ◌<◌, String, ◌==◌, ◌≡◌, refl, ap, ◌∙◌, Bool, false, Option, none, some, List, inl, inr,
  arith, eq_iff, if◌then◌else◌, Bool-cases, after, suc, any, err, no_rows,
}
use mathlib.Core.List.{[], ◌∷◌}
use mattermost_plugin_org_di.Common.Sql.{select, update, select-update_none, update_none}
use mattermost_plugin_org_di.Model.{OrgNode}
use mattermost_plugin_org_di.Store.Db.{Host, Db, IsSane}
use mattermost_plugin_org_di.Store.Nodes.Rows.{find_node, deleted_at}
use mattermost_plugin_org_di.Store.Nodes.Delete.{
  in_subtree, delete_cascade, delete_node, member_deleted_at,
}
use mattermost_plugin_org_di.Store.Tree.Invariant.{HasKeys}

-- The subquery of the cascade runs after the nodes are deleted, so it finds no node.
subquery_empty :
    (rows : List OrgNode) (path id : String) (now : ℕ)
    → 0 < now
    → select (in_subtree path id) (update (in_subtree path id) (deleted_at now) rows) ≡ []
subquery_empty rows path id now h =
    select-update_none (in_subtree path id) (in_subtree path id) (deleted_at now) rows
      (λ r. ground arith)

-- The cascade is meant to remove the memberships of the deleted nodes too. Its second UPDATE selects
-- the nodes that are still live in the subtree, of which the first has left none.
delete_cascade_members :
    (id path : String) (now : ℕ) (db : Db)
    → 0 < now
    → (after (delete_cascade id path now) db).members ≡ db.members
unfolding delete_cascade
delete_cascade_members id path now db h =
    rw (subquery_empty db.nodes path id now h)
      (update_none (λ m. false) (member_deleted_at now) db.members (λ m. refl))

abbrev pub ByCascade : String → Type 0
ByCascade strategy = (strategy == "move_to_parent") ≡ false

-- DeleteNode of an id that no live node has writes nothing.
pub delete_node-none :
    (host : Host) (id strategy : String) (db : Db)
    → find_node id db.nodes ≡ none
    → delete_node host id strategy db ≡ (err no_rows, db)
unfolding delete_node
delete_node-none host id strategy db e = rw (e, delete_node)

-- DeleteNode of a live node by the cascade is the two UPDATEs at one reading of the clock.
pub delete_node-cascade :
    (host : Host) (id strategy : String) (n : OrgNode) (db : Db)
    → find_node id db.nodes ≡ some n
    → ByCascade strategy
    → delete_node host id strategy db
      ≡ delete_cascade id n.path
          (host.clock db.clock_reads)
          (record db { clock_reads = suc db.clock_reads })
unfolding delete_node delete_cascade
delete_node-cascade host id strategy n db e h = rw (e, h)

-- On a sane host, deleting a live node by the cascade leaves the table of memberships as it was,
-- those of the deleted nodes included.
pub cascade_keeps_members :
    (host : Host) (id strategy : String) (n : OrgNode) (db : Db)
    → IsSane host
    → find_node id db.nodes ≡ some n
    → ByCascade strategy
    → (after (delete_node host id strategy) db).members ≡ db.members
cascade_keeps_members host id strategy n db sane e h =
    ap (λ r. r.1.members) (delete_node-cascade host id strategy n db e h)
    ∙ delete_cascade_members id n.path (host.clock db.clock_reads) _ (sane.clock_pos db.clock_reads)

find_node_absent :
    (id : String) (q : OrgNode → Bool) (now : ℕ) (rows : List OrgNode)
    → any (λ x. x.id == id) rows ≡ false
    → find_node id (update q (deleted_at now) rows) ≡ none
unfolding find_node
find_node_absent id q now [] h = refl
find_node_absent id q now (r ∷ rs) h = ground (arith, find_node_absent id q now rs)

abbrev pub unless : (OrgNode → Bool) → Option OrgNode → Option OrgNode
unless q none = none
unless q (some m) = if q m then none else some m

-- A soft deletion removes from the search exactly the rows that it selects.
pub find_node-deleted :
    (id : String) (q : OrgNode → Bool) (now : ℕ) (rows : List OrgNode)
    → 0 < now
    → HasKeys rows
    → find_node id (update q (deleted_at now) rows) ≡ unless q (find_node id rows)
unfolding find_node
find_node-deleted id q now [] h k = refl
find_node-deleted id q now (r ∷ rs) h k = elim (Bool-cases (r.id == id)) [
  | inl same ↦ ground (
    arith,
    find_node-deleted id q now rs h k.1,
    find_node_absent r.id q now rs k.0,
    eq_iff r.id id,
  )
  | inr other ↦ ground (arith, find_node-deleted id q now rs h k.1)
]
