-- ===== src/Store/Tree/Upsert.antt =====
-- UpsertNodeByExternalID of server/store/node_store.go, and the tree.
use mathlib.Core.Option
use mattermost_plugin_org_di.Common.{
  String, ◌==◌, ◌≡◌, refl, ap, sym, ◌∙◌, subst, Option, none, some, arith, if◌then◌else◌, ◌&&◌,
  eq_refl, Option-cases, after, reply, ok, inl, inr,
}
use mattermost_plugin_org_di.Model.{OrgNode}
use mattermost_plugin_org_di.Store.Db.{Host, Db, IsSane}
use mattermost_plugin_org_di.Store.Nodes.Rows.{is_live, find_node, find_external}
use mattermost_plugin_org_di.Store.Nodes.Save.{
  create_node, update_node, with_fields, upsert_node_by_external_id,
}
use mattermost_plugin_org_di.Store.Tree.Invariant.{IsTree, shape, find_node-update}
use mattermost_plugin_org_di.Store.Tree.Create.{create_node-IsTree, update_node-IsTree}

-- What the existing row is made into before it is written.
abbrev merged : OrgNode → OrgNode → OrgNode
merged n existing = record existing {
  name = n.name;
  parent_id = n.parent_id;
  description = n.description;
  icon = n.icon;
  metadata = n.metadata;
  sort_order = n.sort_order;
}

-- The test "If parent changed" compares the new parent with itself, so MoveNode is never called.
upsert-update :
    (host : Host) (n existing : OrgNode) (db : Db)
    → find_external n.source n.external_id db.nodes ≡ some existing
    → upsert_node_by_external_id host n db ≡ update_node host (merged n existing) db
unfolding upsert_node_by_external_id
upsert-update host n existing db e = rw (e, upsert_node_by_external_id, eq_refl n.parent_id)

upsert-create :
    (host : Host) (n : OrgNode) (db : Db)
    → find_external n.source n.external_id db.nodes ≡ none
    → upsert_node_by_external_id host n db ≡ create_node host n db
unfolding upsert_node_by_external_id
upsert-create host n db e = rw (e, upsert_node_by_external_id)

-- On a sane host, from a well-formed tree UpsertNodeByExternalID leaves a well-formed tree, on
-- every branch.
pub upsert-IsTree :
    (host : Host)
    → IsSane host
    → (n : OrgNode) (db : Db) → IsTree db.nodes
    → IsTree (after (upsert_node_by_external_id host n) db).nodes
upsert-IsTree host sane n db t =
    elim (Option-cases (find_external n.source n.external_id db.nodes)) [
      | inl fresh ↦
          subst (λ r. IsTree r.1.nodes) (sym (upsert-create host n db fresh))
            (create_node-IsTree host sane n db t)
      | inr (existing, e) ↦
          subst (λ r. IsTree r.1.nodes) (sym (upsert-update host n existing db e))
            (update_node-IsTree host (merged n existing) db t)
    ]

shape-update_node :
    (host : Host) (n : OrgNode) (db : Db) (j : String)
    → Option.map shape (find_node j (after (update_node host n) db).nodes)
      ≡ Option.map shape (find_node j db.nodes)
unfolding update_node
shape-update_node host n db j =
    ap (Option.map shape) (
      find_node-update j (λ r. (r.id == n.id) && is_live r)
        (with_fields (record n { update_at = host.clock db.clock_reads })) db.nodes (λ r. refl)
        (λ r. refl))
    ∙ same (find_node j db.nodes)
  where
    same :
        (o : Option OrgNode)
        → Option.map shape (
            Option.map
              (λ r.
                if (r.id == n.id) && is_live r
                then with_fields (record n { update_at = host.clock db.clock_reads }) r
                else r)
              o)
          ≡ Option.map shape o
    same none = refl
    same (some r) = ground arith

-- An upsert of a node that is there leaves id, parent, path, depth and deletion time of every live
-- row as they were, whatever parent it names, and it succeeds with an answer that has the named
-- parent.
pub upsert_never_moves :
    (host : Host) (n existing : OrgNode) (db : Db) (j : String)
    → find_external n.source n.external_id db.nodes ≡ some existing
    → (Option.map shape (find_node j (after (upsert_node_by_external_id host n) db).nodes)
        ≡ Option.map shape (find_node j db.nodes))
      × (m : OrgNode) × (reply (upsert_node_by_external_id host n) db ≡ ok m)
      × (m.parent_id ≡ n.parent_id)
upsert_never_moves host n existing db j e = (
  ap (λ r. Option.map shape (find_node j r.1.nodes)) (upsert-update host n existing db e)
      ∙ shape-update_node host (merged n existing) db j,
  record (merged n existing) { update_at = host.clock db.clock_reads },
  ap (λ r. r.0) (upsert-update host n existing db e) ∙ answered,
  refl,
)
  where
    answered :
        reply (update_node host (merged n existing)) db
        ≡ ok (record (merged n existing) { update_at = host.clock db.clock_reads })
    answered = unfold update_node in refl
