-- ===== src/Store/Tree/Reparent.antt =====
-- DeleteNode of server/store/node_store.go by "move_to_parent", and the tree.
use mattermost_plugin_org_di.Common.{
  ℕ, suc, String, ◌==◌, ◌≡◌, refl, ap, sym, ◌∙◌, subst, Bool, true, ◌&&◌, some, inl, inr, pos, ◌+ℤ◌,
  arith, if◌then◌else◌, ==-path, ==_of_path, Bool-cases, after, suc,
}
use mathlib.Core.Option
use mathlib.Core.Option.{some-injective}
use mattermost_plugin_org_di.Common.{+ℤ-one_ne, +ℤ-one_inj, +ℤ-one_zero}
use mattermost_plugin_org_di.Common.Sql.{update}
use mattermost_plugin_org_di.Model.{OrgNode}
use mattermost_plugin_org_di.Store.Db.{Host, Db, IsSane}
use mattermost_plugin_org_di.Store.Nodes.Rows.{is_live, find_node, deleted_at}
use mattermost_plugin_org_di.Store.Nodes.Delete.{delete_to_parent, delete_node}
use mattermost_plugin_org_di.Store.Tree.Invariant.{
  IsChild, IsPlaced, IsTree, find_node-id, find_node-live, no_empty_id, update-HasKeys,
  find_node-update,
}
use mattermost_plugin_org_di.Store.Tree.Delete.{find_node-deleted, unless}

-- The rows after the two UPDATEs of the strategy.
module _ (host : Host) (id : String) (n : OrgNode) (db : Db) (sane : IsSane host)
    (t : IsTree db.nodes) (found : find_node id db.nodes ≡ some n) where
  abbrev now : ℕ
  now = host.clock db.clock_reads

  abbrev adopted : OrgNode → OrgNode
  adopted c = record c { parent_id = n.parent_id; update_at = now }

  abbrev is_child : OrgNode → Bool
  is_child c = (c.parent_id == id) && is_live c

  delete_node-reparent :
      delete_node host id "move_to_parent" db
      ≡ delete_to_parent id n.parent_id now (record db { clock_reads = suc db.clock_reads })
  unfolding delete_node delete_to_parent
  delete_node-reparent = rw found

  nodes-reparent :
      (after (delete_node host id "move_to_parent") db).nodes
      ≡ update (λ r. r.id == id) (deleted_at now) (update is_child adopted db.nodes)
  nodes-reparent = ap (λ r. r.1.nodes) delete_node-reparent ∙ unfold delete_to_parent in refl

  find_node-reparent :
      (j : String)
      → find_node j (after (delete_node host id "move_to_parent") db).nodes
        ≡ unless
            (λ r. r.id == id)
            (Option.map (λ r. if is_child r then adopted r else r) (find_node j db.nodes))
  find_node-reparent j =
      ap (find_node j) nodes-reparent
      ∙ find_node-deleted j (λ r. r.id == id) now (update is_child adopted db.nodes)
          (sane.clock_pos db.clock_reads)
          (update-HasKeys is_child adopted db.nodes (λ r. refl) t.keys)
      ∙ ap (unless (λ r. r.id == id))
          (find_node-update j is_child adopted db.nodes (λ r. refl) (λ r. refl))

  -- A live child keeps its path and depth and hangs under the grandparent.
  child-reparent :
      (j : String) (c : OrgNode)
      → find_node j db.nodes ≡ some c
      → c.parent_id ≡ id
      → IsChild n c
      → find_node j (after (delete_node host id "move_to_parent") db).nodes ≡ some (adopted c)
  child-reparent j c e under child = elim (Bool-cases (c.id == id)) [
    | inl self ↦
        absurd (+ℤ-one_ne c.depth (child.1 ∙ ap (λ x. x.depth +ℤ pos 1) (sym (itself self))))
    | inr other ↦
        find_node-reparent j
        ∙ ap
            (λ o.
              unless (λ r. r.id == id) (Option.map (λ r. if is_child r then adopted r else r) o))
            e
        ∙ ground (arith, other, find_node-live j db.nodes c e, ==_of_path c.parent_id id under)
  ]
    where
      itself : (c.id == id) ≡ true → c ≡ n
      itself self = some-injective c n (
          sym e
          ∙ ap (λ x. find_node x db.nodes)
              (sym (find_node-id j db.nodes c e) ∙ ==-path c.id id self)
          ∙ found)

  parent_before :
      (c : OrgNode) (j : String)
      → find_node j db.nodes ≡ some c
      → c.parent_id ≡ id
      → IsPlaced db.nodes c
      → IsChild n c
  parent_before c j e under (inl root) =
      absurd (no_empty_id t n (ap (λ x. find_node x db.nodes) (sym root.0 ∙ under) ∙ found))
  parent_before c j e under (inr (p, ep, child)) =
      subst (λ x. IsChild x c)
        (some-injective p n (sym ep ∙ ap (λ x. find_node x db.nodes) under ∙ found)) child

  -- The depth of a live parent after the deletion is its depth before.
  parent_depth :
      (i : String) (p p' : OrgNode)
      → find_node i db.nodes ≡ some p
      → find_node i (after (delete_node host id "move_to_parent") db).nodes ≡ some p'
      → p'.depth ≡ p.depth
  parent_depth i p p' e e' = ground (arith, sym (find_node-reparent i) ∙ e', e)

  -- A child one level below `n` cannot hang under the parent of `n`.
  misplaced :
      (c : OrgNode)
      → IsChild n c
      → IsTree (after (delete_node host id "move_to_parent") db).nodes
      → IsPlaced db.nodes n
      → IsPlaced (after (delete_node host id "move_to_parent") db).nodes (adopted c)
      → ⊥
  misplaced c child t' (inl root) (inl root') =
      +ℤ-one_zero (sym root'.2 ∙ child.1 ∙ ap (λ d. d +ℤ pos 1) root.2)
  misplaced c child t' (inl root) (inr (p', ep', child')) = no_empty_id t' p' (
      ap (λ x. find_node x (after (delete_node host id "move_to_parent") db).nodes) (sym root.0)
      ∙ ep')
  misplaced c child t' (inr (p, ep, up)) (inl root') =
      no_empty_id t p (ap (λ x. find_node x db.nodes) (sym root'.0) ∙ ep)
  misplaced c child t' (inr (p, ep, up)) (inr (p', ep', child')) = +ℤ-one_ne p.depth (
      sym (parent_depth n.parent_id p p' ep ep')
      ∙ +ℤ-one_inj p'.depth n.depth (sym child'.1 ∙ child.1)
      ∙ up.1)

  -- On a sane host and a well-formed tree, deleting a live node that has a live child by
  -- "move_to_parent" leaves a tree that is not well-formed.
  pub reparent_breaks-IsTree :
      (j : String) (c : OrgNode)
      → find_node j db.nodes ≡ some c
      → c.parent_id ≡ id
      → ¬ IsTree (after (delete_node host id "move_to_parent") db).nodes
  reparent_breaks-IsTree j c e under after_tree =
      let child : IsChild n c = parent_before c j e under (t.placed j c e) in
      misplaced c child after_tree (t.placed id n found)
        (after_tree.placed j (adopted c) (child-reparent j c e under child))
