-- ===== src/Store/Tree/Relocate.antt =====
-- The two UPDATEs of MoveNode, as one map over the live rows.
use Prim.Native.String.{len}
use mathlib.Core.Option
use mathlib.Core.Option.{some-injective}
use mattermost_plugin_org_di.Common.{
  ℕ, ℤ, suc, String, ◌++◌, ◌==◌, ◌≡◌, refl, ap, sym, ◌∙◌, subst, Bool, true, false, ◌&&◌, Option,
  none, some, List, inl, inr, pos, ◌+ℤ◌, ◌-ℤ◌, arith, if◌then◌else◌, ==-path, ==_of_path, ==-false,
  Bool-cases,
}
use mattermost_plugin_org_di.Common.Sql.{update}
use mattermost_plugin_org_di.Common.Text.{has_slash, has_prefix, like}
use mattermost_plugin_org_di.Common.Text.Laws.{has_prefix-child, like-prefix, no_prefix_self}
use mattermost_plugin_org_di.Model.{OrgNode}
use mattermost_plugin_org_di.Store.Nodes.Rows.{is_live, find_node}
use mattermost_plugin_org_di.Store.Nodes.Move.{Position, shifted}
use mattermost_plugin_org_di.Store.Tree.Invariant.{
  IsTree, find_node-id, find_node-live, segment-has_slash, find_node-update,
}

module _ (rows : List OrgNode) (id new_parent_id : String) (n : OrgNode) (parent : Position)
    (now : ℕ) where
  abbrev pub new_path : String
  new_path = parent.path ++ ("/" ++ id)

  abbrev pub new_depth : ℤ
  new_depth = parent.depth +ℤ pos 1

  abbrev pub placed_at : OrgNode → OrgNode
  placed_at r = record r {
    parent_id = new_parent_id;
    path = new_path;
    depth = new_depth;
    update_at = now;
  }

  abbrev pub rebased : OrgNode → OrgNode
  rebased = shifted new_path (suc (len n.path)) (new_depth -ℤ n.depth) now

  abbrev pub is_descendant : OrgNode → Bool
  is_descendant r = like r.path (n.path ++ "/%") && is_live r

  abbrev pub moved_rows : List OrgNode
  moved_rows = update is_descendant rebased (update (λ r. r.id == id) placed_at rows)

  abbrev pub relocate_self : OrgNode → OrgNode
  relocate_self r = if r.id == id then placed_at r else r

  abbrev pub relocate : OrgNode → OrgNode
  relocate r =
      if is_descendant (relocate_self r) then rebased (relocate_self r) else relocate_self r

  pub find_node-moved :
      (j : String) → find_node j moved_rows ≡ Option.map relocate (find_node j rows)
  find_node-moved j =
      find_node-update j is_descendant rebased (update (λ r. r.id == id) placed_at rows) (λ r. refl)
        (λ r. refl)
      ∙ ap (Option.map (λ r. if is_descendant r then rebased r else r))
          (find_node-update j (λ r. r.id == id) placed_at rows (λ r. refl) (λ r. refl))
      ∙ map_twice (find_node j rows)
    where
      map_twice :
          (o : Option OrgNode)
          → Option.map (λ r. if is_descendant r then rebased r else r) (Option.map relocate_self o)
            ≡ Option.map relocate o
      map_twice none = refl
      map_twice (some r) = refl

  -- What the code has checked when it writes: the node is live, and the new parent is not below it.
  module _ (t : IsTree rows) (found : find_node id rows ≡ some n) (apart : ¬ (parent.path ≡ n.path))
      (outside : has_prefix parent.path (n.path ++ "/") ≡ false) where
    pub only_node : (j : String) (r : OrgNode) → find_node j rows ≡ some r → r.id ≡ id → r ≡ n
    only_node j r e same =
        some-injective r n
          (sym e ∙ ap (λ x. find_node x rows) (sym (find_node-id j rows r e) ∙ same) ∙ found)

    abbrev pub inside : OrgNode → Bool
    inside r = has_prefix r.path (n.path ++ "/")

    descendant-inside : (r : OrgNode) → is_live r ≡ true → is_descendant r ≡ inside r
    descendant-inside r live =
        rw (like-prefix r.path n.path (t.plain id n found), live) (ground arith)

    new_path-outside : has_prefix new_path (n.path ++ "/") ≡ false
    new_path-outside = elim (Bool-cases (has_prefix new_path (n.path ++ "/"))) [
      | inl in_it ↦
          elim (has_prefix-child parent.path n.path id
            (ap has_slash (sym (find_node-id id rows n found))
              ∙ segment-has_slash n.id (t.segment id n found))
            in_it) [ inl same ↦ absurd (apart same) | inr more ↦ cc (more, outside) ]
      | inr out ↦ out
    ]

    -- The moved node.
    pub relocate_node : relocate n ≡ placed_at n
    relocate_node = ground (
      arith,
      ==_of_path n.id id (find_node-id id rows n found),
      descendant-inside (placed_at n) (find_node-live id rows n found),
      new_path-outside,
    )

    -- A node below it.
    pub relocate_below :
        (j : String) (r : OrgNode)
        → find_node j rows ≡ some r
        → inside r ≡ true
        → relocate r ≡ rebased r
    relocate_below j r e h = elim (Bool-cases (r.id == id)) [
      | inl same ↦
          let self : inside n ≡ true =
            subst (λ x. inside x ≡ true) (only_node j r e (==-path r.id id same)) h in
          cc (self, no_prefix_self n.path)
      | inr other ↦ ground (arith, other, descendant-inside r (find_node-live j rows r e))
    ]

    -- Any other node.
    pub relocate_other :
        (j : String) (r : OrgNode)
        → find_node j rows ≡ some r
        → ¬ (r.id ≡ id)
        → inside r ≡ false
        → relocate r ≡ r
    relocate_other j r e other h =
        ground (arith, ==-false r.id id other, descendant-inside r (find_node-live j rows r e))
