-- ===== src/Store/Tree/Moved.antt =====
-- The tree after the two UPDATEs of MoveNode.
use Prim.Native.String.{len}
use text.Mathlib.TextLemmas.{nil-append, append_assoc}
use mathlib.Core.Option
use mathlib.Core.Option.{some-injective}
use mattermost_plugin_org_di.Common.{
  ℕ, suc, String, ◌++◌, ◌==◌, ◌≡◌, refl, ap, sym, ◌∙◌, subst, Bool, true, false, some, List, ◌⊎◌,
  inl, inr, pos, negsuc, ◌+ℤ◌, ◌-ℤ◌, arith, ==-path, ==_of_path, Bool-cases, +ℤ-rebase, +ℤ-shift,
  true_ne_false, false-of-ne_true,
}
use mattermost_plugin_org_di.Common.Text.{
  is_path_text, is_segment, has_slash, has_prefix, substring_from, last_segment,
}
use mattermost_plugin_org_di.Common.Text.Laws.{
  has_prefix-child, has_prefix_extend, has_prefix_of_child, is_path_text_right, is_path_text-append,
  is_path_text-child, no_prefix_nil, substring_from-prefix, substring_from-append,
}
use mattermost_plugin_org_di.Model.{OrgNode}
use mattermost_plugin_org_di.Store.Nodes.Rows.{find_node}
use mattermost_plugin_org_di.Store.Nodes.Move.{Position}
use mattermost_plugin_org_di.Store.Tree.Invariant.{
  IsChild, IsPlaced, IsTree, find_node-id, same_path, no_empty_id, IsPlaced-last_segment,
  segment-has_slash, update-HasKeys, map_found,
}
use mattermost_plugin_org_di.Store.Tree.Relocate.{
  moved_rows, relocate, placed_at, rebased, find_node-moved, only_node, relocate_node,
  relocate_below, relocate_other,
}

-- Where the moved node goes: to the root, or under a live node.
abbrev pub IsAnchor : List OrgNode → String → Position → Type 0
IsAnchor rows new_parent_id parent =
    ((new_parent_id ≡ "") × (parent.path ≡ "") × (parent.depth ≡ negsuc 0))
    ⊎ ((q : OrgNode) × (find_node new_parent_id rows ≡ some q)
        × (q.path ≡ parent.path)
        × (q.depth ≡ parent.depth))

module _ (rows : List OrgNode) (id new_parent_id : String) (n : OrgNode) (parent : Position)
    (now : ℕ) (t : IsTree rows) (found : find_node id rows ≡ some n)
    (apart : ¬ (parent.path ≡ n.path)) (outside : has_prefix parent.path (n.path ++ "/") ≡ false)
    (anchor : IsAnchor rows new_parent_id parent) where
  abbrev rows' : List OrgNode
  rows' = moved_rows rows id new_parent_id n parent now

  abbrev move : OrgNode → OrgNode
  move = relocate rows id new_parent_id n parent now

  abbrev in_it : OrgNode → Bool
  in_it r = has_prefix r.path (n.path ++ "/")

  find' : (j : String) (r : OrgNode) → find_node j rows ≡ some r → find_node j rows' ≡ some (move r)
  find' j r e = find_node-moved rows id new_parent_id n parent now j ∙ ap (Option.map move) e

  move_node_self : move n ≡ placed_at rows id new_parent_id n parent now n
  move_node_self = relocate_node rows id new_parent_id n parent now t found apart outside

  move_below :
      (j : String) (r : OrgNode)
      → find_node j rows ≡ some r
      → in_it r ≡ true
      → move r ≡ rebased rows id new_parent_id n parent now r
  move_below = relocate_below rows id new_parent_id n parent now t found apart outside

  move_other :
      (j : String) (r : OrgNode)
      → find_node j rows ≡ some r
      → ¬ (r.id ≡ id)
      → in_it r ≡ false
      → move r ≡ r
  move_other = relocate_other rows id new_parent_id n parent now t found apart outside

  only : (j : String) (r : OrgNode) → find_node j rows ≡ some r → r.id ≡ id → r ≡ n
  only = only_node rows id new_parent_id n parent now t found apart outside

  -- The new parent stays where it is.
  anchor_stays :
      (q : OrgNode) → find_node new_parent_id rows ≡ some q → q.path ≡ parent.path → move q ≡ q
  anchor_stays q e same =
      move_other new_parent_id q e
        (λ self. apart (sym same ∙ ap (λ x. x.path) (only new_parent_id q e self)))
        (subst (λ s. has_prefix s (n.path ++ "/") ≡ false) (sym same) outside)

  own : n.id ≡ id
  own = find_node-id id rows n found

  self-IsPlaced :
      IsAnchor rows new_parent_id parent
      → IsPlaced rows' (placed_at rows id new_parent_id n parent now n)
  unfolding ◌+ℤ◌
  self-IsPlaced (inl (top, path, depth)) = inl (
    top,
    ap (λ s. s ++ ("/" ++ id)) path ∙ nil-append ("/" ++ id) ∙ ap (λ s. "/" ++ s) (sym own),
    ap (λ d. d +ℤ pos 1) depth,
  )
  self-IsPlaced (inr (q, e, path, depth)) = inr (
    q,
    find' new_parent_id q e ∙ ap some (anchor_stays q e path),
    (cc (path, own), ap (λ d. d +ℤ pos 1) (sym depth)),
  )

  abbrev tail_of : OrgNode → String
  tail_of r = substring_from (suc (len n.path)) r.path

  abbrev top : String
  top = parent.path ++ ("/" ++ id)

  n_plain : is_path_text n.path ≡ true
  n_plain = t.plain id n found

  -- The path of a node below the moved one, under its own parent.
  tail_of-child :
      (p r : OrgNode)
      → in_it p ≡ true
      → r.path ≡ p.path ++ ("/" ++ r.id)
      → top ++ tail_of r ≡ (top ++ tail_of p) ++ ("/" ++ r.id)
  tail_of-child p r h path =
      let whole : r.path ≡ n.path ++ (tail_of p ++ ("/" ++ r.id)) =
        path
        ∙ ap (λ s. s ++ ("/" ++ r.id)) (substring_from-prefix n.path p.path n_plain h)
        ∙ append_assoc n.path (tail_of p) ("/" ++ r.id) in
      ap (λ s. top ++ s)
        (ap (substring_from (suc (len n.path))) whole
          ∙ substring_from-append n.path (tail_of p ++ ("/" ++ r.id)) n_plain)
      ∙ sym (append_assoc top (tail_of p) ("/" ++ r.id))

  tail_of-first :
      (r : OrgNode) → r.path ≡ n.path ++ ("/" ++ r.id) → top ++ tail_of r ≡ top ++ ("/" ++ r.id)
  tail_of-first r path =
      ap (λ s. top ++ s)
        (ap (substring_from (suc (len n.path))) path
          ∙ substring_from-append n.path ("/" ++ r.id) n_plain)

  n_path_ne : ¬ ("" ≡ n.path)
  unfolding last_segment
  n_path_ne empty =
      let blank : "" ≡ id =
        ap last_segment empty
        ∙ IsPlaced-last_segment rows n (t.placed id n found) (t.segment id n found)
        ∙ own in
      no_empty_id t n (ap (λ x. find_node x rows) blank ∙ found)

  no_slash : (j : String) (r : OrgNode) → find_node j rows ≡ some r → has_slash r.id ≡ false
  no_slash j r e = segment-has_slash r.id (t.segment j r e)

  below-IsPlaced :
      (j : String) (r : OrgNode)
      → find_node j rows ≡ some r
      → in_it r ≡ true
      → IsPlaced rows r
      → IsPlaced rows' (rebased rows id new_parent_id n parent now r)
  below-IsPlaced j r e h (inl root) =
      let h' : has_prefix ("" ++ ("/" ++ r.id)) (n.path ++ "/") ≡ true =
        subst (λ s. has_prefix s (n.path ++ "/") ≡ true) (root.1 ∙ sym (nil-append ("/" ++ r.id)))
          h in
      elim (has_prefix-child "" n.path r.id (no_slash j r e) h') [
        | inl empty ↦ absurd (n_path_ne empty)
        | inr more ↦ absurd (true_ne_false (sym more ∙ no_prefix_nil n.path))
      ]
  below-IsPlaced j r e h (inr (p, ep, child)) =
      elim (has_prefix-child p.path n.path r.id (no_slash j r e)
        (subst (λ s. has_prefix s (n.path ++ "/") ≡ true) child.0 h)) [
          | inl first ↦
              let one : p ≡ n =
                only r.parent_id p ep (same_path t r.parent_id id p n ep found first ∙ own) in
              inr (
                placed_at rows id new_parent_id n parent now n,
                find' r.parent_id p ep ∙ ap some (ap move one ∙ move_node_self),
                (
                  tail_of-first r (child.0 ∙ ap (λ s. s ++ ("/" ++ r.id)) first),
                  +ℤ-rebase r.depth n.depth (parent.depth +ℤ pos 1)
                      (child.1 ∙ ap (λ x. x.depth +ℤ pos 1) one),
                ),
              )
          | inr deeper ↦ inr (
            rebased rows id new_parent_id n parent now p,
            find' r.parent_id p ep ∙ ap some (move_below r.parent_id p ep deeper),
            (
              tail_of-child p r deeper child.0,
              +ℤ-shift r.depth p.depth ((parent.depth +ℤ pos 1) -ℤ n.depth) child.1,
            ),
          )
        ]

  parent_ne :
      (p r : OrgNode)
      → find_node r.parent_id rows ≡ some p
      → IsChild p r
      → in_it r ≡ false
      → ¬ (p.id ≡ id)
  parent_ne p r ep child h self = true_ne_false (
      sym (has_prefix_of_child n.path r.id)
      ∙ ap (λ s. has_prefix (s ++ ("/" ++ r.id)) (n.path ++ "/"))
          (sym (ap (λ x. x.path) (only r.parent_id p ep self)))
      ∙ ap (λ s. has_prefix s (n.path ++ "/")) (sym child.0)
      ∙ h)

  parent_out : (p r : OrgNode) → IsChild p r → in_it r ≡ false → in_it p ≡ false
  parent_out p r child h = false-of-ne_true (in_it p) (λ deeper. true_ne_false (
      sym (has_prefix_extend p.path ("/" ++ r.id) (n.path ++ "/") deeper)
      ∙ ap (λ s. has_prefix s (n.path ++ "/")) (sym child.0)
      ∙ h))

  other-IsPlaced :
      (j : String) (r : OrgNode)
      → find_node j rows ≡ some r
      → in_it r ≡ false
      → IsPlaced rows r
      → IsPlaced rows' r
  other-IsPlaced j r e h (inl root) = inl root
  other-IsPlaced j r e h (inr (p, ep, child)) = inr (
    p,
    find' r.parent_id p ep
        ∙ ap some (move_other r.parent_id p ep (parent_ne p r ep child h) (parent_out p r child h)),
    child,
  )

  -- A node stands on one of three sides of the move.
  data Side (r : OrgNode) : Type 0 where
    self : r ≡ n → Side r
    under : in_it r ≡ true → move r ≡ rebased rows id new_parent_id n parent now r → Side r
    other : in_it r ≡ false → move r ≡ r → Side r

  side : (j : String) (r : OrgNode) → find_node j rows ≡ some r → Side r
  side j r e = elim (Bool-cases (in_it r)) [
    | inl inner ↦ under inner (move_below j r e inner)
    | inr outer ↦ elim (Bool-cases (r.id == id)) [
      | inl same ↦ self (only j r e (==-path r.id id same))
      | inr differ ↦
          other outer (
            move_other j r e (λ same. true_ne_false (sym (==_of_path r.id id same) ∙ differ)) outer)
    ]
  ]

  any-IsPlaced : (j : String) (r : OrgNode) → find_node j rows ≡ some r → IsPlaced rows' (move r)
  any-IsPlaced j r e = elim (side j r e) [
    | self one ↦ subst (IsPlaced rows') (sym (ap move one ∙ move_node_self)) (self-IsPlaced anchor)
    | under inner to ↦ subst (IsPlaced rows') (sym to) (below-IsPlaced j r e inner (t.placed j r e))
    | other outer to ↦ subst (IsPlaced rows') (sym to) (other-IsPlaced j r e outer (t.placed j r e))
  ]

  parent_plain : IsAnchor rows new_parent_id parent → is_path_text parent.path ≡ true
  unfolding is_path_text
  parent_plain (inl (none_above, path, depth)) = ap is_path_text path
  parent_plain (inr (q, e, path, depth)) = ap is_path_text (sym path) ∙ t.plain new_parent_id q e

  top_plain : is_path_text top ≡ true
  top_plain =
      is_path_text-child parent.path id (parent_plain anchor)
        (ap is_segment (sym own) ∙ t.segment id n found)

  any_plain :
      (j : String) (r : OrgNode) → find_node j rows ≡ some r → is_path_text (move r).path ≡ true
  any_plain j r e = elim (side j r e) [
    | self one ↦ ap (λ x. is_path_text x.path) (ap move one ∙ move_node_self) ∙ top_plain
    | under inner to ↦
        ap (λ x. is_path_text x.path) to
        ∙ is_path_text-append top (tail_of r) top_plain (
            is_path_text_right n.path (tail_of r) (
              ap is_path_text (sym (substring_from-prefix n.path r.path n_plain inner))
              ∙ t.plain j r e))
    | other outer to ↦ ap (λ x. is_path_text x.path) to ∙ t.plain j r e
  ]

  origin :
      (j : String) (m : OrgNode)
      → find_node j rows' ≡ some m
      → (r : OrgNode) × (find_node j rows ≡ some r) × (move r ≡ m)
  origin j m e =
      map_found move (find_node j rows) m
        (sym (find_node-moved rows id new_parent_id n parent now j) ∙ e)

  move_id : (r : OrgNode) → (move r).id ≡ r.id
  move_id r = ground arith

  pub moved-IsTree : IsTree rows'
  moved-IsTree = record {
    keys =
        update-HasKeys _ (rebased rows id new_parent_id n parent now) _ (λ r. refl)
          (update-HasKeys (λ r. r.id == id) (placed_at rows id new_parent_id n parent now) rows
            (λ r. refl) t.keys);
    placed = λ j m e.
        let (r, er, same) = origin j m e in subst (IsPlaced rows') same (any-IsPlaced j r er);
    segment = λ j m e.
        let (r, er, same) = origin j m e in
        ap is_segment (ap (λ x. x.id) (sym same) ∙ move_id r) ∙ t.segment j r er;
    plain = λ j m e.
        let (r, er, same) = origin j m e in
        ap (λ x. is_path_text x.path) (sym same) ∙ any_plain j r er;
  }
