-- ===== src/Store/Tree/Cascade.antt =====
-- DeleteNode of server/store/node_store.go by the cascade, and the tree.
use mattermost_plugin_org_di.Common.{
  suc, String, ◌++◌, ◌==◌, ◌≡◌, refl, ap, sym, ◌∙◌, subst, Bool, true, false, ◌&&◌, ◌||◌, Option,
  none, some, List, inl, inr, arith, ==-path, Bool-cases, after, suc,
}
use mathlib.Core.Path.{fun_ext}
use mathlib.Core.Option.{some-injective}
use mattermost_plugin_org_di.Common.Text.{has_prefix}
use mattermost_plugin_org_di.Common.Text.Laws.{like-prefix, has_prefix_extend, has_prefix_of_child}
use mattermost_plugin_org_di.Model.{OrgNode}
use mattermost_plugin_org_di.Store.Db.{Host, Db, IsSane}
use mattermost_plugin_org_di.Store.Nodes.Rows.{is_live, find_node, deleted_at}
use mattermost_plugin_org_di.Store.Nodes.Delete.{in_subtree, delete_cascade, delete_node}
use mattermost_plugin_org_di.Store.Tree.Invariant.{
  IsChild, IsPlaced, HasKeys, IsTree, find_node-id, find_node-live, update-HasKeys,
}
use mattermost_plugin_org_di.Store.Tree.Delete.{
  ByCascade, delete_node-cascade, find_node-deleted, unless,
}

-- The subtree, read from the paths.
abbrev pub below : OrgNode → OrgNode → Bool
below n m = (has_prefix m.path (n.path ++ "/") || (m.id == n.id)) && is_live m

-- A child of a node below `n` is below `n`.
below-child :
    (rows : List OrgNode) (n p m : OrgNode) (id i j : String)
    → IsTree rows
    → find_node id rows ≡ some n
    → find_node i rows ≡ some p
    → find_node j rows ≡ some m
    → IsChild p m
    → below n p ≡ true
    → below n m ≡ true
below-child rows n p m id i j t en ep em child h =
    let live : is_live m ≡ true = find_node-live j rows m em in
    elim (Bool-cases (has_prefix p.path (n.path ++ "/"))) [
      | inl inside ↦
          let inside' : has_prefix m.path (n.path ++ "/") ≡ true =
            rw child.0 (has_prefix_extend p.path ("/" ++ m.id) (n.path ++ "/") inside) in
          ground arith
      | inr outside ↦
          let same_id : p.id ≡ n.id = ==-path p.id n.id (ground arith) in
          let same_key : i ≡ id =
            sym (find_node-id i rows p ep) ∙ same_id ∙ find_node-id id rows n en in
          let one : p ≡ n =
            some-injective p n (sym ep ∙ ap (λ x. find_node x rows) same_key ∙ en) in
          let inside' : has_prefix m.path (n.path ++ "/") ≡ true =
            rw (child.0, one) (has_prefix_of_child n.path m.id) in
          ground arith
    ]

unless-some :
    (q : OrgNode → Bool) (o : Option OrgNode) (m : OrgNode)
    → unless q o ≡ some m
    → (o ≡ some m) × (q m ≡ false)
unless-some q none m e = cc
unless-some q (some x) m e = ground arith

module _ (host : Host) (id strategy : String) (n : OrgNode) (db : Db) (sane : IsSane host)
    (t : IsTree db.nodes) (found : find_node id db.nodes ≡ some n)
    (cascade : ByCascade strategy) where
  in_subtree-below : (m : OrgNode) → in_subtree n.path id m ≡ below n m
  in_subtree-below m =
      rw (like-prefix m.path n.path (t.plain id n found), find_node-id id db.nodes n found)

  find_node-rows :
      (j : String)
      → find_node j
          (after
            (delete_cascade id n.path (host.clock db.clock_reads))
            (record db { clock_reads = suc db.clock_reads })).nodes
        ≡ unless (below n) (find_node j db.nodes)
  unfolding delete_cascade
  find_node-rows j =
      find_node-deleted j (in_subtree n.path id) (host.clock db.clock_reads) db.nodes
        (sane.clock_pos db.clock_reads) t.keys
      ∙ ap (λ q. unless q (find_node j db.nodes)) (fun_ext in_subtree-below)

  -- On a sane host and a well-formed tree, deleting the live node `n` by the cascade hides from
  -- GetNode exactly the nodes at and below `n`; every other node is found as it was.
  pub find_node-cascade :
      (j : String)
      → find_node j (after (delete_node host id strategy) db).nodes
        ≡ unless (below n) (find_node j db.nodes)
  find_node-cascade j =
      ap (λ r. find_node j r.1.nodes) (delete_node-cascade host id strategy n db found cascade)
      ∙ find_node-rows j

  survivor :
      (j : String) (m : OrgNode)
      → find_node j (after (delete_node host id strategy) db).nodes ≡ some m
      → (find_node j db.nodes ≡ some m) × (below n m ≡ false)
  survivor j m e = unless-some (below n) (find_node j db.nodes) m (sym (find_node-cascade j) ∙ e)

  keep :
      (j : String) (m : OrgNode)
      → find_node j db.nodes ≡ some m
      → below n m ≡ false
      → find_node j (after (delete_node host id strategy) db).nodes ≡ some m
  keep j m e h = rw (find_node-cascade j, e, h)

  IsPlaced-cascade :
      (j : String) (m : OrgNode)
      → find_node j db.nodes ≡ some m
      → below n m ≡ false
      → IsPlaced db.nodes m
      → IsPlaced (after (delete_node host id strategy) db).nodes m
  IsPlaced-cascade j m e h (inl root) = inl root
  IsPlaced-cascade j m e h (inr (p, ep, child)) = elim (Bool-cases (below n p)) [
    | inl gone ↦ cc (below-child db.nodes n p m id m.parent_id j t found ep e child gone)
    | inr left ↦ inr (p, keep m.parent_id p ep left, child)
  ]

  cascade-HasKeys : HasKeys (after (delete_node host id strategy) db).nodes
  cascade-HasKeys =
      subst (λ r. HasKeys r.1.nodes) (sym (delete_node-cascade host id strategy n db found cascade))
        (unfold delete_cascade in
          update-HasKeys (in_subtree n.path id) (deleted_at (host.clock db.clock_reads)) db.nodes
            (λ r. refl) t.keys)

  -- On a sane host, deleting a live node by the cascade leaves a well-formed tree of a well-formed
  -- tree.
  pub cascade-IsTree : IsTree (after (delete_node host id strategy) db).nodes
  cascade-IsTree = record {
    keys = cascade-HasKeys;
    placed = λ j m e. let (e', h) = survivor j m e in IsPlaced-cascade j m e' h (t.placed j m e');
    segment = λ j m e. t.segment j m (survivor j m e).0;
    plain = λ j m e. t.plain j m (survivor j m e).0;
  }
