-- ===== src/Store/Frame.antt =====
-- server/store: what the methods on nodes leave of the memberships, and the methods on memberships of
-- the nodes.
use mattermost_plugin_org_di.Common.{
  ℕ, suc, String, ◌==◌, ◌≡◌, refl, ap, true, ◌&&◌, pos, List, [], ◌∷◌, arith, inl, inr, Bool-cases,
  Option-cases, after,
}
use mattermost_plugin_org_di.Model.{OrgNode, OrgMember}
use mattermost_plugin_org_di.Store.Db.{Host, Db, IsSane}
use mattermost_plugin_org_di.Store.Tree.Delete.{cascade_keeps_members, delete_node-none}
use mattermost_plugin_org_di.Store.Tree.Invariant.{IsTree, update-IsTree}
use mattermost_plugin_org_di.Store.Members.Rows.{insert_member}
use mattermost_plugin_org_di.Store.Members.Save.{
  restore_or_insert, add_member, reorder_members_from, reorder_members,
}
use mattermost_plugin_org_di.Store.Nodes.Rows.{find_node, get_node}
use mattermost_plugin_org_di.Store.Nodes.Save.{
  insert_node, place_node, create_node, update_node, reorder_nodes_from, reorder_nodes,
}
use mattermost_plugin_org_di.Store.Nodes.Move.{node_row, parent_position, move_subtree, move_node}
use mattermost_plugin_org_di.Store.Nodes.Delete.{delete_to_parent, delete_node}

pub create_node-members :
    (host : Host) (n : OrgNode) (db : Db) → (after (create_node host n) db).members ≡ db.members
unfolding create_node place_node insert_node get_node
create_node-members host n db = ground arith

pub move_node-members :
    (host : Host) (id new_parent_id : String) (db : Db)
    → (after (move_node host id new_parent_id) db).members ≡ db.members
unfolding move_node node_row parent_position move_subtree
move_node-members host id new_parent_id db = ground arith

pub update_node-members :
    (host : Host) (n : OrgNode) (db : Db) → (after (update_node host n) db).members ≡ db.members
unfolding update_node
update_node-members host n db = refl

to_parent-members :
    (host : Host) (id strategy : String) (db : Db)
    → (strategy == "move_to_parent") ≡ true
    → (after (delete_node host id strategy) db).members ≡ db.members
unfolding delete_node delete_to_parent get_node
to_parent-members host id strategy db up = ground arith

pub delete_node-members :
    (host : Host) (sane : IsSane host) (id strategy : String) (db : Db)
    → (after (delete_node host id strategy) db).members ≡ db.members
delete_node-members host sane id strategy db = elim (Option-cases (find_node id db.nodes)) [
  | inl e ↦ ap (λ r. r.1.members) (delete_node-none host id strategy db e)
  | inr (n, e) ↦ elim (Bool-cases (strategy == "move_to_parent")) [
    | inl up ↦ to_parent-members host id strategy db up
    | inr h ↦ cascade_keeps_members host id strategy n db sane e h
  ]
]

module _ (host : Host) where
  reorder_from-members :
      (now i : ℕ) (parent_id : String) (ids : List String) (db : Db)
      → (after (reorder_nodes_from host now i parent_id ids) db).members ≡ db.members
  unfolding reorder_nodes_from
  reorder_from-members now i parent_id [] db = refl
  reorder_from-members now i parent_id (id ∷ ids) db =
      elim (Option-cases (host.update_error db.clock_reads i)) [
        | inl e ↦ rw e (reorder_from-members now (suc i) parent_id ids _)
        | inr (stopped, e) ↦ rw e refl
      ]

  pub reorder_nodes-members :
      (parent_id : String) (ids : List String) (db : Db)
      → (after (reorder_nodes host parent_id ids) db).members ≡ db.members
  unfolding reorder_nodes
  reorder_nodes-members parent_id ids db = reorder_from-members _ 0 parent_id ids _

  reorder_from-IsTree :
      (now i : ℕ) (parent_id : String) (ids : List String) (db : Db)
      → IsTree db.nodes
      → IsTree (after (reorder_nodes_from host now i parent_id ids) db).nodes
  unfolding reorder_nodes_from
  reorder_from-IsTree now i parent_id [] db t = t
  reorder_from-IsTree now i parent_id (id ∷ ids) db t =
      elim (Option-cases (host.update_error db.clock_reads i)) [
        | inl e ↦ rw e (
            reorder_from-IsTree now (suc i) parent_id ids _ (
              update-IsTree (λ n. (n.id == id) && (n.parent_id == parent_id))
                (λ n. record n { sort_order = pos i; update_at = now }) db.nodes (λ r. refl) t))
        | inr (stopped, e) ↦ rw e t
      ]

  pub reorder_nodes-IsTree :
      (parent_id : String) (ids : List String) (db : Db)
      → IsTree db.nodes
      → IsTree (after (reorder_nodes host parent_id ids) db).nodes
  unfolding reorder_nodes
  reorder_nodes-IsTree parent_id ids db t = reorder_from-IsTree _ 0 parent_id ids _ t

  pub add_member-nodes : (m : OrgMember) (db : Db) → (after (add_member host m) db).nodes ≡ db.nodes
  unfolding add_member restore_or_insert insert_member
  add_member-nodes m db = ground arith

  reorder_members_from-nodes :
      (now i : ℕ) (node_id : String) (user_ids : List String) (db : Db)
      → (after (reorder_members_from host now i node_id user_ids) db).nodes ≡ db.nodes
  unfolding reorder_members_from
  reorder_members_from-nodes now i node_id [] db = refl
  reorder_members_from-nodes now i node_id (u ∷ us) db =
      elim (Option-cases (host.update_error db.clock_reads i)) [
        | inl e ↦ rw e (reorder_members_from-nodes now (suc i) node_id us _)
        | inr (stopped, e) ↦ rw e refl
      ]

  pub reorder_members-nodes :
      (node_id : String) (user_ids : List String) (db : Db)
      → (after (reorder_members host node_id user_ids) db).nodes ≡ db.nodes
  unfolding reorder_members
  reorder_members-nodes node_id user_ids db = reorder_members_from-nodes _ 0 node_id user_ids _
