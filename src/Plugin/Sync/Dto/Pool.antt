-- ===== src/Plugin/Sync/Dto/Pool.antt =====
-- server/api_sync.go: the pool of parents.
use mattermost_plugin_org_di.Common.{
  String, ◌==◌, ◌≡◌, refl, ap, sym, ◌∙◌, true, none, some, List, [], ◌∷◌, map, contains, arith, inl,
  inr, Bool-cases, Option-cases, ==-path, eq_iff, All,
}
use mattermost_plugin_org_di.Common.Sql.{order_by}
use mattermost_plugin_org_di.Model.{OrgNode}
use mattermost_plugin_org_di.Store.Nodes.Rows.{find_node}
use mattermost_plugin_org_di.Plugin.Sync.Dto.{
  SyncNodeDto, build_sync_node_dto, by_position, Texts, lookup, is_some, Parents, resolve_nodes,
  fetch, or_empty, dto_from, build_sync_node_dtos_with_pool,
}
use mattermost_plugin_org_di.Plugin.Sync.Dto.Known.{
  IsPool, IsSound, IsSound-cons, resolve_nodes-IsSound, KnowsParent, resolve_nodes-parents,
}

fetch-IsSound :
    (rows : List OrgNode) (m : Texts) (ids : List String)
    → IsSound rows m
    → IsSound rows (fetch rows m ids)
unfolding fetch
fetch-IsSound rows m [] sound = sound
fetch-IsSound rows m (id ∷ ids) sound = elim (Option-cases (find_node id rows)) [
  | inl e ↦ rw e (fetch-IsSound rows m ids sound)
  | inr (p, e) ↦ rw e (fetch-IsSound rows _ ids (IsSound-cons rows m id p e sound))
]

fetch-kept :
    (rows : List OrgNode) (m : Texts) (ids : List String) (id : String)
    → is_some (lookup id m) ≡ true
    → is_some (lookup id (fetch rows m ids)) ≡ true
unfolding fetch lookup
fetch-kept rows m [] id h = h
fetch-kept rows m (x ∷ xs) id h = elim (Option-cases (find_node x rows)) [
  | inl e ↦ rw e (fetch-kept rows m xs id h)
  | inr (p, e) ↦ rw e (fetch-kept rows _ xs id (ground arith))
]

fetch-asked :
    (rows : List OrgNode) (m : Texts) (ids : List String) (id : String) (p : OrgNode)
    → contains id ids ≡ true
    → find_node id rows ≡ some p
    → is_some (lookup id (fetch rows m ids)) ≡ true
unfolding fetch lookup
fetch-asked rows m [] id p h found = cc
fetch-asked rows m (x ∷ xs) id p h found = elim (Bool-cases (id == x)) [
  | inr other ↦
      fetch-asked rows
        (elim (find_node x rows) [ none ↦ m | some parent ↦ (x, parent.external_id) ∷ m ]) xs id p
        (ground (arith, h, other)) found
  | inl here ↦
      let found_x : find_node x rows ≡ some p =
        ap (λ k. find_node k rows) (sym (==-path id x here)) ∙ found in
      rw found_x (fetch-kept rows _ xs id (ground (arith, here, eq_iff id x, eq_iff x id)))
]

-- A map that is sound, and has the id where it is a node's, gives the text that GetNode does.
text_of_node :
    (rows : List OrgNode) (m : Texts) (id : String)
    → IsSound rows m
    → ((p : OrgNode) → find_node id rows ≡ some p → is_some (lookup id m) ≡ true)
    → or_empty (lookup id m)
      ≡ (elim (find_node id rows) [ none ↦ "" | some parent ↦ parent.external_id ])
text_of_node rows m id sound has = elim (Option-cases (lookup id m)) [
  | inr (text, e) ↦ let (p, found, same) = sound id text e in rw (e, found) (sym same)
  | inl missing ↦ elim (Option-cases (find_node id rows)) [
    | inl e ↦ rw (missing, e) refl
    | inr (p, found) ↦ absurd (ground (arith, has p found, missing))
  ]
]

dto_of_node :
    (rows : List OrgNode) (s : Parents) (n : OrgNode)
    → IsSound rows s.resolved
    → KnowsParent s n
    → dto_from (fetch rows s.resolved s.unresolved) n ≡ build_sync_node_dto rows n
unfolding build_sync_node_dto
dto_of_node rows s n sound knows_parent = elim (Bool-cases (n.parent_id == "")) [
  | inl root ↦ rw root refl
  | inr child ↦ rw child (
      ap (λ text. record { node = n; parent_external_id = text })
        (text_of_node rows (fetch rows s.resolved s.unresolved) n.parent_id
          (fetch-IsSound rows s.resolved s.unresolved sound)
          (λ p found. elim (Bool-cases (is_some (lookup n.parent_id s.resolved))) [
            | inl known ↦ fetch-kept rows s.resolved s.unresolved n.parent_id known
            | inr new ↦
                fetch-asked rows s.resolved s.unresolved n.parent_id p
                  (ground (arith, knows_parent child, new)) found
          ])))
]

map_cong :
    (f g : OrgNode → SyncNodeDto) (ns : List OrgNode)
    → All (λ n. f n ≡ g n) ns
    → map f ns ≡ map g ns
map_cong f g [] h = refl
map_cong f g (n ∷ ns) h = ground (arith, h.0, map_cong f g ns h.1)

dtos_of_nodes :
    (rows : List OrgNode) (s : Parents) (ns : List OrgNode)
    → IsSound rows s.resolved
    → All (KnowsParent s) ns
    → All (λ n. dto_from (fetch rows s.resolved s.unresolved) n ≡ build_sync_node_dto rows n) ns
dtos_of_nodes rows s [] sound h = tt
dtos_of_nodes rows s (n ∷ ns) sound h =
    (dto_of_node rows s n sound h.0, dtos_of_nodes rows s ns sound h.1)

-- Where the nodes of the pool are rows that GetNode finds, buildSyncNodeDTOsWithPool answers what
-- buildSyncNodeDTO does for each of the nodes, in the order of depth, sort order, path and name.
pub build_dtos_with_pool_lem :
    (rows nodes pool : List OrgNode)
    → IsPool rows pool
    → build_sync_node_dtos_with_pool rows nodes pool
      ≡ map (build_sync_node_dto rows) (order_by by_position nodes)
unfolding build_sync_node_dtos_with_pool
build_dtos_with_pool_lem rows nodes pool h =
    let s : Parents =
      resolve_nodes pool (record { resolved = []; unresolved = [] }) (order_by by_position nodes) in
    map_cong _ _ (order_by by_position nodes) (
      dtos_of_nodes rows s (order_by by_position nodes)
        (resolve_nodes-IsSound rows pool _ (order_by by_position nodes) h nothing_sound)
        (resolve_nodes-parents pool _ (order_by by_position nodes)))
  where
    nothing_sound : IsSound rows []
    nothing_sound id text e = cc
