-- ===== src/Plugin/Sync/Dto.antt =====
-- server/api_sync.go: the nodes of the query API with the external ids of their parents,
-- buildSyncNodeDTO and buildSyncNodeDTOsWithPool. A Go map is a list of pairs, the last written first.
pub mod Pool
pub mod Known
use Prim.Native.Nat.{Ordering}
use Prim.Native.String.{compare}
use mattermost_plugin_org_di.Common.{
  ℕ, String, ◌==◌, Bool, true, false, ◌&&◌, ◌||◌, not, Option, none, some, List, [], ◌∷◌, map,
  contains, ltb_ℤ, eqb_ℤ, if◌then◌else◌,
}
use mattermost_plugin_org_di.Common.Sql.{order_by, append_row}
use mattermost_plugin_org_di.Model.{OrgNode}
use mattermost_plugin_org_di.Store.Nodes.Rows.{find_node}

-- SyncNodeDTO
pub record SyncNodeDto : Type 0 where
  pub node : OrgNode
  pub parent_external_id : String

-- buildSyncNodeDTO
unfoldable pub build_sync_node_dto : List OrgNode → OrgNode → SyncNodeDto
unfolding find_node
build_sync_node_dto rows n = record {
  node = n;
  parent_external_id =
      if n.parent_id == ""
      then ""
      else (elim (find_node n.parent_id rows) [ none ↦ "" | some parent ↦ parent.external_id ]);
}

-- Go's < on strings
abbrev text_less : String → String → Bool
text_less a b = elim (compare a b) [ Ordering.lt ↦ true | _ ↦ false ]

-- The order of sort.SliceStable: depth, sort_order, path, name.
abbrev pub by_position : OrgNode → OrgNode → Bool
by_position a b =
    if not (eqb_ℤ a.depth b.depth)
    then ltb_ℤ a.depth b.depth
    else if not (eqb_ℤ a.sort_order b.sort_order)
    then ltb_ℤ a.sort_order b.sort_order
    else if not (a.path == b.path)
    then text_less a.path b.path
    else text_less a.name b.name

-- poolByID[id], where a later node of the pool overwrites an earlier one.
unfoldable pub pooled : String → List OrgNode → Option OrgNode
pooled id [] = none
pooled id (n ∷ ns) = elim (pooled id ns) [
  | some m ↦ some m
  | none ↦ if n.id == id then some n else none
]

abbrev pub Texts : Type 0
Texts = List (String × String)

unfoldable pub lookup : String → Texts → Option String
lookup key [] = none
lookup key ((k, v) ∷ m) = if k == key then some v else lookup key m

abbrev pub is_some : Option String → Bool
is_some none = false
is_some (some s) = true

-- parentExternalIDByParentID and unresolvedParentIDs
pub record Parents : Type 0 where
  pub resolved : Texts
  pub unresolved : List String

abbrev unresolved_too : String → Parents → Parents
unresolved_too id s =
    if contains id s.unresolved then s else record s { unresolved = append_row s.unresolved id }

-- One round of the loop over the nodes.
unfoldable pub resolve_node : List OrgNode → Parents → OrgNode → Parents
unfolding pooled lookup
resolve_node pool s n =
    if n.parent_id == ""
    then s
    else if is_some (lookup n.parent_id s.resolved)
    then s
    else (elim (pooled n.parent_id pool) [
      | some parent ↦ record s { resolved = (n.parent_id, parent.external_id) ∷ s.resolved }
      | none ↦ unresolved_too n.parent_id s
    ])

unfoldable pub resolve_nodes : List OrgNode → Parents → List OrgNode → Parents
unfolding resolve_node
resolve_nodes pool s [] = s
resolve_nodes pool s (n ∷ ns) = resolve_nodes pool (resolve_node pool s n) ns

-- GetNode for each id that the pool lacks.
unfoldable pub fetch : List OrgNode → Texts → List String → Texts
unfolding find_node
fetch rows m [] = m
fetch rows m (id ∷ ids) =
    fetch rows (elim (find_node id rows) [ none ↦ m | some parent ↦ (id, parent.external_id) ∷ m ])
      ids

abbrev pub or_empty : Option String → String
or_empty none = ""
or_empty (some s) = s

abbrev pub dto_from : Texts → OrgNode → SyncNodeDto
dto_from m n = record {
  node = n;
  parent_external_id = if n.parent_id == "" then "" else or_empty (lookup n.parent_id m);
}

abbrev pub texts_of : List OrgNode → List OrgNode → List OrgNode → Texts
texts_of rows pool nodes =
    let s = resolve_nodes pool (record { resolved = []; unresolved = [] }) nodes in
    fetch rows s.resolved s.unresolved

-- buildSyncNodeDTOsWithPool, where `rows` is the table of nodes
unfoldable pub build_sync_node_dtos_with_pool :
    List OrgNode → List OrgNode → List OrgNode → List SyncNodeDto
unfolding resolve_nodes fetch lookup
build_sync_node_dtos_with_pool rows nodes pool =
    let sorted = order_by by_position nodes in map (dto_from (texts_of rows pool sorted)) sorted

-- buildSyncNodeDTOs: the sort in place sorts the pool too, which is the same slice.
unfoldable pub build_sync_node_dtos : List OrgNode → List OrgNode → List SyncNodeDto
unfolding build_sync_node_dtos_with_pool
build_sync_node_dtos rows nodes =
    build_sync_node_dtos_with_pool rows nodes (order_by by_position nodes)
