-- ===== src/Plugin/Sync/Order.antt =====
-- topologicalSortNodes of server/api_sync.go. A payload goes with its index in the request; the
-- loop over the queue has fuel, and `none` means that it ran out.
pub mod Cycle
pub mod Ids
pub mod Drain
pub mod Sorted
pub mod Counted
use mathlib.Core.List
use mattermost_plugin_org_di.Common.{
  ℕ, zero, suc, String, ◌==◌, Bool, true, false, ◌&&◌, not, Option, none, some, List, [], ◌∷◌, eqb,
  if◌then◌else◌, any, ltb, length,
}
use mattermost_plugin_org_di.Common.Sql.{select}
use mattermost_plugin_org_di.Model.Sync.{SyncNodePayload}

abbrev pub Indexed : Type 0
Indexed = ℕ × SyncNodePayload

-- The payloads with their indices, from `i` on.
unfoldable pub indexed_from : ℕ → List SyncNodePayload → List Indexed
indexed_from i [] = []
indexed_from i (p ∷ ps) = (i, p) ∷ indexed_from (suc i) ps

abbrev pub is_root : Indexed → Bool
is_root p = p.1.parent_external_id == ""

-- childrenMap[ext]: a root is in no list of children.
abbrev pub is_child_of : String → Indexed → Bool
is_child_of ext p = not (is_root p) && (p.1.parent_external_id == ext)

unfoldable pub children_of : List Indexed → String → List Indexed
children_of nodes ext = select (is_child_of ext) nodes

-- The loop over the queue, with what it has sorted so far.
unfoldable pub drain : List Indexed → ℕ → List Indexed → List Indexed → Option (List Indexed)
unfolding children_of
drain nodes fuel [] sorted = some sorted
drain nodes zero (p ∷ queue) sorted = none
drain nodes (suc fuel) (p ∷ queue) sorted =
    drain nodes fuel (List.◌++◌ queue (children_of nodes p.1.external_id))
      (List.◌++◌ sorted (p ∷ []))

-- The index of the first payload with this external id.
unfoldable pub first_index : String → List Indexed → Option ℕ
first_index ext [] = none
first_index ext ((i, p) ∷ ps) = if p.external_id == ext then some i else first_index ext ps

unfoldable pub is_added : List Indexed → List Indexed → ℕ → Bool
unfolding first_index
is_added nodes [] i = false
is_added nodes (p ∷ sorted) i =
    let later = is_added nodes sorted i in
    elim (first_index p.1.external_id nodes) [
      | none ↦ later
      | some j ↦ if eqb i j then true else later
    ]

-- "Append any remaining nodes"
unfoldable pub append_rest : List Indexed → List Indexed → List Indexed
unfolding is_added
append_rest nodes sorted =
    if ltb (length sorted) (length nodes)
    then List.◌++◌ sorted (select (λ p. not (is_added nodes sorted p.0)) nodes)
    else sorted

unfoldable pub finish : List Indexed → Option (List Indexed) → Option (List SyncNodePayload)
finish nodes none = none
finish nodes (some sorted) = some (List.map (λ p. p.1) (append_rest nodes sorted))

unfoldable pub topological_sort_nodes : ℕ → List SyncNodePayload → Option (List SyncNodePayload)
unfolding drain append_rest finish indexed_from
topological_sort_nodes fuel payloads =
    let nodes = indexed_from 0 payloads in finish nodes (drain nodes fuel (select is_root nodes) [])
