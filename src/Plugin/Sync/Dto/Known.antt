-- ===== src/Plugin/Sync/Dto/Known.antt =====
-- server/api_sync.go: the first loop of buildSyncNodeDTOsWithPool, over the nodes.
use mattermost_plugin_org_di.Common.{
  String, ◌==◌, ◌≡◌, ap, sym, ◌∙◌, Bool, true, false, ◌||◌, some, List, [], ◌∷◌, contains, arith,
  inl, inr, Bool-cases, Option-cases, ==-path, eq_refl, All,
}
use mattermost_plugin_org_di.Common.Sql.{append_row}
use mattermost_plugin_org_di.Model.{OrgNode}
use mattermost_plugin_org_di.Store.Nodes.Rows.{find_node}
use mattermost_plugin_org_di.Plugin.Sync.Dto.{
  pooled, Texts, lookup, is_some, Parents, resolve_node, resolve_nodes,
}

-- The nodes of the pool are the rows that GetNode finds.
abbrev pub IsPool : List OrgNode → List OrgNode → Type 0
IsPool rows pool = All (λ p. find_node p.id rows ≡ some p) pool

-- What the map says is the external id of the node.
abbrev pub IsSound : List OrgNode → Texts → Type 0
IsSound rows m =
    (id text : String)
    → lookup id m ≡ some text
    → (p : OrgNode) × (find_node id rows ≡ some p) × (p.external_id ≡ text)

pub IsSound-cons :
    (rows : List OrgNode) (m : Texts) (id : String) (p : OrgNode)
    → find_node id rows ≡ some p
    → IsSound rows m
    → IsSound rows ((id, p.external_id) ∷ m)
unfolding lookup
IsSound-cons rows m id p found sound key text e = elim (Bool-cases (id == key)) [
  | inl here ↦
      (p, ap (λ k. find_node k rows) (sym (==-path id key here)) ∙ found, ground (arith, e, here))
  | inr other ↦ sound key text (ground (arith, e, other))
]

pooled-found :
    (rows pool : List OrgNode) (id : String) (p : OrgNode)
    → IsPool rows pool
    → pooled id pool ≡ some p
    → find_node id rows ≡ some p
unfolding pooled
pooled-found rows [] id p h e = cc
pooled-found rows (n ∷ ns) id p h e = elim (Option-cases (pooled id ns)) [
  | inr (m, later) ↦ pooled-found rows ns id p h.1 (ground (arith, later, e))
  | inl none_later ↦ elim (Bool-cases (n.id == id)) [
    | inr other ↦ absurd (ground (arith, none_later, other, e))
    | inl here ↦
        let same : n ≡ p = ground (arith, none_later, here, e) in
        ap (λ k. find_node k rows) (sym (==-path n.id id here)) ∙ h.0 ∙ ap some same
  ]
]

-- The parent of the node is resolved, or will be asked for.
abbrev pub knows : Parents → String → Bool
knows s id = is_some (lookup id s.resolved) || contains id s.unresolved

contains-append_row :
    (id x : String) (xs : List String)
    → contains id (append_row xs x) ≡ (contains id xs || (id == x))
contains-append_row id x [] = ground arith
contains-append_row id x (y ∷ ys) = ground (arith, contains-append_row id x ys)

resolve_node-knows :
    (pool : List OrgNode) (s : Parents) (n : OrgNode) (id : String)
    → knows s id ≡ true
    → knows (resolve_node pool s n) id ≡ true
unfolding resolve_node lookup
resolve_node-knows pool s n id h = ground (arith, contains-append_row id n.parent_id s.unresolved)

resolve_node-own :
    (pool : List OrgNode) (s : Parents) (n : OrgNode)
    → (n.parent_id == "") ≡ false
    → knows (resolve_node pool s n) n.parent_id ≡ true
unfolding resolve_node lookup
resolve_node-own pool s n h =
    ground (arith, eq_refl n.parent_id, contains-append_row n.parent_id n.parent_id s.unresolved)

resolve_node-IsSound :
    (rows pool : List OrgNode) (s : Parents) (n : OrgNode)
    → IsPool rows pool
    → IsSound rows s.resolved
    → IsSound rows (resolve_node pool s n).resolved
unfolding resolve_node
resolve_node-IsSound rows pool s n h sound = elim (Bool-cases (n.parent_id == "")) [
  | inl root ↦ rw root sound
  | inr child ↦ elim (Bool-cases (is_some (lookup n.parent_id s.resolved))) [
    | inl known ↦ rw (child, known) sound
    | inr new ↦ elim (Option-cases (pooled n.parent_id pool)) [
      | inr (p, e) ↦
          rw (child, new, e)
            (IsSound-cons rows s.resolved n.parent_id p (pooled-found rows pool n.parent_id p h e)
              sound)
      | inl missing ↦ elim (Bool-cases (contains n.parent_id s.unresolved)) [
        | inl again ↦ rw (child, new, missing, again) sound
        | inr first ↦ rw (child, new, missing, first) sound
      ]
    ]
  ]
]

pub resolve_nodes-IsSound :
    (rows pool : List OrgNode) (s : Parents) (ns : List OrgNode)
    → IsPool rows pool
    → IsSound rows s.resolved
    → IsSound rows (resolve_nodes pool s ns).resolved
unfolding resolve_nodes
resolve_nodes-IsSound rows pool s [] h sound = sound
resolve_nodes-IsSound rows pool s (n ∷ ns) h sound =
    resolve_nodes-IsSound rows pool (resolve_node pool s n) ns h
      (resolve_node-IsSound rows pool s n h sound)

resolve_nodes-knows :
    (pool : List OrgNode) (s : Parents) (ns : List OrgNode) (id : String)
    → knows s id ≡ true
    → knows (resolve_nodes pool s ns) id ≡ true
unfolding resolve_nodes
resolve_nodes-knows pool s [] id h = h
resolve_nodes-knows pool s (n ∷ ns) id h =
    resolve_nodes-knows pool (resolve_node pool s n) ns id (resolve_node-knows pool s n id h)

-- Every node has no parent, or one that is known.
abbrev pub KnowsParent : Parents → OrgNode → Type 0
KnowsParent s n = (n.parent_id == "") ≡ false → knows s n.parent_id ≡ true

pub resolve_nodes-parents :
    (pool : List OrgNode) (s : Parents) (ns : List OrgNode)
    → All (KnowsParent (resolve_nodes pool s ns)) ns
unfolding resolve_nodes
resolve_nodes-parents pool s [] = tt
resolve_nodes-parents pool s (n ∷ ns) = (
  λ child.
      resolve_nodes-knows pool (resolve_node pool s n) ns n.parent_id
        (resolve_node-own pool s n child),
  resolve_nodes-parents pool (resolve_node pool s n) ns,
)
