-- ===== src/Plugin/Sync/Order/Cycle.antt =====
-- topologicalSortNodes of server/api_sync.go, where an external id comes twice.
use mathlib.Core.List
use mattermost_plugin_org_di.Common.{
  ℕ, zero, suc, String, ◌==◌, ◌≡◌, refl, sym, ◌∙◌, ap, subst, Bool, true, ◌&&◌, ◌||◌, not, none,
  List, [], ◌∷◌, arith, inl, inr, Bool-cases, any, ==-path,
}
use mattermost_plugin_org_di.Common.Sql.{select}
use mattermost_plugin_org_di.Model.Sync.{SyncNodePayload}
use mattermost_plugin_org_di.Plugin.Sync.Order.{
  Indexed, indexed_from, is_root, is_child_of, children_of, drain, finish, topological_sort_nodes,
}

abbrev pub has_id : String → Indexed → Bool
has_id ext p = p.1.external_id == ext

any-append_left :
    (f : Indexed → Bool) (xs ys : List Indexed) → any f xs ≡ true → any f (List.◌++◌ xs ys) ≡ true
any-append_left f [] ys h = ground arith
any-append_left f (x ∷ xs) ys h = ground (arith, any-append_left f xs ys)

any-append_right :
    (f : Indexed → Bool) (xs ys : List Indexed) → any f ys ≡ true → any f (List.◌++◌ xs ys) ≡ true
any-append_right f [] ys h = h
any-append_right f (x ∷ xs) ys h = ground (arith, any-append_right f xs ys h)

-- A child with the external id of its parent is among the children of every node with that id.
any-select :
    (f g : Indexed → Bool) (xs : List Indexed)
    → any (λ p. f p && g p) xs ≡ true
    → any f (select g xs) ≡ true
any-select f g [] h = h
any-select f g (x ∷ xs) h = ground (arith, any-select f g xs)

abbrev pub is_own_child : String → Indexed → Bool
is_own_child ext p = has_id ext p && is_child_of ext p

module _ (ext : String) (nodes : List Indexed) (own : any (is_own_child ext) nodes ≡ true) where
  any-children : (e : String) → e ≡ ext → any (has_id ext) (children_of nodes e) ≡ true
  unfolding children_of
  any-children e same =
      any-select (has_id ext) (is_child_of e) nodes
        (subst (λ x. any (λ p. has_id ext p && is_child_of x p) nodes ≡ true) (sym same) own)

  any-refilled :
      (p : Indexed) (queue : List Indexed)
      → any (has_id ext) (p ∷ queue) ≡ true
      → any (has_id ext) (List.◌++◌ queue (children_of nodes p.1.external_id)) ≡ true
  any-refilled p queue h = elim (Bool-cases (has_id ext p)) [
    | inl e ↦ any-append_right (has_id ext) queue _ (any-children p.1.external_id (==-path _ _ e))
    | inr e ↦ any-append_left (has_id ext) queue _ (ground arith)
  ]

  -- The queue never runs empty.
  pub drain-none :
      (fuel : ℕ) (queue sorted : List Indexed)
      → any (has_id ext) queue ≡ true
      → drain nodes fuel queue sorted ≡ none
  unfolding drain
  drain-none fuel [] sorted h = cc
  drain-none zero (p ∷ queue) sorted h = refl
  drain-none (suc fuel) (p ∷ queue) sorted h = drain-none fuel _ _ (any-refilled p queue h)

any-indexed_from :
    (f : SyncNodePayload → Bool) (i : ℕ) (ps : List SyncNodePayload)
    → any (λ p. f p.1) (indexed_from i ps) ≡ any f ps
unfolding indexed_from
any-indexed_from f i [] = refl
any-indexed_from f i (p ∷ ps) = ap (λ b. f p || b) (any-indexed_from f (suc i) ps)

abbrev pub root_named : String → SyncNodePayload → Bool
root_named ext p = (p.external_id == ext) && (p.parent_external_id == "")

abbrev pub own_parent_named : String → SyncNodePayload → Bool
own_parent_named ext p =
    (p.external_id == ext) && (not (p.parent_external_id == "") && (p.parent_external_id == ext))

-- Where a root of the request has the external id `ext`, and another payload has `ext` both as its
-- external id and as its parent's, the loop over the queue of topologicalSortNodes does not end: no
-- fuel is enough.
pub topological_sort_nodes-none :
    (ext : String) (payloads : List SyncNodePayload)
    → any (root_named ext) payloads ≡ true
    → any (own_parent_named ext) payloads ≡ true
    → (fuel : ℕ) → topological_sort_nodes fuel payloads ≡ none
unfolding topological_sort_nodes
topological_sort_nodes-none ext payloads root own fuel = ap (finish (indexed_from 0 payloads)) (
    drain-none ext (indexed_from 0 payloads)
      (any-indexed_from (own_parent_named ext) 0 payloads ∙ own) fuel
      (select is_root (indexed_from 0 payloads)) []
      (any-select (has_id ext) is_root (indexed_from 0 payloads)
        (any-indexed_from (root_named ext) 0 payloads ∙ root)))
