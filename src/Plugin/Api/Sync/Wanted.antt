-- ===== src/Plugin/Api/Sync/Wanted.antt =====
-- handleListSyncNodes of server/api_sync.go: its parameters, and the nodes that its loop keeps.
use mattermost_plugin_org_di.Common.{
  ℕ, String, ◌==◌, ◌≡◌, refl, ap, ◌∙◌, Bool, true, false, ◌&&◌, Option, none, some, List, ℤ, pos,
  negsuc, leb, eqb, ltb_ℤ, arith, ◌++◌, ◌-ℤ◌, sym, inl, inr, Bool-cases, ==-false, true_ne_false,
}
use mattermost_plugin_org_di.Common.Atoi.{atoi}
use mattermost_plugin_org_di.Common.Text.{trim_space, has_prefix}
use mattermost_plugin_org_di.Common.Text.Laws.{no_prefix_self}
use mattermost_plugin_org_di.Store.Tree.Below.{has_prefix-deeper}
use mattermost_plugin_org_di.Model.{OrgNode}
use mattermost_plugin_org_di.Store.Nodes.Rows.{find_node}
use mattermost_plugin_org_di.Store.Nodes.Children.{some_path}
use mattermost_plugin_org_di.Store.Tree.Invariant.{IsTree}
use mattermost_plugin_org_di.Plugin.Api.Sync.Reads.{
  Bound, absent, bound, at_depth, up_to, is_listed, parse_non_negative_int,
}

-- The parameter is missing, or the decimal text of a natural number.
pub data Reads : String → Option ℕ → Type 0 where
  missing : {text : String} → (trim_space text == "") ≡ true → Reads text none
  number :
      {text : String} (n : ℕ)
      → (trim_space text == "") ≡ false
      → atoi (trim_space text) ≡ some (pos n)
      → Reads text (some n)

abbrev pub bound_of : Option ℕ → Bound
bound_of none = absent
bound_of (some n) = bound (pos n)

pub reads_lem :
    (text : String) (o : Option ℕ) → Reads text o → parse_non_negative_int text ≡ bound_of o
unfolding parse_non_negative_int
reads_lem text o (missing e) = rw e refl
reads_lem text o (number n e v) = rw (e, v) (ground arith)

-- A depth that equals the first number, and does not exceed the second.
abbrev pub is_within : Option ℕ → Option ℕ → ℤ → Bool
is_within none none d = true
is_within none (some most) (pos k) = leb k most
is_within none (some most) (negsuc k) = true
is_within (some exact) none (pos k) = eqb k exact
is_within (some exact) none (negsuc k) = false
is_within (some exact) (some most) (pos k) = eqb k exact && leb exact most
is_within (some exact) (some most) (negsuc k) = false

-- What handleListSyncNodes keeps: without a parent, the nodes at these depths; with one, the nodes
-- behind its path, where its children have the depth 0.
abbrev pub is_wanted : Option OrgNode → Option ℕ → Option ℕ → OrgNode → Bool
is_wanted none d m n = is_within d m n.depth
is_wanted (some p) d m n =
    has_prefix n.path (p.path ++ "/") && is_within d m ((n.depth -ℤ p.depth) -ℤ pos 1)

pub bounds-within :
    (d m : Option ℕ) (k : ℤ) → (at_depth (bound_of d) k && up_to (bound_of m) k) ≡ is_within d m k
bounds-within none none k = refl
bounds-within none (some m) (pos k) = ground arith
bounds-within none (some m) (negsuc k) = ground arith
bounds-within (some d) none (pos k) = ground arith
bounds-within (some d) none (negsuc k) = ground arith
bounds-within (some d) (some m) (pos k) = ground arith
bounds-within (some d) (some m) (negsuc k) = ground arith

never_negative : (k : ℕ) → ltb_ℤ (pos k) (pos 0) ≡ false
never_negative k = ground arith

-- On a well-formed tree, the tests for the parent itself and for a negative depth never fire.
pub is_listed-below :
    (rows : List OrgNode) (p n : OrgNode) (d m : Option ℕ)
    → IsTree rows
    → find_node p.id rows ≡ some p
    → find_node n.id rows ≡ some n
    → is_listed (some p) (bound_of d) (bound_of m) n ≡ is_wanted (some p) d m n
unfolding is_listed
is_listed-below rows p n d m t ep en = elim (Bool-cases (has_prefix n.path (p.path ++ "/"))) [
  | inr away ↦ ground (arith, away)
  | inl inside ↦
      let (k, level) = has_prefix-deeper rows t p.id p ep n.id n en inside in
      let apart : (n.id == p.id) ≡ false = ==-false n.id p.id (λ same.
        let one : n ≡ p = some_path n p (sym en ∙ ap (λ x. find_node x rows) same ∙ ep) in
        true_ne_false
          (sym inside ∙ ap (λ x. has_prefix x.path (p.path ++ "/")) one ∙ no_prefix_self p.path)) in
      rw (inside, apart, level, never_negative k) (bounds-within d m (pos k))
]
