-- ===== src/Plugin/Permissions/Inherit.antt =====
-- checkNodePermission of server/permissions.go on a well-formed tree: a node and its parent.
use mathlib.Core.List
use mathlib.Core.List.{reverse-append}
use text.Mathlib.TextLemmas.{nil-append}
use mattermost_plugin_org_di.Common.{
  String, ◌++◌, ◌≡◌, ◌≢◌, ap, sym, ◌∙◌, subst, Bool, false, ◌||◌, some, List, [], ◌∷◌, arith, inl,
  inr, ==_of_path,
}
use mattermost_plugin_org_di.Common.Text.{
  split_slash, trim_prefix, has_prefix, drop_prefix, has_slash,
}
use mattermost_plugin_org_di.Common.Text.Split.{
  split_slash-append, split_slash-segment, trim_prefix-append,
}
use mattermost_plugin_org_di.Model.{OrgNode}
use mattermost_plugin_org_di.Store.Db.{Db}
use mattermost_plugin_org_di.Store.Nodes.Rows.{find_node}
use mattermost_plugin_org_di.Store.Tree.Invariant.{
  IsTree, IsChild, find_node-id, segment-has_slash, no_empty_id,
}
use mattermost_plugin_org_di.Store.Tree.Move.{path_proper}
use mattermost_plugin_org_di.Plugin.Permissions.{allows_at, allows_any, walk, check_node_permission}

-- The ids on the way up from a child: its own, then those from the parent.
walk-child :
    (p n : OrgNode) → IsChild p n → p.path ≢ "" → has_slash n.id ≡ false → walk n ≡ n.id ∷ walk p
unfolding walk
walk-child p n (path, depth) ne h =
    ap (λ s. List.reverse (split_slash (trim_prefix s "/"))) path
    ∙ ap (λ s. List.reverse (split_slash s)) (trim_prefix-append p.path ("/" ++ n.id) ne)
    ∙ ap List.reverse (split_slash-append (trim_prefix p.path "/") n.id h)
    ∙ reverse-append (split_slash (trim_prefix p.path "/")) (n.id ∷ [])

-- The parent of a live node is the one that places it.
IsChild-of_parent :
    (rows : List OrgNode) (id : String) (n p : OrgNode)
    → IsTree rows
    → find_node id rows ≡ some n
    → find_node n.parent_id rows ≡ some p
    → IsChild p n
IsChild-of_parent rows id n p t e ep = elim (t.placed id n e) [
  | inl root ↦ absurd (no_empty_id t p (ap (λ x. find_node x rows) (sym root.0) ∙ ep))
  | inr (q, eq, child) ↦ let same : q ≡ p = cc (eq, ep) in subst (λ r. IsChild r n) same child
]

abbrev slash : String
slash = "/"

slash_ne : slash ≢ ""
slash_ne h = cc (==_of_path "/" "" h)

trimmed : (s : String) → trim_prefix "/" "/" ++ s ≡ s
unfolding trim_prefix has_prefix drop_prefix
trimmed s = nil-append s

walk-root :
    (rows : List OrgNode) (id : String) (n : OrgNode)
    → IsTree rows
    → find_node id rows ≡ some n
    → n.parent_id ≡ ""
    → walk n ≡ n.id ∷ []
unfolding walk
walk-root rows id n t e top = elim (t.placed id n e) [
  | inl root ↦
      ap (λ s. List.reverse (split_slash (trim_prefix s "/"))) root.1
      ∙ ap (λ s. List.reverse (split_slash s)) (trim_prefix-append "/" n.id slash_ne)
      ∙ ap (λ s. List.reverse (split_slash s)) (trimmed n.id)
      ∙ ap List.reverse (split_slash-segment n.id (segment-has_slash n.id (t.segment id n e)))
  | inr (q, eq, child) ↦ absurd (no_empty_id t q (ap (λ x. find_node x rows) (sym top) ∙ eq))
]

module _ (is_system_admin : String → Bool) (user role : String) (db : Db)
    (t : IsTree db.nodes) where
  -- On a well-formed tree a user passes checkNodePermission on a node that has a live parent just
  -- where the own membership of the node is sufficient, or the user passes it on the parent.
  pub check_node_permission-child :
      (id : String) (n p : OrgNode)
      → find_node id db.nodes ≡ some n
      → find_node n.parent_id db.nodes ≡ some p
      → check_node_permission is_system_admin user id role db ≡ (
          allows_at user role id db
          || check_node_permission is_system_admin user n.parent_id role db)
  unfolding check_node_permission allows_any
  check_node_permission-child id n p e ep =
      let child = IsChild-of_parent db.nodes id n p t e ep in
      let up : walk n ≡ n.id ∷ walk p =
        walk-child p n child (λ h. path_proper db.nodes n.parent_id p t ep (sym h))
          (segment-has_slash n.id (t.segment id n e)) in
      let first : allows_any user role (walk n) db
          ≡ (allows_at user role id db || allows_any user role (walk p) db) =
        ap (λ ids. allows_any user role ids db) up
        ∙ ap (λ x. allows_at user role x db || allows_any user role (walk p) db)
            (find_node-id id db.nodes n e) in
      rw (e, ep, first) (ground arith)

  -- On a well-formed tree a user passes checkNodePermission on a live root just where the own
  -- membership of the root is sufficient, or the user is a system administrator.
  pub check_node_permission-root :
      (id : String) (n : OrgNode)
      → find_node id db.nodes ≡ some n
      → n.parent_id ≡ ""
      → check_node_permission is_system_admin user id role db
        ≡ (allows_at user role id db || is_system_admin user)
  unfolding check_node_permission allows_any
  check_node_permission-root id n e top =
      let first : allows_any user role (walk n) db ≡ (allows_at user role id db || false) =
        ap (λ ids. allows_any user role ids db) (walk-root db.nodes id n t e top)
        ∙ ap (λ x. allows_at user role x db || false) (find_node-id id db.nodes n e) in
      rw (e, first) (ground arith)
