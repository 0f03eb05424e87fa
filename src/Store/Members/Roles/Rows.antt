-- ===== src/Store/Members/Roles/Rows.antt =====
-- server/store/member_store.go: the rows behind a role.
use mathlib.Core.Option
use mattermost_plugin_org_di.Common.{
  String, ◌==◌, ◌≡◌, ap, sym, ◌∙◌, true, false, ◌&&◌, Option, none, some, List, [], ◌∷◌, arith,
  eq_iff, eq_refl, if◌then◌else◌, any, Bool-cases, inl, inr, ==-path, subst, true_ne_false, &&-left,
  &&-right,
}
use mattermost_plugin_org_di.Common.Sql.{append_row, select_row-append_row}
use mattermost_plugin_org_di.Model.{OrgMember}
use mattermost_plugin_org_di.Store.Members.Rows.{is_live, at_relation, find_active}
use mattermost_plugin_org_di.Store.Members.Keys.{
  HasRelations, find_relation, keep, find_active-relation,
}
use mattermost_plugin_org_di.Store.Members.Table.{HasIds}

found-any_id :
    (i j : String) (r : OrgMember) (rows : List OrgMember)
    → find_relation i j rows ≡ some r
    → any (λ x. x.id == r.id) rows ≡ true
unfolding find_relation
found-any_id i j r [] e = cc
found-any_id i j r (x ∷ xs) e = ground (arith, eq_refl r.id, found-any_id i j r xs)

clash :
    (k l : String) (x s : OrgMember) (xs : List OrgMember)
    → any (λ y. y.id == x.id) xs ≡ false
    → find_relation k l xs ≡ some s
    → ¬ (x.id ≡ s.id)
clash k l x s xs absent f same =
    true_ne_false
      (sym (found-any_id k l s xs f) ∙ subst (λ t. any (λ y. y.id == t) xs ≡ false) same absent)

-- Two rows with one id are one row.
pub same_id :
    (i j k l : String) (r s : OrgMember) (rows : List OrgMember)
    → HasIds rows
    → find_relation i j rows ≡ some r
    → find_relation k l rows ≡ some s
    → r.id ≡ s.id
    → r ≡ s
unfolding find_relation
same_id i j k l r s [] h e f same = cc
same_id i j k l r s (x ∷ xs) h e f same = elim (Bool-cases (at_relation i j x)) [
  | inl a ↦ elim (Bool-cases (at_relation k l x)) [
    | inl b ↦ ground arith
    | inr b ↦
        let here : x ≡ r = ground (arith, e, a) in
        absurd
          (clash k l x s xs h.0 (ground (arith, f, b)) (ap (λ (m : OrgMember). m.id) here ∙ same))
  ]
  | inr a ↦ elim (Bool-cases (at_relation k l x)) [
    | inl b ↦
        let here : x ≡ s = ground (arith, f, b) in
        absurd (
          clash i j x r xs h.0 (ground (arith, e, a))
            (ap (λ (m : OrgMember). m.id) here ∙ sym same))
    | inr b ↦ same_id i j k l r s xs h.1 (ground (arith, e, a)) (ground (arith, f, b)) same
  ]
]

pub free_active :
    (i j : String) (rows : List OrgMember)
    → find_relation i j rows ≡ none
    → HasRelations rows
    → find_active i j rows ≡ none
free_active i j rows free keys = find_active-relation i j rows keys ∙ ap (keep is_live) free

at_same :
    (i j node_id user_id : String) (rows : List OrgMember)
    → ((i == node_id) && (j == user_id)) ≡ true
    → find_active i j rows ≡ find_active node_id user_id rows
at_same i j node_id user_id rows e =
    ap (λ x. find_active x j rows) (==-path i node_id (&&-left _ _ e))
    ∙ ap (λ y. find_active node_id y rows) (==-path j user_id (&&-right (i == node_id) _ e))

pub relation_at :
    (i j node_id user_id : String) (rows : List OrgMember)
    → ((i == node_id) && (j == user_id)) ≡ true
    → find_relation i j rows ≡ find_relation node_id user_id rows
relation_at i j node_id user_id rows e =
    ap (λ x. find_relation x j rows) (==-path i node_id (&&-left _ _ e))
    ∙ ap (λ y. find_relation node_id y rows) (==-path j user_id (&&-right (i == node_id) _ e))

-- The search behind an insertion.
pub find_active-append_row :
    (i j : String) (rows : List OrgMember) (r : OrgMember)
    → find_active r.node_id r.user_id rows ≡ none
    → is_live r ≡ true
    → find_active i j (append_row rows r)
      ≡ (if (i == r.node_id) && (j == r.user_id) then some r else find_active i j rows)
unfolding find_active
find_active-append_row i j rows r free live =
    select_row-append_row (λ m. at_relation i j m && is_live m) rows r
    ∙ (elim (Bool-cases ((i == r.node_id) && (j == r.user_id))) [
      | inl e ↦
          let gone : find_active i j rows ≡ none = at_same i j r.node_id r.user_id rows e ∙ free in
          ground (
            arith,
            gone,
            live,
            eq_iff i r.node_id,
            eq_iff j r.user_id,
            eq_iff r.node_id i,
            eq_iff r.user_id j,
          )
      | inr e ↦ by_case (find_active i j rows) e
    ])
  where
    by_case :
        (o : Option OrgMember)
        → ((i == r.node_id) && (j == r.user_id)) ≡ false
        → (elim o [
          | some x ↦ some x
          | none ↦ if at_relation i j r && is_live r then some r else none
        ])
          ≡ (if (i == r.node_id) && (j == r.user_id) then some r else o)
    by_case none e = ground (
      arith,
      live,
      e,
      eq_iff i r.node_id,
      eq_iff j r.user_id,
      eq_iff r.node_id i,
      eq_iff r.user_id j,
    )
    by_case (some x) e = ground (arith, e)

pub none_is_not_some : (m : OrgMember) → ¬ (Option.none ≡ some m)
none_is_not_some m e = cc

abbrev pub role_of : Option OrgMember → Option String
role_of o = Option.map (λ (m : OrgMember). m.role) o
