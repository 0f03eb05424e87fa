-- ===== src/Store/Members/Keys.antt =====
-- UNIQUE(node_id, user_id) as an invariant of the rows: one row, live or deleted, for a relation.
use mathlib.Core.Option
use mattermost_plugin_org_di.Common.{
  String, ◌==◌, ◌≡◌, refl, ap, sym, ◌∙◌, Bool, true, false, ◌&&◌, ◌||◌, not, Option, none, some,
  List, [], ◌∷◌, arith, eq_iff, if◌then◌else◌, any, Bool-cases, &&-left, &&-right, ==-path, inl,
  inr,
}
use mattermost_plugin_org_di.Common.Sql.{
  select_row, update, append_row, select_row-update, select_row-append_row,
}
use mattermost_plugin_org_di.Model.{OrgMember}
use mattermost_plugin_org_di.Store.Members.Rows.{is_live, at_relation, find_active, find_deleted}

abbrev pub HasRelations : List OrgMember → Type 0
HasRelations [] = Unit {0}
HasRelations (r ∷ rs) = (any (at_relation r.node_id r.user_id) rs ≡ false) × HasRelations rs

-- The one row of a relation.
unfoldable pub find_relation : String → String → List OrgMember → Option OrgMember
find_relation node_id user_id rows = select_row (at_relation node_id user_id) rows

abbrev pub keep : (OrgMember → Bool) → Option OrgMember → Option OrgMember
keep p none = none
keep p (some m) = if p m then some m else none

select_none :
    (p q : OrgMember → Bool) (rows : List OrgMember)
    → any p rows ≡ false
    → select_row (λ m. p m && q m) rows ≡ none
select_none p q [] h = refl
select_none p q (r ∷ rs) h = ground (arith, select_none p q rs)

pub relation_same :
    (node_id user_id : String) (r : OrgMember) (rs : List OrgMember)
    → at_relation node_id user_id r ≡ true
    → any (at_relation r.node_id r.user_id) rs ≡ false
    → any (at_relation node_id user_id) rs ≡ false
relation_same node_id user_id r rs h k =
    let n : r.node_id ≡ node_id = ==-path _ _ (&&-left _ _ h) in
    let u : r.user_id ≡ user_id = ==-path _ _ (&&-right (r.node_id == node_id) _ h) in
    ap (λ x. any (at_relation x user_id) rs) (sym n)
    ∙ ap (λ x. any (at_relation r.node_id x) rs) (sym u)
    ∙ k

-- A search for a relation with one more condition tests the one row.
pub select-relation :
    (node_id user_id : String) (q : OrgMember → Bool) (rows : List OrgMember)
    → HasRelations rows
    → select_row (λ m. at_relation node_id user_id m && q m) rows
      ≡ keep q (find_relation node_id user_id rows)
unfolding find_relation
select-relation node_id user_id q [] h = refl
select-relation node_id user_id q (r ∷ rs) h = elim (Bool-cases (at_relation node_id user_id r)) [
  | inl here ↦
      let gone =
        select_none (at_relation node_id user_id) q rs
          (relation_same node_id user_id r rs here h.0) in
      rw here (ground (arith, gone))
  | inr other ↦ rw other (select-relation node_id user_id q rs h.1)
]

pub find_active-relation :
    (node_id user_id : String) (rows : List OrgMember)
    → HasRelations rows
    → find_active node_id user_id rows ≡ keep is_live (find_relation node_id user_id rows)
unfolding find_active
find_active-relation node_id user_id rows h = select-relation node_id user_id is_live rows h

pub find_deleted-relation :
    (node_id user_id : String) (rows : List OrgMember)
    → HasRelations rows
    → find_deleted node_id user_id rows
      ≡ keep (λ m. not (is_live m)) (find_relation node_id user_id rows)
unfolding find_deleted
find_deleted-relation node_id user_id rows h =
    select-relation node_id user_id (λ m. not (is_live m)) rows h

-- Updates that keep the relation.
module _ (q : OrgMember → Bool) (f : OrgMember → OrgMember)
    (same : (r : OrgMember) → ((f r).node_id ≡ r.node_id) × ((f r).user_id ≡ r.user_id)) where
  any-update :
      (node_id user_id : String) (rows : List OrgMember)
      → any (at_relation node_id user_id) (update q f rows) ≡ any (at_relation node_id user_id) rows
  any-update node_id user_id [] = refl
  any-update node_id user_id (r ∷ rs) = ground (arith, same r, any-update node_id user_id rs)

  pub update-HasRelations :
      (rows : List OrgMember) → HasRelations rows → HasRelations (update q f rows)
  update-HasRelations [] h = tt
  update-HasRelations (r ∷ rs) h =
      (ground (arith, same r, any-update r.node_id r.user_id rs), update-HasRelations rs h.1)

  pub find_relation-update :
      (node_id user_id : String) (rows : List OrgMember)
      → find_relation node_id user_id (update q f rows)
        ≡ Option.map (λ r. if q r then f r else r) (find_relation node_id user_id rows)
  unfolding find_relation
  find_relation-update node_id user_id rows =
      select_row-update (at_relation node_id user_id) q f rows (λ r. ground (arith, same r))

any-append_row :
    (p : OrgMember → Bool) (rows : List OrgMember) (r : OrgMember)
    → any p (append_row rows r) ≡ (any p rows || p r)
any-append_row p [] r = ground arith
any-append_row p (x ∷ xs) r = ground (arith, any-append_row p xs r)

pub append_row-HasRelations :
    (rows : List OrgMember) (r : OrgMember)
    → any (at_relation r.node_id r.user_id) rows ≡ false
    → HasRelations rows
    → HasRelations (append_row rows r)
append_row-HasRelations [] r h k = (refl, tt)
append_row-HasRelations (x ∷ xs) r h k = (
  ground (
    arith,
    any-append_row (at_relation x.node_id x.user_id) xs r,
    eq_iff x.node_id r.node_id,
    eq_iff r.node_id x.node_id,
    eq_iff x.user_id r.user_id,
    eq_iff r.user_id x.user_id,
  ),
  append_row-HasRelations xs r (ground arith) k.1,
)

pub find_relation-append_row :
    (node_id user_id : String) (rows : List OrgMember) (r : OrgMember)
    → find_relation node_id user_id rows ≡ none
    → at_relation node_id user_id r ≡ true
    → find_relation node_id user_id (append_row rows r) ≡ some r
unfolding find_relation
find_relation-append_row node_id user_id rows r e h =
    ground (arith, select_row-append_row (at_relation node_id user_id) rows r)

pub any_of_none :
    (node_id user_id : String) (rows : List OrgMember)
    → find_relation node_id user_id rows ≡ none
    → any (at_relation node_id user_id) rows ≡ false
unfolding find_relation
any_of_none node_id user_id [] e = refl
any_of_none node_id user_id (r ∷ rs) e = ground (arith, any_of_none node_id user_id rs)
