-- ===== src/Store/Members/Table.antt =====
-- server/store/member_store.go: the constraints of org_directory_members as an invariant of its rows,
-- and what an INSERT and an UPDATE do to it.
use mattermost_plugin_org_di.Common.{
  ℕ, String, ◌==◌, ◌≡◌, refl, sym, subst, Bool, false, ◌&&◌, ◌||◌, not, List, [], ◌∷◌, arith,
  eq_iff, ==-path, inl, inr, Bool-cases, any, Result, ok, err, relabel, continue, pure,
}
use mattermost_plugin_org_di.Common.Sql.{update, append_row}
use mattermost_plugin_org_di.Model.{OrgMember}
use mattermost_plugin_org_di.Store.Db.{Db}
use mattermost_plugin_org_di.Store.Members.Rows.{at_relation, insert_member}
use mattermost_plugin_org_di.Store.Members.Save.{related}
use mattermost_plugin_org_di.Store.Members.Keys.{
  HasRelations, update-HasRelations, append_row-HasRelations,
}

-- PRIMARY KEY(id)
abbrev pub HasIds : List OrgMember → Type 0
HasIds [] = Unit {0}
HasIds (r ∷ rs) = (any (λ x. x.id == r.id) rs ≡ false) × HasIds rs

-- The constraints of the table: no id and no relation comes twice, deleted rows included.
pub record IsTable (rows : List OrgMember) : Type 0 where
  pub ids : HasIds rows
  pub relations : HasRelations rows

any-update_id :
    (id : String) (q : OrgMember → Bool) (f : OrgMember → OrgMember) (rows : List OrgMember)
    → ((r : OrgMember) → (f r).id ≡ r.id)
    → any (λ x. x.id == id) (update q f rows) ≡ any (λ x. x.id == id) rows
any-update_id id q f [] same = refl
any-update_id id q f (r ∷ rs) same = ground (arith, same r, any-update_id id q f rs same)

pub update-HasIds :
    (q : OrgMember → Bool) (f : OrgMember → OrgMember) (rows : List OrgMember)
    → ((r : OrgMember) → (f r).id ≡ r.id)
    → HasIds rows
    → HasIds (update q f rows)
update-HasIds q f [] same h = tt
update-HasIds q f (r ∷ rs) same h =
    (ground (arith, same r, any-update_id r.id q f rs same, h.0), update-HasIds q f rs same h.1)

-- An UPDATE of other columns.
pub update-IsTable :
    (q : OrgMember → Bool) (f : OrgMember → OrgMember) (rows : List OrgMember)
    → ((r : OrgMember) → (f r).id ≡ r.id)
    → ((r : OrgMember) → ((f r).node_id ≡ r.node_id) × ((f r).user_id ≡ r.user_id))
    → IsTable rows
    → IsTable (update q f rows)
update-IsTable q f rows id same t = record {
  ids = update-HasIds q f rows id t.ids;
  relations = update-HasRelations q f same rows t.relations;
}

any-append_row :
    (p : OrgMember → Bool) (rows : List OrgMember) (r : OrgMember)
    → any p (append_row rows r) ≡ (any p rows || p r)
any-append_row p [] r = ground arith
any-append_row p (x ∷ xs) r = ground (arith, any-append_row p xs r)

append_row-HasIds :
    (rows : List OrgMember) (r : OrgMember)
    → any (λ x. x.id == r.id) rows ≡ false
    → HasIds rows
    → HasIds (append_row rows r)
append_row-HasIds [] r h k = (refl, tt)
append_row-HasIds (x ∷ xs) r h k = (
  ground (arith, any-append_row (λ y. y.id == x.id) xs r, eq_iff x.id r.id, eq_iff r.id x.id),
  append_row-HasIds xs r (ground arith) k.1,
)

any_or_left :
    (p q : OrgMember → Bool) (rows : List OrgMember)
    → any (λ r. p r || q r) rows ≡ false
    → any p rows ≡ false
any_or_left p q [] h = refl
any_or_left p q (r ∷ rs) h = ground (arith, any_or_left p q rs)

any_or_right :
    (p q : OrgMember → Bool) (rows : List OrgMember)
    → any (λ r. p r || q r) rows ≡ false
    → any q rows ≡ false
any_or_right p q [] h = refl
any_or_right p q (r ∷ rs) h = ground (arith, any_or_right p q rs)

abbrev pub HasTable : {A : Type 0} → Result A × Db → Type 0
HasTable r = IsTable r.1.members

pub insert_member-IsTable :
    (m : OrgMember) (db : Db) → IsTable db.members → HasTable (insert_member m db)
unfolding insert_member
insert_member-IsTable m db t =
    elim (Bool-cases (any (λ r. (r.id == m.id) || at_relation m.node_id m.user_id r) db.members)) [
      | inl e ↦ rw e t
      | inr e ↦ rw e (record {
        ids =
            append_row-HasIds db.members (record m { delete_at = 0 })
              (any_or_left (λ r. r.id == m.id) (at_relation m.node_id m.user_id) db.members e)
              t.ids;
        relations =
            append_row-HasRelations db.members (record m { delete_at = 0 })
              (any_or_right (λ r. r.id == m.id) (at_relation m.node_id m.user_id) db.members e)
              t.relations;
      })
    ]

pub then_pure-HasTable :
    (text : String) (m : OrgMember) (r : Result (Unit {0}) × Db)
    → HasTable r
    → HasTable (continue (λ done. pure m) (relabel text r))
then_pure-HasTable text m (ok done, db) t = t
then_pure-HasTable text m (err e, db) t = t

-- The UPDATE that gives the row `id` the relation of `m`, which no other row has.
module _ (id : String) (m : OrgMember) (now : ℕ) where
  abbrev pub taken : List OrgMember → Bool
  taken rows = any (λ r. not (r.id == id) && at_relation m.node_id m.user_id r) rows

  abbrev moved : List OrgMember → List OrgMember
  moved rows = update (λ r. r.id == id) (related m now) rows

  moved_absent : (rows : List OrgMember) → any (λ x. x.id == id) rows ≡ false → moved rows ≡ rows
  moved_absent [] h = refl
  moved_absent (r ∷ rs) h = ground (arith, moved_absent rs)

  free_absent :
      (rows : List OrgMember)
      → any (λ x. x.id == id) rows ≡ false
      → taken rows ≡ false
      → any (at_relation m.node_id m.user_id) rows ≡ false
  free_absent [] h k = refl
  free_absent (r ∷ rs) h k = ground (arith, free_absent rs)

  any-moved :
      (x : OrgMember) (rows : List OrgMember)
      → at_relation m.node_id m.user_id x ≡ false
      → any (at_relation x.node_id x.user_id) rows ≡ false
      → any (at_relation x.node_id x.user_id) (moved rows) ≡ false
  any-moved x [] h k = refl
  any-moved x (r ∷ rs) h k = ground (
    arith,
    any-moved x rs,
    eq_iff x.node_id m.node_id,
    eq_iff m.node_id x.node_id,
    eq_iff x.user_id m.user_id,
    eq_iff m.user_id x.user_id,
  )

  moved-HasRelations :
      (rows : List OrgMember)
      → taken rows ≡ false
      → HasIds rows
      → HasRelations rows
      → HasRelations (moved rows)
  moved-HasRelations [] k i h = tt
  moved-HasRelations (r ∷ rs) k i h = elim (Bool-cases (r.id == id)) [
    | inl here ↦
        let gone : any (λ x. x.id == id) rs ≡ false =
          subst (λ t. any (λ x. x.id == t) rs ≡ false) (==-path _ _ here) i.0 in
        let free : taken rs ≡ false = ground (arith, k) in
        rw (here, moved_absent rs gone) (free_absent rs gone free, h.1)
    | inr other ↦ rw other (
      any-moved r rs (ground (arith, k, other)) h.0,
      moved-HasRelations rs (ground (arith, k)) i.1 h.1,
    )
  ]

  -- Either no other row has the relation, or there is no row to move.
  pub moved_relations :
      (rows : List OrgMember)
      → (taken rows && any (λ r. r.id == id) rows) ≡ false
      → IsTable rows
      → HasRelations (moved rows)
  moved_relations rows e t = elim (Bool-cases (taken rows)) [
    | inl busy ↦ subst HasRelations (sym (moved_absent rows (ground (arith, e, busy)))) t.relations
    | inr free ↦ moved-HasRelations rows free t.ids t.relations
  ]
