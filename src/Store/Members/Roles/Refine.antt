-- ===== src/Store/Members/Roles/Refine.antt =====
-- server/store/member_store.go: AddMember, RemoveMember and UpdateMemberRole, and the directory of
-- roles.
use mathlib.Core.Option
use mattermost_plugin_org_di.Common.{
  String, ◌==◌, ◌≡◌, refl, ap, sym, ◌∙◌, true, false, ◌&&◌, not, Option, none, some, List, [], ◌∷◌,
  arith, eq_iff, eq_refl, if◌then◌else◌, Option-cases, Bool-cases, inl, inr, ==-path, subst,
}
use mattermost_plugin_org_di.Common.Sql.{update, select_row-test, select_row-update}
use mattermost_plugin_org_di.Model.{OrgMember, member_pre_save}
use mattermost_plugin_org_di.Store.Db.{Host, Db, IsSane}
use mattermost_plugin_org_di.Store.Members.Rows.{is_live, at_relation, find_active, find_deleted}
use mattermost_plugin_org_di.Store.Members.Save.{update_member_role}
use mattermost_plugin_org_di.Store.Members.Keys.{
  find_relation, keep, find_active-relation, find_deleted-relation, find_relation-update,
  any_of_none, update-HasRelations,
}
use mattermost_plugin_org_di.Store.Members.Add.{
  IsFresh, add_member-active, add_member-inserted, add_member-restored, restored, stamped,
}
use mattermost_plugin_org_di.Store.Members.Remove.{find_active-remove_member}
use mattermost_plugin_org_di.Store.Members.Table.{IsTable}
use mattermost_plugin_org_di.Store.Members.Unique.{
  add_member-IsTable, remove_member-IsTable, update_member_role-IsTable,
}
use mattermost_plugin_org_di.Store.Members.Roles.{
  Roles, roles_of, RoleCommand, grant, revoke, change, apply, apply_all, perform, perform_all,
}
use mattermost_plugin_org_di.Store.Members.Roles.Rows.{
  same_id, relation_at, none_is_not_some, role_of, free_active, find_active-append_row,
}

module _ (host : Host) where
  revoke-roles :
      (node_id user_id : String) (db : Db) (i j : String)
      → IsSane host
      → IsTable db.members
      → roles_of (perform host (revoke node_id user_id) db) i j
        ≡ apply (revoke node_id user_id) (roles_of db) i j
  unfolding roles_of perform apply
  revoke-roles node_id user_id db i j sane t =
      ap role_of (find_active-remove_member host node_id user_id db sane t.relations i j)
      ∙ ground arith

  change-roles :
      (node_id user_id role : String) (db : Db) (i j : String)
      → roles_of (perform host (change node_id user_id role) db) i j
        ≡ apply (change node_id user_id role) (roles_of db) i j
  unfolding roles_of perform apply update_member_role find_active
  change-roles node_id user_id role db i j =
      ap role_of (
        select_row-update (λ m. at_relation i j m && is_live m)
          (λ m. at_relation node_id user_id m && is_live m)
          (λ m. record m { role = role; update_at = host.clock db.clock_reads }) db.members
          (λ r. refl))
      ∙ by_case (find_active i j db.members) refl
    where
      by_case :
          (o : Option OrgMember)
          → find_active i j db.members ≡ o
          → role_of (
              Option.map
                (λ (r : OrgMember).
                  if at_relation node_id user_id r && is_live r
                  then record r { role = role; update_at = host.clock db.clock_reads }
                  else r)
                o)
            ≡ (if (i == node_id) && (j == user_id)
                then Option.map (λ (old : String). role) (role_of o)
                else role_of o)
      by_case none e = ground arith
      by_case (some r) e =
          let here : (at_relation i j r && is_live r) ≡ true =
            select_row-test (λ m. at_relation i j m && is_live m) db.members r e in
          ground (
            arith,
            here,
            eq_iff r.node_id i,
            eq_iff r.user_id j,
            eq_iff r.node_id node_id,
            eq_iff r.user_id user_id,
            eq_iff i node_id,
            eq_iff j user_id,
          )

  -- AddMember of a relation without a row.
  inserted-roles :
      (m : OrgMember) (db : Db) (i j : String)
      → IsTable db.members
      → IsFresh host db
      → find_relation m.node_id m.user_id db.members ≡ none
      → roles_of (perform host (grant m) db) i j ≡ apply (grant m) (roles_of db) i j
  unfolding roles_of perform apply member_pre_save
  inserted-roles m db i j t fresh e =
      let free = free_active m.node_id m.user_id db.members e t.relations in
      let gone : find_deleted m.node_id m.user_id db.members ≡ none =
        find_deleted-relation m.node_id m.user_id db.members t.relations
        ∙ ap (keep (λ x. not (is_live x))) e in
      ap (λ r. role_of (find_active i j r.1.members))
        (add_member-inserted host m db gone fresh (any_of_none m.node_id m.user_id db.members e))
      ∙ ap role_of (
          find_active-append_row i j db.members (record (stamped host m db) { delete_at = 0 }) free
            refl)
      ∙ ground (arith, free)

  -- AddMember of an active relation.
  active-roles :
      (m a : OrgMember) (db : Db) (i j : String)
      → IsTable db.members
      → find_active m.node_id m.user_id db.members ≡ some a
      → roles_of (perform host (grant m) db) i j ≡ apply (grant m) (roles_of db) i j
  unfolding roles_of perform apply
  active-roles m a db i j t active =
      ap (λ rows. role_of (find_active i j rows))
        (add_member-active host m a db t.relations active).1
      ∙ ground (arith, active)

  -- The row that AddMember brings back is found at its relation, and every other as it was.
  found_restored :
      (m old : OrgMember) (db : Db) (i j : String)
      → IsTable db.members
      → find_relation m.node_id m.user_id db.members ≡ some old
      → is_live old ≡ false
      → role_of (find_active i j (update (λ r. r.id == old.id) (restored host m db) db.members)) ≡ (
          if (i == m.node_id) && (j == m.user_id)
          then some (member_pre_save m).role
          else role_of (find_active i j db.members))
  found_restored m old db i j t e dead =
      ap role_of (
        find_active-relation i j _ (
          update-HasRelations (λ r. r.id == old.id) (restored host m db) (λ r. (refl, refl))
            db.members t.relations)
        ∙ ap (keep is_live) (
            find_relation-update (λ r. r.id == old.id) (restored host m db) (λ r. (refl, refl)) i j
              db.members))
      ∙ by_case (find_relation i j db.members) refl
      ∙ ap
          (λ o.
            if (i == m.node_id) && (j == m.user_id)
            then some (member_pre_save m).role
            else role_of o)
          (sym (find_active-relation i j db.members t.relations))
    where
      by_case :
          (o : Option OrgMember)
          → find_relation i j db.members ≡ o
          → role_of (
              keep is_live (
                Option.map
                  (λ (r : OrgMember). if r.id == old.id then restored host m db r else r)
                  o))
            ≡ (if (i == m.node_id) && (j == m.user_id)
                then some (member_pre_save m).role
                else role_of (keep is_live o))
      by_case none f = elim (Bool-cases ((i == m.node_id) && (j == m.user_id))) [
        | inr other ↦ rw other refl
        | inl own ↦
            absurd
              (none_is_not_some _ (sym f ∙ relation_at i j m.node_id m.user_id db.members own ∙ e))
      ]
      by_case (some r) f = elim (Bool-cases (r.id == old.id)) [
        | inl own ↦
            let one : r ≡ old =
              same_id i j m.node_id m.user_id r old db.members t.ids f e (==-path _ _ own) in
            let there : at_relation m.node_id m.user_id r ≡ true =
              subst (λ x. at_relation m.node_id m.user_id x ≡ true) (sym one)
                (unfold find_relation in
                  select_row-test (at_relation m.node_id m.user_id) db.members old e) in
            let here : at_relation i j r ≡ true =
              unfold find_relation in select_row-test (at_relation i j) db.members r f in
            ground (
              arith,
              own,
              there,
              here,
              eq_iff r.node_id i,
              eq_iff r.user_id j,
              eq_iff r.node_id m.node_id,
              eq_iff r.user_id m.user_id,
              eq_iff i m.node_id,
              eq_iff j m.user_id,
            )
        | inr other ↦ elim (Bool-cases ((i == m.node_id) && (j == m.user_id))) [
          | inr apart ↦ rw (other, apart) refl
          | inl own ↦
              let one : some r ≡ some old =
                sym f ∙ relation_at i j m.node_id m.user_id db.members own ∙ e in
              ground (arith, one, other, eq_refl r.id)
        ]
      ]

  -- AddMember of a relation whose row is deleted.
  restored-roles :
      (m old : OrgMember) (db : Db) (i j : String)
      → IsTable db.members
      → find_relation m.node_id m.user_id db.members ≡ some old
      → is_live old ≡ false
      → roles_of (perform host (grant m) db) i j ≡ apply (grant m) (roles_of db) i j
  unfolding roles_of perform apply member_pre_save
  restored-roles m old db i j t e dead =
      let found : find_deleted m.node_id m.user_id db.members ≡ some old =
        find_deleted-relation m.node_id m.user_id db.members t.relations
        ∙ ap (keep (λ x. not (is_live x))) e
        ∙ ground (arith, dead) in
      let inactive : find_active m.node_id m.user_id db.members ≡ none =
        find_active-relation m.node_id m.user_id db.members t.relations
        ∙ ap (keep is_live) e
        ∙ ground (arith, dead) in
      ap (λ r. role_of (find_active i j r.1.members)) (add_member-restored host m old db found)
      ∙ found_restored m old db i j t e dead
      ∙ ground (arith, inactive)

  pub perform-roles :
      (c : RoleCommand) (db : Db) (i j : String)
      → IsSane host
      → IsTable db.members
      → IsFresh host db
      → roles_of (perform host c db) i j ≡ apply c (roles_of db) i j
  perform-roles (revoke node_id user_id) db i j sane t fresh =
      revoke-roles node_id user_id db i j sane t
  perform-roles (change node_id user_id role) db i j sane t fresh =
      change-roles node_id user_id role db i j
  perform-roles (grant m) db i j sane t fresh =
      elim (Option-cases (find_relation m.node_id m.user_id db.members)) [
        | inl e ↦ inserted-roles m db i j t fresh e
        | inr (old, e) ↦ elim (Bool-cases (is_live old)) [
          | inl live ↦ active-roles m old db i j t (
              find_active-relation m.node_id m.user_id db.members t.relations
              ∙ ap (keep is_live) e
              ∙ ground (arith, live))
          | inr dead ↦ restored-roles m old db i j t e dead
        ]
      ]

  perform-IsTable :
      (c : RoleCommand) (db : Db) → IsTable db.members → IsTable (perform host c db).members
  unfolding perform
  perform-IsTable (grant m) db t = add_member-IsTable host m db t
  perform-IsTable (revoke node_id user_id) db t = remove_member-IsTable host node_id user_id db t
  perform-IsTable (change node_id user_id role) db t =
      update_member_role-IsTable host node_id user_id role db t

  -- Every new id is new when it is drawn.
  unfoldable pub AllFresh : List RoleCommand → Db → Type 0
  unfolding perform
  AllFresh [] db = Unit {0}
  AllFresh (c ∷ cs) db = IsFresh host db × AllFresh cs (perform host c db)

  apply_all_cong :
      (cs : List RoleCommand) (a b : Roles)
      → ((i j : String) → a i j ≡ b i j)
      → apply_all cs a ≡ apply_all cs b
  apply_all_cong cs a b h = ap (apply_all cs) (λ t i j. h i j t)

  -- On a sane host, from a table that meets its constraints, and with new ids that are fresh: after
  -- any sequence of calls of AddMember, RemoveMember and UpdateMemberRole, the roles that users
  -- have at nodes are those that the same commands make of the roles before, in a directory that
  -- knows neither rows nor deletions, and in which a role that is there is not granted again.
  pub perform_all-roles :
      (cs : List RoleCommand) (db : Db)
      → IsSane host
      → IsTable db.members
      → AllFresh cs db
      → roles_of (perform_all host cs db) ≡ apply_all cs (roles_of db)
  unfolding perform_all apply_all AllFresh
  perform_all-roles [] db sane t fresh = refl
  perform_all-roles (c ∷ cs) db sane t fresh =
      perform_all-roles cs (perform host c db) sane (perform-IsTable c db t) fresh.1
      ∙ apply_all_cong cs _ _ (λ i j. perform-roles c db i j sane t fresh.0)
