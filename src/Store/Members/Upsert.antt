-- ===== src/Store/Members/Upsert.antt =====
-- The upserts of memberships of server/store/member_store.go.
use mathlib.Core.Option
use mattermost_plugin_org_di.Common.{
  String, ◌==◌, ◌≡◌, refl, ap, sym, ◌∙◌, true, false, ◌&&◌, not, none, some, List, [], ◌∷◌, arith,
  eq_refl, if◌then◌else◌, any, Option-cases, after, reply, ok, err, unique_violation, inl, inr,
}
use mattermost_plugin_org_di.Common.Sql.{update}
use mattermost_plugin_org_di.Common.Text.{trim_space}
use mattermost_plugin_org_di.Model.{OrgMember}
use mattermost_plugin_org_di.Store.Db.{Host, Db}
use mattermost_plugin_org_di.Store.Members.Rows.{is_live, at_relation, find_active}
use mattermost_plugin_org_di.Store.Members.Save.{
  add_member, revived, update_active, upsert_member_by_node_and_user,
}
use mattermost_plugin_org_di.Store.Members.Keys.{
  HasRelations, find_relation, keep, find_active-relation, update-HasRelations,
  find_relation-update,
}
use mattermost_plugin_org_di.Store.Members.Add.{
  IsActive, IsFresh, keep-some, add_member-inactive, timed,
}
use mattermost_plugin_org_di.Store.Members.Rows.{find_external}
use mattermost_plugin_org_di.Store.Members.Save.{relate_external, upsert_member_by_external_id}

upsert-active :
    (host : Host) (m a : OrgMember) (db : Db)
    → IsActive db m.node_id m.user_id a
    → upsert_member_by_node_and_user host m db
      ≡ update_active host m a
          (if trim_space m.external_id == "" then a.external_id else m.external_id)
          db
unfolding upsert_member_by_node_and_user
upsert-active host m a db e = rw (e, upsert_member_by_node_and_user)

upsert-inactive :
    (host : Host) (m : OrgMember) (db : Db)
    → find_active m.node_id m.user_id db.members ≡ none
    → upsert_member_by_node_and_user host m db ≡ add_member host m db
unfolding upsert_member_by_node_and_user
upsert-inactive host m db e = rw (e, upsert_member_by_node_and_user)

abbrev pub IsUpserted : Host → OrgMember → Db → Type 0
IsUpserted host m db =
    (row : OrgMember) × (saved : OrgMember) × (reply (upsert_member_by_node_and_user host m) db
      ≡ ok saved)
    × IsActive (after (upsert_member_by_node_and_user host m) db) m.node_id m.user_id row
    × (saved.id ≡ row.id)
    × (row.position ≡ m.position)

active_upsert :
    (host : Host) (m a : OrgMember) (db : Db)
    → HasRelations db.members
    → IsActive db m.node_id m.user_id a
    → IsUpserted host m db
unfolding update_active
active_upsert host m a db keys active =
    let kept : String = if trim_space m.external_id == "" then a.external_id else m.external_id in
    let change : OrgMember → OrgMember = revived m kept (host.clock db.clock_reads) in
    let (e, live) =
      keep-some is_live (find_relation m.node_id m.user_id db.members) a
        (sym (find_active-relation m.node_id m.user_id db.members keys) ∙ active) in
    let same = upsert-active host m a db active in
    let rows : List OrgMember = update (λ r. r.id == a.id) change db.members in
    (
      change a,
      change a,
      ap (λ r. r.0) same,
      ap (λ r. find_active m.node_id m.user_id r.1.members) same
          ∙ find_active-relation m.node_id m.user_id rows
              (update-HasRelations (λ r. r.id == a.id) change (λ r. (refl, refl)) db.members keys)
          ∙ ap (keep is_live) (
              find_relation-update (λ r. r.id == a.id) change (λ r. (refl, refl)) m.node_id
                m.user_id db.members
              ∙ ap (Option.map (λ r. if r.id == a.id then change r else r)) e)
          ∙ ground (arith, eq_refl a.id),
      refl,
      refl,
    )

-- In a table whose relations are unique, and with a new id that is fresh, the upsert by (node_id,
-- user_id) succeeds, and leaves an active row of the relation with the id that it answers and the
-- position that it was given.
pub upsert_by_relation_total :
    (host : Host) (m : OrgMember) (db : Db)
    → HasRelations db.members
    → IsFresh host db
    → IsUpserted host m db
upsert_by_relation_total host m db keys fresh =
    elim (Option-cases (find_active m.node_id m.user_id db.members)) [
      | inl inactive ↦
          let (row, saved, answer, active, id, role, position) =
            add_member-inactive host m db keys fresh inactive in
          let same = upsert-inactive host m db inactive in
          (
            row,
            saved,
            ap (λ r. r.0) same ∙ answer,
            ap (λ r. find_active m.node_id m.user_id r.1.members) same ∙ active,
            id,
            position,
          )
      | inr (a, active) ↦ active_upsert host m a db keys active
    ]

any_other :
    (id node_id user_id : String) (old : OrgMember) (rows : List OrgMember)
    → find_relation node_id user_id rows ≡ some old
    → (old.id == id) ≡ false
    → any (λ r. not (r.id == id) && at_relation node_id user_id r) rows ≡ true
unfolding find_relation
any_other id node_id user_id old [] e h = cc
any_other id node_id user_id old (r ∷ rs) e h = ground (arith, any_other id node_id user_id old rs)

pub any_known :
    (source external_id : String) (existing : OrgMember) (rows : List OrgMember)
    → find_external source external_id rows ≡ some existing
    → any (λ r. r.id == existing.id) rows ≡ true
unfolding find_external
any_known source external_id existing [] e = cc
any_known source external_id existing (r ∷ rs) e =
    ground (arith, eq_refl r.id, any_known source external_id existing rs)

pub upsert-known :
    (host : Host) (m existing : OrgMember) (db : Db)
    → (trim_space m.external_id == "") ≡ false
    → find_external m.source m.external_id db.members ≡ some existing
    → upsert_member_by_external_id host m db ≡ relate_external host m existing db
unfolding upsert_member_by_external_id
upsert-known host m existing db named known = rw (named, known, upsert_member_by_external_id)

relate-refused :
    (host : Host) (m existing : OrgMember) (db : Db)
    → find_active m.node_id m.user_id db.members ≡ none
    → any (λ r. not (r.id == existing.id) && at_relation m.node_id m.user_id r) db.members ≡ true
    → any (λ r. r.id == existing.id) db.members ≡ true
    → relate_external host m existing db ≡ (err unique_violation, timed db)
unfolding relate_external
relate-refused host m existing db inactive other here = rw (inactive, relate_external, other, here)

-- In a table whose relations are unique, a member who is known by its external id is refused by the
-- database where it moves to a relation that another, deleted row still has.
pub relate_external-deleted :
    (host : Host) (m existing old : OrgMember) (db : Db)
    → HasRelations db.members
    → (trim_space m.external_id == "") ≡ false
    → find_external m.source m.external_id db.members ≡ some existing
    → find_relation m.node_id m.user_id db.members ≡ some old
    → is_live old ≡ false
    → (old.id == existing.id) ≡ false
    → reply (upsert_member_by_external_id host m) db ≡ err unique_violation
relate_external-deleted host m existing old db keys named known e dead differ =
    let inactive : find_active m.node_id m.user_id db.members ≡ none =
      find_active-relation m.node_id m.user_id db.members keys
      ∙ ap (keep is_live) e
      ∙ ground (arith, dead) in
    ap (λ r. r.0)
      (upsert-known host m existing db named known
        ∙ relate-refused host m existing db inactive
            (any_other existing.id m.node_id m.user_id old db.members e differ)
            (any_known m.source m.external_id existing db.members known))
