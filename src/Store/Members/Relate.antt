-- ===== src/Store/Members/Relate.antt =====
-- UpsertMemberByExternalID of server/store/member_store.go for a membership that is known by its
-- external id: what it answers, and the row that it leaves.
use mattermost_plugin_org_di.Common.{
  ℕ, suc, String, ◌++◌, ◌==◌, ◌≡◌, refl, ap, ◌∙◌, subst, true, false, ◌&&◌, none, some, List, [],
  ◌∷◌, arith, ==-path, eq_refl, any, inl, inr, Bool-cases, Option-cases, Result, ok, err, message,
  reply, after,
}
use mattermost_plugin_org_di.Common.Text.{trim_space}
use mattermost_plugin_org_di.Common.Sql.{update}
use mattermost_plugin_org_di.Model.{OrgMember}
use mattermost_plugin_org_di.Store.Db.{Host, Db}
use mattermost_plugin_org_di.Store.Members.Rows.{
  is_live, at_relation, find_active, find_deleted, find_external, write_relation,
}
use mattermost_plugin_org_di.Store.Members.Save.{
  related, relate_external, upsert_member_by_external_id,
}
use mattermost_plugin_org_di.Store.Members.Keys.{HasRelations}
use mattermost_plugin_org_di.Store.Members.Table.{IsTable, HasIds, taken}
use mattermost_plugin_org_di.Store.Members.Keys.{relation_same}
use mattermost_plugin_org_di.Store.Members.Upsert.{any_known, upsert-known}

-- No other row has the relation where none has it.
free_none :
    (id : String) (m : OrgMember) (now : ℕ) (rows : List OrgMember)
    → find_active m.node_id m.user_id rows ≡ none
    → find_deleted m.node_id m.user_id rows ≡ none
    → taken id m now rows ≡ false
unfolding find_active find_deleted
free_none id m now [] a d = refl
free_none id m now (r ∷ rs) a d = ground (arith, a, d, free_none id m now rs)

free_absent :
    (id : String) (m : OrgMember) (now : ℕ) (rows : List OrgMember)
    → any (at_relation m.node_id m.user_id) rows ≡ false
    → taken id m now rows ≡ false
free_absent id m now [] h = refl
free_absent id m now (r ∷ rs) h = ground (arith, h, free_absent id m now rs)

active_absent :
    (m : OrgMember) (rows : List OrgMember)
    → any (at_relation m.node_id m.user_id) rows ≡ false
    → find_active m.node_id m.user_id rows ≡ none
unfolding find_active
active_absent m [] h = refl
active_absent m (r ∷ rs) h = ground (arith, h, active_absent m rs)

-- Nor where the row with the id has it.
free_own :
    (m other : OrgMember) (id : String) (now : ℕ) (rows : List OrgMember)
    → HasRelations rows
    → find_active m.node_id m.user_id rows ≡ some other
    → (other.id == id) ≡ true
    → taken id m now rows ≡ false
unfolding find_active
free_own m other id now [] keys a h = refl
free_own m other id now (r ∷ rs) keys a h = elim (Bool-cases (at_relation m.node_id m.user_id r)) [
  | inr away ↦ ground (arith, away, a, h, free_own m other id now rs keys.1)
  | inl here ↦
      let gone = relation_same m.node_id m.user_id r rs here keys.0 in
      ground (arith, here, gone, a, h, free_absent id m now rs gone, active_absent m rs gone)
]

differs :
    (r existing : OrgMember) (rows : List OrgMember)
    → any (λ x. x.id == r.id) rows ≡ false
    → any (λ x. x.id == existing.id) rows ≡ true
    → (r.id == existing.id) ≡ false
differs r existing rows h k = elim (Bool-cases (r.id == existing.id)) [
  | inr other ↦ other
  | inl same ↦
      let named : any (λ x. x.id == existing.id) rows ≡ false =
        subst (λ i. any (λ x. x.id == i) rows ≡ false) (==-path _ _ same) h in
      cc (named, k)
]

-- The row that the UPDATE leaves is found at the relation.
moved_active :
    (m existing : OrgMember) (now : ℕ) (rows : List OrgMember)
    → HasIds rows
    → find_external m.source m.external_id rows ≡ some existing
    → taken existing.id m now rows ≡ false
    → find_active m.node_id m.user_id (update (λ r. r.id == existing.id) (related m now) rows)
      ≡ some (related m now existing)
unfolding find_active find_external
moved_active m existing now [] ids e free = cc
moved_active m existing now (r ∷ rs) ids e free =
    elim (Bool-cases ((r.source == m.source) && (r.external_id == m.external_id) && is_live r)) [
      | inl here ↦
          let same : r ≡ existing = ground (arith, e, here) in
          ground (arith, here, same, eq_refl existing.id, eq_refl m.node_id, eq_refl m.user_id)
      | inr away ↦
          let found : find_external m.source m.external_id rs ≡ some existing =
            ground (arith, e, away) in
          let other : (r.id == existing.id) ≡ false =
            differs r existing rs ids.0 (any_known m.source m.external_id existing rs found) in
          ground (arith, other, free, moved_active m existing now rs ids.1 found)
    ]

-- What UpsertMemberByExternalID does for a member whose external id names the active row `existing`.
pub data IsRelated (host : Host) (m existing : OrgMember) (db : Db) : Type 0 where
  conflicting :
      (other : OrgMember)
      → find_active m.node_id m.user_id db.members ≡ some other
      → (other.id == existing.id) ≡ false
      → upsert_member_by_external_id host m db ≡ (
        err (
            message (
              "member relation conflict for node_id="
              ++ (m.node_id ++ (" user_id=" ++ m.user_id)))),
        db,
      )
      → IsRelated host m existing db
  moved :
      (saved : OrgMember)
      → reply (upsert_member_by_external_id host m) db ≡ ok saved
      → find_active m.node_id m.user_id (after (upsert_member_by_external_id host m) db).members
        ≡ some saved
      → saved.id ≡ existing.id
      → (saved.role ≡ m.role) × (saved.position ≡ m.position)
      → IsRelated host m existing db

-- The UPDATE is made.
abbrev written : Host → OrgMember → OrgMember → Db → Result OrgMember × Db
written host m existing db =
    let now = host.clock db.clock_reads in
    (
      ok (related m now existing),
      record db {
        clock_reads = suc db.clock_reads;
        members = update (λ r. r.id == existing.id) (related m now) db.members;
      },
    )

free-IsRelated :
    (host : Host) (m existing : OrgMember) (db : Db)
    → IsTable db.members
    → (trim_space m.external_id == "") ≡ false
    → find_external m.source m.external_id db.members ≡ some existing
    → taken existing.id m (host.clock db.clock_reads) db.members ≡ false
    → relate_external host m existing db ≡ written host m existing db
    → IsRelated host m existing db
free-IsRelated host m existing db t named known free run =
    let whole = upsert-known host m existing db named known ∙ run in
    moved (related m (host.clock db.clock_reads) existing) (ap (λ r. r.0) whole)
      (ap (λ r. find_active m.node_id m.user_id r.1.members) whole
        ∙ moved_active m existing (host.clock db.clock_reads) db.members t.ids known free)
      refl (refl, refl)

relate_free :
    (host : Host) (m existing : OrgMember) (db : Db)
    → find_active m.node_id m.user_id db.members ≡ none
    → taken existing.id m (host.clock db.clock_reads) db.members ≡ false
    → relate_external host m existing db ≡ written host m existing db
unfolding relate_external write_relation
relate_free host m existing db inactive free = rw (inactive, free) refl

relate_own :
    (host : Host) (m existing other : OrgMember) (db : Db)
    → find_active m.node_id m.user_id db.members ≡ some other
    → (other.id == existing.id) ≡ true
    → taken existing.id m (host.clock db.clock_reads) db.members ≡ false
    → relate_external host m existing db ≡ written host m existing db
unfolding relate_external write_relation
relate_own host m existing other db active same free = rw (active, same, free) refl

relate_conflict :
    (host : Host) (m existing other : OrgMember) (db : Db)
    → find_active m.node_id m.user_id db.members ≡ some other
    → (other.id == existing.id) ≡ false
    → relate_external host m existing db ≡ (
      err (
          message
            ("member relation conflict for node_id=" ++ (m.node_id ++ (" user_id=" ++ m.user_id)))),
      db,
    )
unfolding relate_external
relate_conflict host m existing other db active differ = rw (active, differ) refl

-- In a table in which no id and no relation comes twice, and where no deleted row has the relation
-- of the member, UpsertMemberByExternalID of a member whose external id names an active row either
-- answers the error of a conflict and changes nothing, where another active row has the relation,
-- or succeeds with the id of that row, and the search for the relation then finds the row as it was
-- answered, with the role and position of the member.
pub upsert_member-IsRelated :
    (host : Host) (m existing : OrgMember) (db : Db)
    → IsTable db.members
    → (trim_space m.external_id == "") ≡ false
    → find_external m.source m.external_id db.members ≡ some existing
    → find_deleted m.node_id m.user_id db.members ≡ none
    → IsRelated host m existing db
upsert_member-IsRelated host m existing db t named known undeleted =
    elim (Option-cases (find_active m.node_id m.user_id db.members)) [
      | inl inactive ↦
          let free =
            free_none existing.id m (host.clock db.clock_reads) db.members inactive undeleted in
          free-IsRelated host m existing db t named known free
            (relate_free host m existing db inactive free)
      | inr (other, active) ↦ elim (Bool-cases (other.id == existing.id)) [
        | inr differ ↦ conflicting other active differ (
            upsert-known host m existing db named known
            ∙ relate_conflict host m existing other db active differ)
        | inl same ↦
            let free =
              free_own m other existing.id (host.clock db.clock_reads) db.members t.relations active
                same in
            free-IsRelated host m existing db t named known free
              (relate_own host m existing other db active same free)
      ]
    ]
