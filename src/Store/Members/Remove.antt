-- ===== src/Store/Members/Remove.antt =====
-- RemoveMember of server/store/member_store.go, and AddMember behind it.
use mathlib.Core.Option
use mattermost_plugin_org_di.Common.{
  String, ◌==◌, ◌≡◌, refl, ap, sym, ◌∙◌, Bool, true, ◌&&◌, not, Option, none, some, List, arith,
  eq_iff, if◌then◌else◌, after, reply, ok,
}
use mattermost_plugin_org_di.Common.Sql.{update, select_row-test}
use mattermost_plugin_org_di.Model.{OrgMember, member_pre_save}
use mattermost_plugin_org_di.Store.Db.{Host, Db, IsSane}
use mattermost_plugin_org_di.Store.Members.Rows.{is_live, at_relation, find_active, find_deleted}
use mattermost_plugin_org_di.Store.Members.Save.{add_member, remove_member, deleted_at}
use mattermost_plugin_org_di.Store.Members.Keys.{
  HasRelations, find_relation, keep, find_active-relation, find_deleted-relation,
  update-HasRelations, find_relation-update,
}
use mattermost_plugin_org_di.Store.Members.Add.{IsActive, keep-some, add_member-restored}

module _ (host : Host) (node_id user_id : String) (db : Db) (sane : IsSane host)
    (keys : HasRelations db.members) where
  abbrev goes : OrgMember → Bool
  goes m = at_relation node_id user_id m && is_live m

  abbrev gone : OrgMember → OrgMember
  gone m = if goes m then deleted_at (host.clock db.clock_reads) m else m

  abbrev rows : List OrgMember
  rows = update goes (deleted_at (host.clock db.clock_reads)) db.members

  members-remove_member : (after (remove_member host node_id user_id) db).members ≡ rows
  unfolding remove_member
  members-remove_member = refl

  rows-HasRelations : HasRelations rows
  rows-HasRelations =
      update-HasRelations goes (deleted_at (host.clock db.clock_reads)) (λ r. (refl, refl))
        db.members keys

  find_rows :
      (i j : String) → find_relation i j rows ≡ Option.map gone (find_relation i j db.members)
  find_rows i j =
      find_relation-update goes (deleted_at (host.clock db.clock_reads)) (λ r. (refl, refl)) i j
        db.members

  -- On a sane host, in a table whose relations are unique, RemoveMember ends the one active
  -- membership that it names, and every other is found as it was.
  pub find_active-remove_member :
      (i j : String)
      → find_active i j (after (remove_member host node_id user_id) db).members
        ≡ (if (i == node_id) && (j == user_id) then none else find_active i j db.members)
  find_active-remove_member i j =
      ap (find_active i j) members-remove_member
      ∙ find_active-relation i j rows rows-HasRelations
      ∙ ap (keep is_live) (find_rows i j)
      ∙ by_case (find_relation i j db.members) refl
      ∙ ap (λ o. if (i == node_id) && (j == user_id) then none else o)
          (sym (find_active-relation i j db.members keys))
    where
      by_case :
          (o : Option OrgMember)
          → find_relation i j db.members ≡ o
          → keep is_live (Option.map gone o)
            ≡ (if (i == node_id) && (j == user_id) then none else keep is_live o)
      by_case none e = ground arith
      by_case (some r) e =
          let here : at_relation i j r ≡ true =
            unfold find_relation in select_row-test (at_relation i j) db.members r e in
          ground (
            arith,
            here,
            sane.clock_pos db.clock_reads,
            eq_iff r.node_id i,
            eq_iff r.user_id j,
            eq_iff r.node_id node_id,
            eq_iff r.user_id user_id,
            eq_iff i node_id,
            eq_iff j user_id,
          )

-- On a sane host, in a table whose relations are unique, an active member who is removed and added
-- again comes back under the id of the row that the table still holds.
pub remove-add_same_row :
    (host : Host) (m a : OrgMember) (db : Db)
    → IsSane host
    → HasRelations db.members
    → IsActive db m.node_id m.user_id a
    → (saved : OrgMember) × (reply
          (add_member host m)
          (after (remove_member host m.node_id m.user_id) db)
        ≡ ok saved)
      × (saved.id ≡ a.id)
unfolding member_pre_save
remove-add_same_row host m a db sane keys active =
    let (e, live) =
      keep-some is_live (find_relation m.node_id m.user_id db.members) a
        (sym (find_active-relation m.node_id m.user_id db.members keys) ∙ active) in
    let old : OrgMember = deleted_at (host.clock db.clock_reads) a in
    let removed : Db = after (remove_member host m.node_id m.user_id) db in
    let here : at_relation m.node_id m.user_id a ≡ true =
      unfold find_relation in select_row-test (at_relation m.node_id m.user_id) db.members a e in
    let hit : gone host m.node_id m.user_id db sane keys a ≡ old = ground (arith, here, live) in
    let found : find_deleted m.node_id m.user_id removed.members ≡ some old =
      ap (find_deleted m.node_id m.user_id)
        (members-remove_member host m.node_id m.user_id db sane keys)
      ∙ find_deleted-relation m.node_id m.user_id (rows host m.node_id m.user_id db sane keys)
          (rows-HasRelations host m.node_id m.user_id db sane keys)
      ∙ ap (keep (λ x. not (is_live x))) (
          find_rows host m.node_id m.user_id db sane keys m.node_id m.user_id
          ∙ ap (Option.map (gone host m.node_id m.user_id db sane keys)) e
          ∙ ap some hit)
      ∙ ground (arith, sane.clock_pos db.clock_reads) in
    let done = add_member-restored host m old removed found in
    (
      record (member_pre_save m) {
        id = a.id;
        update_at = host.clock removed.clock_reads;
        create_at = host.clock removed.clock_reads;
      },
      ap (λ r. r.0) done,
      refl,
    )
