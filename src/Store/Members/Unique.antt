-- ===== src/Store/Members/Unique.antt =====
-- server/store/member_store.go: the constraints of org_directory_members as an invariant of its rows,
-- and what the methods that write do to it.
use mattermost_plugin_org_di.Common.{
  ℕ, suc, String, ◌==◌, refl, ◌&&◌, Option, none, some, List, [], ◌∷◌, inl, inr, Bool-cases,
  Option-cases, if-both, elim-both, any, pos, Result, ok, err, continue, pure,
}
use mattermost_plugin_org_di.Common.Text.{trim_space}
use mattermost_plugin_org_di.Model.{OrgMember, member_pre_save}
use mattermost_plugin_org_di.Store.Db.{Host, Db}
use mattermost_plugin_org_di.Store.Members.Rows.{
  at_relation, find_active, find_external, write_relation,
}
use mattermost_plugin_org_di.Store.Members.Save.{
  revived, related, restore_or_insert, add_member, remove_member, update_member_role,
  update_member_position, reorder_members_from, reorder_members, update_active,
  upsert_member_by_node_and_user, relate_external, adopt_external, upsert_member_by_external_id,
  soft_delete_members_by_source,
}
use mattermost_plugin_org_di.Store.Members.Table.{
  IsTable, update-HasIds, update-IsTable, HasTable, insert_member-IsTable, then_pure-HasTable,
  taken, moved_relations,
}

module _ (host : Host) where
  restore-IsTable :
      (m : OrgMember) (now : ℕ) (o : Option OrgMember) (db : Db)
      → IsTable db.members
      → HasTable (restore_or_insert host m now o db)
  unfolding restore_or_insert
  restore-IsTable m now (some old) db t =
      update-IsTable (λ r. r.id == old.id) (revived m m.external_id now) db.members (λ r. refl)
        (λ r. (refl, refl)) t
  restore-IsTable m now none db t =
      let new : OrgMember = record m {
        id = host.new_id db.ids_drawn;
        create_at = now;
        update_at = now;
      } in
      then_pure-HasTable "failed to add member" new _
        (insert_member-IsTable new (record db { ids_drawn = suc db.ids_drawn }) t)

  pub add_member-IsTable :
      (m : OrgMember) (db : Db) → IsTable db.members → HasTable (add_member host m db)
  unfolding add_member
  add_member-IsTable m db t = restore-IsTable (member_pre_save m) _ _ _ t

  pub remove_member-IsTable :
      (node_id user_id : String) (db : Db)
      → IsTable db.members
      → HasTable (remove_member host node_id user_id db)
  unfolding remove_member
  remove_member-IsTable node_id user_id db t =
      update-IsTable _ _ db.members (λ r. refl) (λ r. (refl, refl)) t

  pub update_member_role-IsTable :
      (node_id user_id role : String) (db : Db)
      → IsTable db.members
      → HasTable (update_member_role host node_id user_id role db)
  unfolding update_member_role
  update_member_role-IsTable node_id user_id role db t =
      update-IsTable _ _ db.members (λ r. refl) (λ r. (refl, refl)) t

  pub update_member_position-IsTable :
      (node_id user_id position : String) (db : Db)
      → IsTable db.members
      → HasTable (update_member_position host node_id user_id position db)
  unfolding update_member_position
  update_member_position-IsTable node_id user_id position db t =
      update-IsTable _ _ db.members (λ r. refl) (λ r. (refl, refl)) t

  reorder_from-IsTable :
      (now i : ℕ) (node_id : String) (user_ids : List String) (db : Db)
      → IsTable db.members
      → HasTable (reorder_members_from host now i node_id user_ids db)
  unfolding reorder_members_from
  reorder_from-IsTable now i node_id [] db t = t
  reorder_from-IsTable now i node_id (u ∷ us) db t =
      elim (Option-cases (host.update_error db.clock_reads i)) [
        | inr (stopped, e) ↦ rw e t
        | inl e ↦ rw e (
            reorder_from-IsTable now (suc i) node_id us _ (
              update-IsTable (at_relation node_id u)
                (λ m. record m { sort_order = pos i; update_at = now }) db.members (λ r. refl)
                (λ r. (refl, refl)) t))
      ]

  pub reorder_members-IsTable :
      (node_id : String) (user_ids : List String) (db : Db)
      → IsTable db.members
      → HasTable (reorder_members host node_id user_ids db)
  unfolding reorder_members
  reorder_members-IsTable node_id user_ids db t = reorder_from-IsTable _ 0 node_id user_ids _ t

  update_active-IsTable :
      (m existing : OrgMember) (external_id : String) (db : Db)
      → IsTable db.members
      → HasTable (update_active host m existing external_id db)
  unfolding update_active
  update_active-IsTable m existing external_id db t =
      update-IsTable _ _ db.members (λ r. refl) (λ r. (refl, refl)) t

  upsert_relation-IsTable :
      (m : OrgMember) (db : Db)
      → IsTable db.members
      → HasTable (upsert_member_by_node_and_user host m db)
  unfolding upsert_member_by_node_and_user
  upsert_relation-IsTable m db t =
      elim-both HasTable (find_active m.node_id m.user_id db.members) _ _
        (add_member-IsTable m db t) (λ existing. update_active-IsTable m existing _ db t)

  adopt-IsTable :
      (m : OrgMember) (db : Db) → IsTable db.members → HasTable (adopt_external host m db)
  unfolding adopt_external
  adopt-IsTable m db t =
      elim-both HasTable (find_active m.node_id m.user_id db.members) _ _
        (add_member-IsTable m db t) (λ existing. update_active-IsTable m existing _ db t)

  write_relation-IsTable :
      (id : String) (m : OrgMember) (now : ℕ) (db : Db)
      → IsTable db.members
      → HasTable (write_relation id m (related m now) db)
  unfolding write_relation
  write_relation-IsTable id m now db t =
      elim (Bool-cases (taken id m now db.members && any (λ r. r.id == id) db.members)) [
        | inl e ↦ rw e t
        | inr e ↦ rw e (record {
          ids = update-HasIds (λ r. r.id == id) (related m now) db.members (λ r. refl) t.ids;
          relations = moved_relations id m now db.members e t;
        })
      ]

  then_related-HasTable :
      (m : OrgMember) (r : Result (Unit {0}) × Db)
      → HasTable r
      → HasTable (continue (λ done. pure m) r)
  then_related-HasTable m (ok done, db) t = t
  then_related-HasTable m (err e, db) t = t

  relate-IsTable :
      (m existing : OrgMember) (db : Db)
      → IsTable db.members
      → HasTable (relate_external host m existing db)
  unfolding relate_external
  relate-IsTable m existing db t = if-both HasTable _ _ _ t (
      then_related-HasTable (related m (host.clock db.clock_reads) existing) _ (
        write_relation-IsTable existing.id m (host.clock db.clock_reads)
          (record db { clock_reads = suc db.clock_reads }) t))

  -- UpsertMemberByExternalID leaves a table of memberships in which no id and no relation comes
  -- twice, on every branch, where it was so.
  upsert_member-IsTable :
      (m : OrgMember) (db : Db)
      → IsTable db.members
      → HasTable (upsert_member_by_external_id host m db)
  unfolding upsert_member_by_external_id
  upsert_member-IsTable m db t =
      if-both HasTable (trim_space m.external_id == "") _ _ (upsert_relation-IsTable m db t) (
        elim-both HasTable (find_external m.source m.external_id db.members) _ _
          (adopt-IsTable m db t) (λ existing. relate-IsTable m existing db t))

  pub soft_delete_source-IsTable :
      (source : String) (ids keys : List String) (db : Db)
      → IsTable db.members
      → HasTable (soft_delete_members_by_source host source ids keys db)
  unfolding soft_delete_members_by_source
  soft_delete_source-IsTable source ids keys db t =
      update-IsTable _ _ db.members (λ r. refl) (λ r. (refl, refl)) t
