-- ===== src/Store/Members/Save.antt =====
-- server/store/member_store.go: the methods that write memberships.
use mattermost_plugin_org_di.Common.{
  ℕ, suc, String, ◌++◌, ◌==◌, Bool, false, ◌&&◌, ◌||◌, not, Option, none, some, List, [], ◌∷◌, pos,
  if◌then◌else◌, contains, is_nil, Exec, err, message, pure, wrap, ◌>>=◌, ◌>>◌,
}
use mattermost_plugin_org_di.Common.Text.{trim_space}
use mattermost_plugin_org_di.Model.{OrgMember, member_pre_save}
use mattermost_plugin_org_di.Store.Db.{Host, Db, read_clock, draw_id, attempt}
use mattermost_plugin_org_di.Store.Members.Rows.{
  is_live, at_relation, find_active, find_deleted, find_external, insert_member, write_rows,
  write_counted, write_relation,
}

-- SET role, position, sort_order, source, external_id, update_at, delete_at=0
abbrev pub revived : OrgMember → String → ℕ → OrgMember → OrgMember
revived m external_id now r = record r {
  role = m.role;
  position = m.position;
  sort_order = m.sort_order;
  source = m.source;
  external_id = external_id;
  update_at = now;
  delete_at = 0;
}

-- SET node_id, user_id, role, position, sort_order, update_at, delete_at=0
abbrev pub related : OrgMember → ℕ → OrgMember → OrgMember
related m now r = record r {
  node_id = m.node_id;
  user_id = m.user_id;
  role = m.role;
  position = m.position;
  sort_order = m.sort_order;
  update_at = now;
  delete_at = 0;
}

abbrev pub deleted_at : ℕ → OrgMember → OrgMember
deleted_at now m = record m { delete_at = now; update_at = now }

module _ (host : Host) where
  -- The part of AddMember behind the search for a deleted row.
  unfoldable pub restore_or_insert : OrgMember → ℕ → Option OrgMember → Exec Db OrgMember
  unfolding insert_member
  restore_or_insert m now (some old) = do
    write_rows (λ r. r.id == old.id) (revived m m.external_id now)
    pure (record m { id = old.id; update_at = now; create_at = now })
  restore_or_insert m now none = do
    id ← draw_id host
    wrap "failed to add member"
        (insert_member (record m { id = id; create_at = now; update_at = now }))
    pure (record m { id = id; create_at = now; update_at = now })

  -- AddMember
  unfoldable pub add_member : OrgMember → Exec Db OrgMember
  add_member m db =
      (do
        now ← read_clock host
        restore_or_insert (member_pre_save m) now (find_deleted m.node_id m.user_id db.members))
        db

  -- RemoveMember
  unfoldable pub remove_member : String → String → Exec Db (Unit {0})
  remove_member node_id user_id = do
    now ← read_clock host
    write_rows (λ m. at_relation node_id user_id m && is_live m) (deleted_at now)

  -- UpdateMemberRole
  unfoldable pub update_member_role : String → String → String → Exec Db (Unit {0})
  update_member_role node_id user_id role = do
    now ← read_clock host
    write_rows (λ m. at_relation node_id user_id m && is_live m)
        (λ m. record m { role = role; update_at = now })

  -- UpdateMemberPosition
  unfoldable pub update_member_position : String → String → String → Exec Db (Unit {0})
  update_member_position node_id user_id position = do
    now ← read_clock host
    write_rows (λ m. at_relation node_id user_id m && is_live m)
        (λ m. record m { position = position; update_at = now })

  -- ReorderMembers, from the i-th user on
  unfoldable pub reorder_members_from : ℕ → ℕ → String → List String → Exec Db (Unit {0})
  reorder_members_from now i node_id [] = pure tt
  reorder_members_from now i node_id (user_id ∷ user_ids) = do
    attempt host i
    write_rows (at_relation node_id user_id) (λ m. record m { sort_order = pos i; update_at = now })
    reorder_members_from now (suc i) node_id user_ids

  unfoldable pub reorder_members : String → List String → Exec Db (Unit {0})
  unfolding reorder_members_from
  reorder_members node_id user_ids = do
    now ← read_clock host
    reorder_members_from now 0 node_id user_ids

  -- An UPDATE of the active row `existing` in place.
  unfoldable pub update_active : OrgMember → OrgMember → String → Exec Db OrgMember
  update_active m existing external_id = do
    now ← read_clock host
    write_rows (λ r. r.id == existing.id) (revived m external_id now)
    pure (revived m external_id now existing)

  -- UpsertMemberByNodeAndUser
  unfoldable pub upsert_member_by_node_and_user : OrgMember → Exec Db OrgMember
  unfolding update_active add_member
  upsert_member_by_node_and_user m db = elim (find_active m.node_id m.user_id db.members) [
    | none ↦ add_member m db
    | some existing ↦
        update_active m existing
          (if trim_space m.external_id == "" then existing.external_id else m.external_id) db
  ]

  conflict : OrgMember → OrgMember → Option OrgMember → Bool
  conflict m existing none = false
  conflict m existing (some other) = not (other.id == existing.id)

  -- The branch of UpsertMemberByExternalID for a known (source, external_id).
  unfoldable pub relate_external : OrgMember → OrgMember → Exec Db OrgMember
  unfolding conflict write_relation
  relate_external m existing db =
      if conflict m existing (find_active m.node_id m.user_id db.members)
      then (
        err (
            message (
              "member relation conflict for node_id="
              ++ (m.node_id ++ (" user_id=" ++ m.user_id)))),
        db,
      )
      else (do
        now ← read_clock host
        write_relation existing.id m (related m now)
        pure (related m now existing))
          db

  -- The branch for an unknown one.
  unfoldable pub adopt_external : OrgMember → Exec Db OrgMember
  unfolding update_active add_member
  adopt_external m db = elim (find_active m.node_id m.user_id db.members) [
    | none ↦ add_member m db
    | some existing ↦ update_active m existing m.external_id db
  ]

  -- UpsertMemberByExternalID
  unfoldable pub upsert_member_by_external_id : OrgMember → Exec Db OrgMember
  unfolding relate_external adopt_external upsert_member_by_node_and_user
  upsert_member_by_external_id m db =
      if trim_space m.external_id == ""
      then upsert_member_by_node_and_user m db
      else (elim (find_external m.source m.external_id db.members) [
        | none ↦ adopt_external m db
        | some existing ↦ relate_external m existing db
      ])

  -- SoftDeleteMembersBySource
  unfoldable pub soft_delete_members_by_source : String → List String → List String → Exec Db ℕ
  soft_delete_members_by_source source external_ids keys = do
    now ← read_clock host
    write_counted
        (λ m.
          (m.source == source)
          && is_live m
          && (is_nil external_ids
              || (m.external_id == "")
              || not (contains m.external_id external_ids))
          && (is_nil keys || not (contains (m.node_id ++ (":" ++ m.user_id)) keys)))
        (deleted_at now)

-- SoftDeleteMembersByNodeID
unfoldable pub soft_delete_members_by_node_id : String → ℕ → Exec Db ℕ
soft_delete_members_by_node_id node_id now =
    write_counted (λ m. (m.node_id == node_id) && is_live m) (deleted_at now)
