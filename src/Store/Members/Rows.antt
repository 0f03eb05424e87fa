-- ===== src/Store/Members/Rows.antt =====
-- server/store/member_store.go: the searches for one membership, and the constraints of
-- org_directory_members.
use mattermost_plugin_org_di.Common.{
  ℕ, String, ◌==◌, Bool, ◌&&◌, ◌||◌, not, Option, List, eqb, if◌then◌else◌, any, length, Exec, ok,
  err, unique_violation, or_no_rows, ltb,
}
use mattermost_plugin_org_di.Common.Sql.{select, select_row, update, affected, append_row}
use mattermost_plugin_org_di.Model.{OrgMember}
use mattermost_plugin_org_di.Store.Db.{Db}

abbrev pub is_live : OrgMember → Bool
is_live m = eqb m.delete_at 0

abbrev pub at_relation : String → String → OrgMember → Bool
at_relation node_id user_id m = (m.node_id == node_id) && (m.user_id == user_id)

unfoldable pub find_active : String → String → List OrgMember → Option OrgMember
find_active node_id user_id rows = select_row (λ m. at_relation node_id user_id m && is_live m) rows

unfoldable pub find_deleted : String → String → List OrgMember → Option OrgMember
find_deleted node_id user_id rows =
    select_row (λ m. at_relation node_id user_id m && not (is_live m)) rows

unfoldable pub find_external : String → String → List OrgMember → Option OrgMember
find_external source external_id rows =
    select_row (λ m. (m.source == source) && (m.external_id == external_id) && is_live m) rows

-- getActiveMemberByNodeAndUser and GetMemberRole, which run the same query
unfoldable pub get_member_role : String → String → Exec Db OrgMember
get_member_role node_id user_id db = or_no_rows (find_active node_id user_id db.members) db

-- IsMember
unfoldable pub is_member : String → String → Db → Bool
is_member node_id user_id db =
    ltb 0 (length (select (λ m. at_relation node_id user_id m && is_live m) db.members))

-- INSERT, with PRIMARY KEY(id) and UNIQUE(node_id, user_id), which count deleted rows too.
unfoldable pub insert_member : OrgMember → Exec Db (Unit {0})
insert_member m db =
    if any (λ r. (r.id == m.id) || at_relation m.node_id m.user_id r) db.members
    then (err unique_violation, db)
    else (ok tt, record db { members = append_row db.members (record m { delete_at = 0 }) })

abbrev pub write_rows : (OrgMember → Bool) → (OrgMember → OrgMember) → Exec Db (Unit {0})
write_rows p f db = (ok tt, record db { members = update p f db.members })

abbrev pub write_counted : (OrgMember → Bool) → (OrgMember → OrgMember) → Exec Db ℕ
write_counted p f db = (ok (affected p db.members), record db { members = update p f db.members })

-- UPDATE … SET node_id, user_id, … WHERE id: refused where another row has the relation.
unfoldable pub write_relation : String → OrgMember → (OrgMember → OrgMember) → Exec Db (Unit {0})
write_relation id m f db =
    if any (λ r. not (r.id == id) && at_relation m.node_id m.user_id r) db.members
      && any (λ r. r.id == id) db.members
    then (err unique_violation, db)
    else (ok tt, record db { members = update (λ r. r.id == id) f db.members })
