-- ===== src/Tests/Relations.antt =====
-- The memberships of server/store/member_store.go, the permissions and the user mappings.
use mattermost_plugin_org_di.Common.{
  String, ◌==◌, ◌≡◌, refl, Bool, true, false, ◌||◌, none, some, after, reply, ok, err, wrapped,
  unique_violation, ◌↔◌,
}
use mattermost_plugin_org_di.Common.Text.{
  trim_space, split_slash, trim_prefix, has_prefix, drop_prefix,
}
use mattermost_plugin_org_di.Model.{OrgMember, UserMapping}
use mattermost_plugin_org_di.Store.Nodes.Rows.{find_node}
use mattermost_plugin_org_di.Store.Members.Rows.{find_active, find_external}
use mattermost_plugin_org_di.Store.Members.Save.{
  add_member, remove_member, upsert_member_by_external_id,
}
use mattermost_plugin_org_di.Store.Members.Keys.{HasRelations, find_relation}
use mattermost_plugin_org_di.Store.Members.Add.{
  IsActive, IsAdded, add_member-active, add_member-inactive,
}
use mattermost_plugin_org_di.Store.Members.Remove.{find_active-remove_member, remove-add_same_row}
use mattermost_plugin_org_di.Store.Members.Upsert.{
  IsUpserted, upsert_by_relation_total, relate_external-deleted,
}
use mattermost_plugin_org_di.Store.Mappings.{find_mapping, upsert_user_mapping, delete_user_mapping}
use mattermost_plugin_org_di.Store.Mappings.Laws.{mm_user, mm_user-upsert, find_mapping-delete}
use mattermost_plugin_org_di.Plugin.Permissions.{
  allows_at, check_node_permission, is_role_sufficient, role_weight, walk, allows_any,
}
use mattermost_plugin_org_di.Common.Text.{trim_left, trim_right, all_blank, is_blank}
use mattermost_plugin_org_di.Plugin.Config.{Configuration, zero_configuration}
use mattermost_plugin_org_di.Plugin.Permissions.{Request, unauthorized, check_sync_token}
use mattermost_plugin_org_di.Plugin.Permissions.Token.{check_sync_token-padded}
use mattermost_plugin_org_di.Plugin.Permissions.Inherit.{
  check_node_permission-child, check_node_permission-root,
}
use mattermost_plugin_org_di.Plugin.Permissions.Roles.{
  manager, Granted, check_node_permission-Granted,
}
use mattermost_plugin_org_di.Tests.World.{
  host, host-IsSane, company, department, org_db-IsTree, membership, ann, bob, eve, former_eve,
  staffed_db,
}

staffed-HasRelations : HasRelations staffed_db.members
staffed-HasRelations = (refl, (refl, (refl, (refl, tt))))

ann-IsActive : IsActive staffed_db "b" "ann" ann
unfolding find_active
ann-IsActive = refl

add_member-active_example :
    (reply (add_member host ann) staffed_db ≡ err (wrapped "failed to add member" unique_violation))
    × ((after (add_member host ann) staffed_db).members ≡ staffed_db.members)
add_member-active_example =
    add_member-active host ann ann staffed_db staffed-HasRelations ann-IsActive

bob_inactive : find_active "b" "bob" staffed_db.members ≡ none
unfolding find_active
bob_inactive = refl

add_member-inactive_example : IsAdded host bob staffed_db
add_member-inactive_example =
    add_member-inactive host bob staffed_db staffed-HasRelations refl bob_inactive

find_active-remove_member_example :
    find_active "b" "eve" (after (remove_member host "b" "ann") staffed_db).members
    ≡ find_active "b" "eve" staffed_db.members
find_active-remove_member_example =
    find_active-remove_member host "b" "ann" staffed_db host-IsSane staffed-HasRelations "b" "eve"

remove-add_same_row_example :
    (saved : OrgMember) × (reply
        (add_member host ann)
        (after (remove_member host "b" "ann") staffed_db)
      ≡ ok saved)
    × (saved.id ≡ "m1")
remove-add_same_row_example =
    remove-add_same_row host ann ann staffed_db host-IsSane staffed-HasRelations ann-IsActive

upsert_by_relation_total_example : IsUpserted host bob staffed_db
upsert_by_relation_total_example =
    upsert_by_relation_total host bob staffed_db staffed-HasRelations refl

-- "eve" moves to the company, where she was once.
known_eve : find_external "hr" "x1" staffed_db.members ≡ some eve
unfolding find_external
known_eve = refl

relation_eve : find_relation "a" "eve" staffed_db.members ≡ some former_eve
unfolding find_relation
relation_eve = refl

eve_named : (trim_space "x1" == "") ≡ false
unfolding trim_space trim_left trim_right all_blank is_blank
eve_named = refl

relate_external-deleted_example :
    reply (upsert_member_by_external_id host (membership "" "a" "eve" "member" "x1" 0)) staffed_db
    ≡ err unique_violation
relate_external-deleted_example =
    relate_external-deleted host (membership "" "a" "eve" "member" "x1" 0) eve former_eve staffed_db
      staffed-HasRelations eve_named known_eve relation_eve refl refl

abbrev nobody : String → Bool
nobody user = false

found_department : find_node "b" staffed_db.nodes ≡ some department
unfolding find_node
found_department = refl

found_company : find_node "a" staffed_db.nodes ≡ some company
unfolding find_node
found_company = refl

check_node_permission-child_example :
    check_node_permission nobody "ann" "b" "manager" staffed_db ≡ (
      allows_at "ann" "manager" "b" staffed_db
      || check_node_permission nobody "ann" "a" "manager" staffed_db)
check_node_permission-child_example =
    check_node_permission-child nobody "ann" "manager" staffed_db org_db-IsTree "b" department
      company found_department found_company

check_node_permission-root_example :
    check_node_permission nobody "ann" "a" "manager" staffed_db
    ≡ (allows_at "ann" "manager" "a" staffed_db || nobody "ann")
check_node_permission-root_example =
    check_node_permission-root nobody "ann" "manager" staffed_db org_db-IsTree "a" company
      found_company refl

ann_may : check_node_permission nobody "ann" "b" "manager" staffed_db ≡ true
unfolding check_node_permission allows_any allows_at is_role_sufficient role_weight walk find_node
    find_active split_slash trim_prefix has_prefix drop_prefix
ann_may = refl

check_node_permission-Granted_example :
    (check_node_permission nobody "ann" "b" "manager" staffed_db ≡ true)
    ↔ Granted nobody "ann" "b" manager staffed_db
check_node_permission-Granted_example =
    check_node_permission-Granted nobody "ann" "b" manager staffed_db

abbrev link : UserMapping
link = record {
  id = "";
  source = "hr";
  external_user_id = "u1";
  mm_user_id = "ann";
  external_username = "";
  external_email = "";
  create_at = 0;
  update_at = 0;
  delete_at = 0;
}

mm_user-upsert_example :
    mm_user "hr" "u1" (after (upsert_user_mapping host link) staffed_db) ≡ some "ann"
mm_user-upsert_example = mm_user-upsert host link staffed_db refl

find_mapping-delete_example :
    find_mapping "hr" "u2" (after (delete_user_mapping host "hr" "u1") staffed_db).mappings
    ≡ find_mapping "hr" "u2" staffed_db.mappings
find_mapping-delete_example = find_mapping-delete host host-IsSane "hr" "u1" "hr" "u2" staffed_db

abbrev padded : Configuration
padded = record zero_configuration { sync_api_token = " key" }

abbrev request : Request
request = record {
  method = "GET";
  path = "/api/v1/sync/nodes";
  authorization = "Bearer  key";
  user_id = "ann";
}

padded_configured : (trim_space padded.sync_api_token == "") ≡ false
unfolding trim_space trim_left trim_right all_blank is_blank
padded_configured = refl

padded_cut : (trim_space padded.sync_api_token == padded.sync_api_token) ≡ false
unfolding trim_space trim_left trim_right all_blank is_blank
padded_cut = refl

check_sync_token-padded_example : check_sync_token nobody padded request ≡ unauthorized
check_sync_token-padded_example =
    check_sync_token-padded nobody padded request padded_configured padded_cut
