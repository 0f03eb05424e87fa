-- ===== src/Tests/Api.antt =====
-- The handlers of server/api.go that write, and the directory of roles, on the organisation of World.
use mattermost_plugin_org_di.Common.{
  ◌≤◌, String, ◌==◌, ◌≡◌, refl, true, false, ◌&&◌, not, none, some, List, [], ◌∷◌, pos, arith, eqb,
  if◌then◌else◌, message,
}
use mattermost_plugin_org_di.Model.{OrgMember, member_pre_save}
use mattermost_plugin_org_di.Store.Db.{Host}
use mattermost_plugin_org_di.Store.Nodes.Rows.{find_node}
use mattermost_plugin_org_di.Store.Nodes.Move.{move_node, move_subtree, parent_position, node_row}
use mattermost_plugin_org_di.Store.Members.Rows.{
  find_active, find_deleted, find_external, insert_member,
}
use mattermost_plugin_org_di.Store.Members.Save.{
  add_member, restore_or_insert, remove_member, reorder_members_from, reorder_members,
}
use mattermost_plugin_org_di.Store.Members.Keys.{HasRelations}
use mattermost_plugin_org_di.Store.Members.Table.{IsTable}
use mattermost_plugin_org_di.Store.Members.Relate.{IsRelated, upsert_member-IsRelated}
use mattermost_plugin_org_di.Store.Members.Roles.{
  RoleCommand, grant, revoke, change, roles_of, apply_all, perform, perform_all,
}
use mattermost_plugin_org_di.Store.Members.Roles.Refine.{AllFresh, perform_all-roles}
use mattermost_plugin_org_di.Store.Schema.{Run, migrate}
use mattermost_plugin_org_di.Store.Schema.Resume.{
  fresh, sound, IsMigrated, migrate_all, migrate-resumed,
}
use mattermost_plugin_org_di.Plugin.Permissions.{
  Request, check_auth, check_node_permission, allows_any, allows_at, is_role_sufficient,
  role_weight, walk,
}
use mattermost_plugin_org_di.Common.Text.{
  split_slash, trim_prefix, has_prefix, drop_prefix, trim_space, trim_left, trim_right, all_blank,
  is_blank,
}
use mattermost_plugin_org_di.Plugin.Api.Http.{World, Platform}
use mattermost_plugin_org_di.Plugin.Api.Nodes.{handle_move_node}
use mattermost_plugin_org_di.Plugin.Api.Members.{handle_reorder_members}
use mattermost_plugin_org_di.Plugin.Api.Serve.{
  Command, put_node, post_move, post_node, put_role, post_member_order, serve, handle, admitted,
  entitled,
}
use mattermost_plugin_org_di.Plugin.Api.Serve.Refused.{serve_refused}
use mattermost_plugin_org_di.Plugin.Api.Serve.Answers.{SameOrg}
use mattermost_plugin_org_di.Plugin.Api.Serve.Partial.{FailsTo}
use mattermost_plugin_org_di.Plugin.Api.Serve.Atomic.{serve_failed}
use mattermost_plugin_org_di.Plugin.Api.Serve.Consistent.{IsConsistent}
use mattermost_plugin_org_di.Plugin.Api.Serve.Kept.{Admissible}
use mattermost_plugin_org_di.Plugin.Api.Serve.Reach.{Reach, start, next, Reach-IsConsistent}
use mattermost_plugin_org_di.Tests.World.{
  host, host-IsSane, org_db-IsTree, staffed_db, membership, bob, eve,
}

abbrev platform : Platform
platform = record {
  is_system_admin = λ user. user == "root";
  user_exists = λ user. true;
  json_entry = λ key value. key;
  constraint_text = "duplicate key";
}

abbrev world : World
world = record { db = staffed_db; events = [] }

abbrev request_of : String → Request
request_of user = record { method = "PUT"; path = ""; authorization = ""; user_id = user }

staffed-HasRelations : HasRelations staffed_db.members
staffed-HasRelations = (refl, (refl, (refl, (refl, tt))))

staffed-IsTable : IsTable staffed_db.members
staffed-IsTable = record {
  ids = (refl, (refl, (refl, (refl, tt))));
  relations = staffed-HasRelations;
}

-- "eve" is a member of the department, not its manager.
eve_refused : (not ("eve" == "") && entitled platform "eve" (put_node "b" none) world) ≡ false
unfolding entitled check_node_permission allows_any allows_at is_role_sufficient role_weight walk
    find_node find_active split_slash trim_prefix has_prefix drop_prefix
eve_refused = refl

serve_refused_example :
    (400 ≤ (serve host platform none (request_of "eve") (put_node "b" none) world).0)
    × ((serve host platform none (request_of "eve") (put_node "b" none) world).1 ≡ world)
serve_refused_example =
    serve_refused host platform none (request_of "eve") (put_node "b" none) world eve_refused

-- The company cannot move under its own department.
circular : (serve host platform none (request_of "root") (post_move "a" (some "b")) world).0 ≡ 500
unfolding serve admitted handle check_auth handle_move_node move_node move_subtree parent_position
    node_row has_prefix
circular = refl

circular_failed :
    400 ≤ (serve host platform none (request_of "root") (post_move "a" (some "b")) world).0
circular_failed = omega (arith, circular)

circular_unchanged :
    SameOrg world (serve host platform none (request_of "root") (post_move "a" (some "b")) world).1
circular_unchanged =
    serve_failed host platform none (request_of "root") (post_move "a" (some "b")) world
      circular_failed

-- The second UPDATE of a reordering fails.
abbrev stopping : Host
stopping = record host {
  update_error = λ n i. if eqb i 1 then some (message "invalid byte sequence") else none;
}

abbrev team_order : Command
team_order = post_member_order "b" (some ("eve" ∷ "ann" ∷ []))

stopped : (serve stopping platform none (request_of "root") team_order world).0 ≡ 500
unfolding serve admitted handle check_auth handle_reorder_members check_node_permission
    reorder_members reorder_members_from
stopped = refl

stopped_failed : 400 ≤ (serve stopping platform none (request_of "root") team_order world).0
stopped_failed = omega (arith, stopped)

serve_failed_example :
    FailsTo stopping team_order world
      (serve stopping platform none (request_of "root") team_order world).1
serve_failed_example =
    serve_failed stopping platform none (request_of "root") team_order world stopped_failed

abbrev desk : Command
desk = post_node (
    some
      (record { name = "Desk"; parent_id = "c"; description = ""; icon = ""; sort_order = pos 0 }))

-- "root" makes "eve" a manager of the department, and adds a node to the team.
two_requests :
    Reach host platform none world
      (serve host platform none
        (request_of "root")
        desk
        (serve host platform none
          (request_of "root")
          (put_role "b" "eve" (some "manager"))
          world).1).1
unfolding Admissible
two_requests =
    next (request_of "root") desk
      (next (request_of "root") (put_role "b" "eve" (some "manager")) (start world) tt) tt

Reach-IsConsistent_example :
    IsConsistent
      (serve host platform none
        (request_of "root")
        desk
        (serve host platform none
          (request_of "root")
          (put_role "b" "eve" (some "manager"))
          world).1).1.db
Reach-IsConsistent_example =
    Reach-IsConsistent host platform none world _ host-IsSane two_requests
      (org_db-IsTree, staffed-IsTable)

-- "eve", known as "x1", gets a membership of the team in place of the department's.
abbrev eve_in_team : OrgMember
eve_in_team = membership "" "c" "eve" "manager" "x1" 0

x1_named : (trim_space "x1" == "") ≡ false
unfolding trim_space trim_left trim_right all_blank is_blank
x1_named = refl

x1_known : find_external "hr" "x1" staffed_db.members ≡ some eve
unfolding find_external
x1_known = refl

team_undeleted : find_deleted "c" "eve" staffed_db.members ≡ none
unfolding find_deleted
team_undeleted = refl

upsert_member-IsRelated_example : IsRelated host eve_in_team eve staffed_db
upsert_member-IsRelated_example =
    upsert_member-IsRelated host eve_in_team eve staffed_db staffed-IsTable x1_named x1_known
      team_undeleted

abbrev changes : List RoleCommand
changes = revoke "b" "ann" ∷ grant bob ∷ change "b" "eve" "admin" ∷ []

changes-AllFresh : AllFresh host changes staffed_db
unfolding AllFresh perform remove_member add_member restore_or_insert find_deleted member_pre_save
    insert_member
changes-AllFresh = (refl, (refl, (refl, tt)))

perform_all-roles_example :
    roles_of (perform_all host changes staffed_db) ≡ apply_all changes (roles_of staffed_db)
perform_all-roles_example =
    perform_all-roles host changes staffed_db host-IsSane staffed-IsTable changes-AllFresh

-- A run that stops at the second migration.
abbrev halting : Run
halting = record { reads = true; accepts = λ v. eqb v 1; writes = λ v. true }

-- A run that executes everything, but reads and writes no version.
abbrev forgetful : Run
forgetful = record { reads = false; accepts = λ v. true; writes = λ v. false }

migrate-resumed_example : IsMigrated (
    migrate sound
      (migrate_all (halting ∷ forgetful ∷ []) (record { stored = none; executed = [] })))
migrate-resumed_example =
    migrate-resumed (halting ∷ forgetful ∷ []) (record { stored = none; executed = [] }) fresh
