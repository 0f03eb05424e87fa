-- ===== src/Tests/Trees.antt =====
-- The tree of server/store/node_store.go on the organisation of World.
use mathlib.Core.Option
use mattermost_plugin_org_di.Common.{◌≡◌, refl, some, pos, ◌+ℤ◌, after, reply, ok, arith}
use mattermost_plugin_org_di.Common.Text.{has_prefix, like}
use mattermost_plugin_org_di.Model.{OrgNode}
use mattermost_plugin_org_di.Store.Nodes.Rows.{find_node, find_external}
use mattermost_plugin_org_di.Store.Nodes.Save.{create_node, update_node, upsert_node_by_external_id}
use mattermost_plugin_org_di.Store.Nodes.Move.{move_node, move_subtree, parent_position, node_row}
use mattermost_plugin_org_di.Store.Nodes.Delete.{delete_node}
use mattermost_plugin_org_di.Store.Tree.Invariant.{IsTree, shape}
use mattermost_plugin_org_di.Store.Tree.Create.{create_node-IsTree, update_node-IsTree}
use mattermost_plugin_org_di.Store.Tree.Delete.{cascade_keeps_members, unless}
use mattermost_plugin_org_di.Store.Tree.Cascade.{below, find_node-cascade, cascade-IsTree}
use mattermost_plugin_org_di.Store.Tree.Reparent.{reparent_breaks-IsTree}
use mattermost_plugin_org_di.Store.Tree.Move.{IsLiveRow, move_node-IsTree}
use mattermost_plugin_org_di.Store.Tree.Upsert.{upsert-IsTree, upsert_never_moves}
use mattermost_plugin_org_di.Tests.World.{
  host, host-IsSane, draft, department, team, org_db, org_db-IsTree, staffed_db,
}

found_department : find_node "b" org_db.nodes ≡ some department
unfolding find_node
found_department = refl

found_team : find_node "c" org_db.nodes ≡ some team
unfolding find_node
found_team = refl

known_team : find_external "hr" "e3" org_db.nodes ≡ some team
unfolding find_external
known_team = refl

live_team : IsLiveRow org_db.nodes "c"
live_team r e = ground arith

live_company : IsLiveRow org_db.nodes "a"
live_company r e = ground arith

create_node-IsTree_example : IsTree (after (create_node host (draft "Desk" "c" "e4")) org_db).nodes
create_node-IsTree_example =
    create_node-IsTree host host-IsSane (draft "Desk" "c" "e4") org_db org_db-IsTree

update_node-IsTree_example :
    IsTree (after (update_node host (record team { name = "Crew" })) org_db).nodes
update_node-IsTree_example =
    update_node-IsTree host (record team { name = "Crew" }) org_db org_db-IsTree

move_node-IsTree_example : IsTree (after (move_node host "c" "a") org_db).nodes
move_node-IsTree_example = move_node-IsTree host "c" "a" org_db org_db-IsTree live_team live_company

-- The team moves up to the company, with its path and depth.
moved_team :
    Option.map shape (find_node "c" (after (move_node host "c" "a") org_db).nodes)
    ≡ some (shape (record team { parent_id = "a"; path = "/a/c"; depth = pos 1 }))
unfolding move_node move_subtree parent_position node_row find_node ◌+ℤ◌ has_prefix like
moved_team = refl

upsert-IsTree_example :
    IsTree (after (upsert_node_by_external_id host (draft "Crew" "a" "e3")) org_db).nodes
upsert-IsTree_example = upsert-IsTree host host-IsSane (draft "Crew" "a" "e3") org_db org_db-IsTree

upsert_never_moves_example :
    (Option.map shape (
        find_node "c"
          (after (upsert_node_by_external_id host (draft "Crew" "a" "e3")) org_db).nodes)
      ≡ Option.map shape (find_node "c" org_db.nodes))
    × (m : OrgNode) × (reply (upsert_node_by_external_id host (draft "Crew" "a" "e3")) org_db
        ≡ ok m)
    × (m.parent_id ≡ "a")
upsert_never_moves_example =
    upsert_never_moves host (draft "Crew" "a" "e3") team org_db "c" known_team

find_node-cascade_example :
    find_node "c" (after (delete_node host "b" "cascade_delete") org_db).nodes
    ≡ unless (below department) (find_node "c" org_db.nodes)
find_node-cascade_example =
    find_node-cascade host "b" "cascade_delete" department org_db host-IsSane org_db-IsTree
      found_department refl "c"

cascade-IsTree_example : IsTree (after (delete_node host "b" "cascade_delete") org_db).nodes
cascade-IsTree_example =
    cascade-IsTree host "b" "cascade_delete" department org_db host-IsSane org_db-IsTree
      found_department refl

cascade_keeps_members_example :
    (after (delete_node host "b" "cascade_delete") staffed_db).members ≡ staffed_db.members
cascade_keeps_members_example =
    cascade_keeps_members host "b" "cascade_delete" department staffed_db host-IsSane
      found_department refl

reparent_breaks-IsTree_example :
    ¬ IsTree (after (delete_node host "b" "move_to_parent") org_db).nodes
reparent_breaks-IsTree_example =
    reparent_breaks-IsTree host "b" department org_db host-IsSane org_db-IsTree found_department "c"
      team found_team refl
