-- ===== src/Tests/Queries.antt =====
-- The queries: the order of a synchronisation, the nodes of the sync API, the trees and the members.
use mathlib.Core.List
use mattermost_plugin_org_di.Common.{
  ◌+◌, ◌≤◌, ◌<◌, String, ◌==◌, ◌≡◌, refl, true, false, none, some, List, [], ◌∷◌, map, pos, ◌+ℤ◌,
  arith, All, length,
}
use mattermost_plugin_org_di.Common.Sql.{order_by}
use mattermost_plugin_org_di.Common.Text.{trim_space, trim_left, trim_right, all_blank, is_blank}
use mattermost_plugin_org_di.Common.Atoi.{atoi}
use mattermost_plugin_org_di.Store.Nodes.Rows.{find_node, find_external}
use mattermost_plugin_org_di.Store.Nodes.Queries.{get_child_nodes, get_node_member_count}
use mattermost_plugin_org_di.Store.Nodes.Children.{longest}
use mattermost_plugin_org_di.Store.Members.Queries.{User, get_members, get_members_for_nodes}
use mattermost_plugin_org_di.Store.Members.Queries.Single.{get_members_for_nodes-single}
use mattermost_plugin_org_di.Model.Sync.{SyncNodePayload}
use mattermost_plugin_org_di.Plugin.Sync.Order.{Indexed, topological_sort_nodes}
use mattermost_plugin_org_di.Plugin.Sync.Order.Ids.{HasExternalIds, exts}
use mattermost_plugin_org_di.Plugin.Sync.Order.Sorted.{
  nodes, left_over, topological_sort_nodes_total,
}
use mattermost_plugin_org_di.Plugin.Sync.Order.Drain.{IsRun, is_ready}
use mattermost_plugin_org_di.Plugin.Sync.Dto.{
  build_sync_node_dto, build_sync_node_dtos_with_pool, by_position,
}
use mattermost_plugin_org_di.Plugin.Sync.Dto.Known.{IsPool}
use mattermost_plugin_org_di.Plugin.Sync.Dto.Pool.{build_dtos_with_pool_lem}
use mattermost_plugin_org_di.Plugin.Api.Http.{Response, json}
use mattermost_plugin_org_di.Plugin.Api.Nodes.Views.{children_of_node, members_at}
use mattermost_plugin_org_di.Plugin.Api.Trees.{
  TreeNode, tree_node, leaf, branch, build_tree_node, build_children, handle_get_sub_tree,
}
use mattermost_plugin_org_di.Plugin.Api.Trees.Total.{handle_get_sub_tree_total}
use mattermost_plugin_org_di.Plugin.Api.Trees.Height.{height, build_tree_node-height}
use mattermost_plugin_org_di.Plugin.Api.Sync.Reads.{handle_list_sync_nodes}
use mattermost_plugin_org_di.Plugin.Api.Sync.Wanted.{Reads, missing, number}
use mattermost_plugin_org_di.Plugin.Api.Sync.Listing.{
  Names, parent, listing, handle_list_sync_nodes_lem,
}
use mattermost_plugin_org_di.Plugin.Command.{execute_command}
use mattermost_plugin_org_di.Plugin.Command.Render.{execute_command_total}
use mattermost_plugin_org_di.Tests.World.{
  host, org_db, org_db-IsTree, staffed_db, company, department, team,
}

short_paths : longest org_db.nodes < 7
short_paths = omega arith

handle_get_sub_tree_total_example :
    (r : Response TreeNode) × (handle_get_sub_tree host org_db 7 "b" "" ≡ some r)
handle_get_sub_tree_total_example =
    handle_get_sub_tree_total host org_db org_db-IsTree 7 "b" "" short_paths

abbrev drawn : TreeNode
drawn = tree_node company false 0 (branch (tree_node department true 0 leaf) leaf)

drawn-company : build_tree_node host org_db 5 (pos 1) (pos 0) company ≡ some drawn
unfolding build_tree_node build_children children_of_node members_at get_child_nodes
    get_node_member_count ◌+ℤ◌
drawn-company = refl

build_tree_node-height_example : height drawn + 0 ≤ 1
build_tree_node-height_example =
    build_tree_node-height host org_db 5 1 0 company drawn drawn-company (omega arith)

known-IsPool : IsPool org_db.nodes (department ∷ [])
unfolding find_node
known-IsPool = (refl, tt)

build_dtos_with_pool_lem_example :
    build_sync_node_dtos_with_pool org_db.nodes (team ∷ department ∷ []) (department ∷ [])
    ≡ map (build_sync_node_dto org_db.nodes) (order_by by_position (team ∷ department ∷ []))
build_dtos_with_pool_lem_example =
    build_dtos_with_pool_lem org_db.nodes (team ∷ department ∷ []) (department ∷ []) known-IsPool

source_named : (trim_space "hr" == "") ≡ false
unfolding trim_space trim_left trim_right all_blank is_blank
source_named = refl

company_named : Names org_db (trim_space "hr") "e1" (some company)
unfolding trim_space trim_left trim_right all_blank is_blank find_external
company_named = parent company refl refl

one-Reads : Reads "1" (some 1)
unfolding atoi trim_space trim_left trim_right all_blank is_blank
one-Reads = number 1 refl refl

blank-Reads : Reads "" none
unfolding trim_space trim_left trim_right all_blank is_blank
blank-Reads = missing refl

-- The team, two levels below the company.
handle_list_sync_nodes_lem_example :
    handle_list_sync_nodes host org_db "hr" "1" "" "e1"
    ≡ json 200 (listing host org_db (trim_space "hr") (some company) (some 1) none)
handle_list_sync_nodes_lem_example =
    handle_list_sync_nodes_lem host org_db "hr" "1" "" "e1" (some company) (some 1) none
      org_db-IsTree source_named company_named one-Reads blank-Reads

abbrev fields : String → List String
fields text = "/org" ∷ "tree" ∷ []

execute_command_total_example :
    (answer : String) × (execute_command host [] "" org_db fields (λ name. none) 7 "/org tree"
      ≡ some answer)
execute_command_total_example =
    execute_command_total host org_db org_db-IsTree [] "" fields (λ name. none) 7 "/org tree"
      short_paths

abbrev user_ann : User
user_ann = record {
  id = "ann";
  username = "ann";
  first_name = "";
  last_name = "";
  nickname = "";
  email = "";
  position = "";
  last_picture_update = 0;
  delete_at = 0;
}

get_members_for_nodes-single_example :
    get_members_for_nodes host (user_ann ∷ []) ("b" ∷ []) (pos 0) (pos 20) staffed_db
    ≡ get_members host (user_ann ∷ []) "b" (pos 0) (pos 20) staffed_db
get_members_for_nodes-single_example =
    get_members_for_nodes-single host (user_ann ∷ []) (λ s. refl) "b" (pos 0) (pos 20) staffed_db

abbrev payload : String → String → SyncNodePayload
payload external_id parent_external_id = record {
  external_id = external_id;
  name = external_id;
  parent_external_id = parent_external_id;
  sort_order = pos 0;
  description = "";
  icon = "";
  metadata = "";
  action = "";
}

-- A child before its parent, and a node whose parent is not among them.
abbrev shuffled : List SyncNodePayload
shuffled = payload "n2" "n1" ∷ payload "n1" "" ∷ payload "n4" "e9" ∷ []

shuffled-HasExternalIds : HasExternalIds shuffled
shuffled-HasExternalIds = (refl, (refl, (refl, tt)))

topological_sort_nodes_total_example :
    (out : List Indexed) × (topological_sort_nodes 3 shuffled
      ≡ some (map (λ p. p.1) (List.◌++◌ out (left_over shuffled shuffled-HasExternalIds out))))
    × IsRun (nodes shuffled shuffled-HasExternalIds) [] out
    × All (λ p. is_ready (exts out) p ≡ false) (left_over shuffled shuffled-HasExternalIds out)
    × (length out + length (left_over shuffled shuffled-HasExternalIds out) ≡ 3)
topological_sort_nodes_total_example =
    topological_sort_nodes_total shuffled shuffled-HasExternalIds 3 (omega arith)
