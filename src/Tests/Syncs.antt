-- ===== src/Tests/Syncs.antt =====
-- The synchronisation of server/api_sync.go.
use mattermost_plugin_org_di.Common.{
  String, ◌==◌, ◌≡◌, refl, none, some, List, [], ◌∷◌, pos, after, if◌then◌else◌,
}
use mattermost_plugin_org_di.Common.Sql.{select}
use mattermost_plugin_org_di.Model.Sync.{SyncNodePayload, SyncMemberPayload}
use mattermost_plugin_org_di.Store.Nodes.Delete.{soft_delete_nodes_by_source}
use mattermost_plugin_org_di.Store.Members.Save.{soft_delete_members_by_source}
use mattermost_plugin_org_di.Store.Tree.Invariant.{IsTree}
use mattermost_plugin_org_di.Plugin.Sync.State.{Server, SyncState, empty_response}
use mattermost_plugin_org_di.Plugin.Sync.Order.{topological_sort_nodes}
use mathlib.Core.Option
use mattermost_plugin_org_di.Common.{ℕ}
use mattermost_plugin_org_di.Common.Text.{trim_space}
use mattermost_plugin_org_di.Model.{member_pre_save}
use mattermost_plugin_org_di.Store.Logs.{create_sync_log}
use mattermost_plugin_org_di.Store.Nodes.Rows.{find_external}
use mattermost_plugin_org_di.Store.Members.Rows.{find_active, find_deleted}
use mattermost_plugin_org_di.Store.Members.Save.{upsert_member_by_external_id, restore_or_insert}
use mattermost_plugin_org_di.Store.Mappings.{find_mapping, upsert_user_mapping, save_mapping}
use mattermost_plugin_org_di.Plugin.Sync.Users.{resolve_mm_user}
use mattermost_plugin_org_di.Model.Sync.{SyncRequest}
use mattermost_plugin_org_di.Plugin.Config.{zero_configuration}
use mattermost_plugin_org_di.Plugin.Sync.Execute.{execute_sync_request}
use mattermost_plugin_org_di.Plugin.Sync.Order.Cycle.{topological_sort_nodes-none}
use mattermost_plugin_org_di.Plugin.Sync.Nodes.{process_nodes}
use mattermost_plugin_org_di.Plugin.Sync.Members.{process_members}
use mattermost_plugin_org_di.Plugin.Sync.Tree.{process_nodes-IsTree}
use mattermost_plugin_org_di.Plugin.Sync.Stale.{
  live_node_of, live_member_of, live_nodes-soft_delete, live_members-soft_delete,
}
use mattermost_plugin_org_di.Plugin.Sync.Counts.{
  node_outcomes, member_outcomes, process_nodes-counts, process_members-counts,
}
use mattermost_plugin_org_di.Tests.World.{
  host, host-IsSane, org_db-IsTree, staffed_db, company, team, ann, eve,
}

abbrev server : Server
server = record {
  user_by_email = λ email. none;
  user_by_username = λ name. if name == "ann" then some "ann" else none;
  to_lower = λ s. s;
  constraint_text = "duplicate key";
}

abbrev node_payload : String → String → String → SyncNodePayload
node_payload external_id parent_external_id action = record {
  external_id = external_id;
  name = external_id;
  parent_external_id = parent_external_id;
  sort_order = pos 0;
  description = "";
  icon = "";
  metadata = "";
  action = action;
}

abbrev member_payload : String → String → SyncMemberPayload
member_payload node_external_id name = record {
  external_id = "";
  node_external_id = node_external_id;
  external_user_id = name;
  external_username = name;
  external_email = "";
  role = "";
  position = "";
  sort_order = pos 0;
  action = "";
}

abbrev started : SyncState
started = record {
  resp = empty_response;
  node_ids = [];
  member_ids = [];
  member_keys = [];
  db = staffed_db;
  broadcasts = [];
}

-- A new node, a child of it, a deletion, and a payload without a known parent.
abbrev payloads : List SyncNodePayload
payloads =
    node_payload "n1" "" ""
    ∷ node_payload "n2" "n1" ""
    ∷ node_payload "e3" "" "delete"
    ∷ node_payload "n4" "e9" ""
    ∷ []

abbrev member_payloads : List SyncMemberPayload
member_payloads =
    member_payload "e1" "ann" ∷ member_payload "e1" "tom" ∷ member_payload "e9" "ann" ∷ []

process_nodes-IsTree_example :
    IsTree (process_nodes host server "hr" "cascade_delete" payloads started).db.nodes
process_nodes-IsTree_example =
    process_nodes-IsTree host host-IsSane server "hr" "cascade_delete" refl payloads started
      org_db-IsTree

process_nodes-counts_example :
    ((process_nodes host server "hr" "cascade_delete" payloads started).resp.total_nodes ≡ 4)
    × (node_outcomes (process_nodes host server "hr" "cascade_delete" payloads started).resp ≡ 4)
process_nodes-counts_example =
    process_nodes-counts host server "hr" "cascade_delete" payloads started

process_members-counts_example :
    ((process_members host server "" "hr" member_payloads started).resp.total_members ≡ 3)
    × (member_outcomes (process_members host server "" "hr" member_payloads started).resp ≡ 3)
process_members-counts_example = process_members-counts host server "" "hr" member_payloads started

live_nodes-soft_delete_example :
    select
      (live_node_of "hr")
      (after (soft_delete_nodes_by_source host "hr" ("e1" ∷ "e3" ∷ [])) staffed_db).nodes
    ≡ company ∷ team ∷ []
live_nodes-soft_delete_example =
    live_nodes-soft_delete host host-IsSane "hr" ("e1" ∷ "e3" ∷ []) staffed_db

live_members-soft_delete_example :
    select
      (live_member_of "hr")
      (after
        (soft_delete_members_by_source host "hr" ("x1" ∷ []) ("b:ann" ∷ []))
        staffed_db).members
    ≡ ann ∷ eve ∷ []
live_members-soft_delete_example =
    live_members-soft_delete host host-IsSane "hr" ("x1" ∷ []) ("b:ann" ∷ []) staffed_db

-- Two payloads named "n1", of which the second hangs under the first.
topological_sort_nodes-none_example :
    topological_sort_nodes 1000 (node_payload "n1" "" "" ∷ node_payload "n1" "n1" "" ∷ []) ≡ none
topological_sort_nodes-none_example =
    topological_sort_nodes-none "n1" (node_payload "n1" "" "" ∷ node_payload "n1" "n1" "" ∷ []) refl
      refl 1000

abbrev summary : SyncState → String × ℕ × ℕ
summary s = (s.resp.status, s.resp.created_members, s.resp.skipped_users)

abbrev sync_request : SyncRequest
sync_request = record {
  source = "hr";
  sync_type = "incremental";
  nodes = [];
  members = member_payloads;
}

-- A synchronisation of members alone: one is created, one is skipped, one has no node; the status is
-- "failed".
members_only :
    Option.map summary
      (execute_sync_request host server 0 zero_configuration sync_request staffed_db)
    ≡ some ("failed", 1, 1)
unfolding execute_sync_request topological_sort_nodes process_members find_external process_nodes
    create_sync_log resolve_mm_user find_mapping upsert_member_by_external_id trim_space find_active
    upsert_user_mapping save_mapping restore_or_insert find_deleted member_pre_save
members_only = refl
