-- ===== src/Plugin/Api/Sync.antt =====
-- server/api_sync.go: the handlers of the sync API that write. A body is `none` where json.Decode
-- refuses it; the answer is `none` where the sort of the nodes ran out of fuel.
pub mod Reads
pub mod Users
pub mod Wanted
pub mod Listing
use mattermost_plugin_org_di.Common.{
  ℕ, suc, String, ◌==◌, Bool, Option, none, some, List, [], ◌∷◌, map, if◌then◌else◌, Result, ok,
  err, eqb,
}
use mathlib.Core.List
use mattermost_plugin_org_di.Model.{UserMapping}
use mattermost_plugin_org_di.Model.Sync.{
  SyncRequest, SyncNodePayload, SyncMemberPayload, SyncResponse,
}
use mattermost_plugin_org_di.Store.Db.{Host, Db}
use mattermost_plugin_org_di.Store.Mappings.{find_mapping, upsert_user_mapping}
use mattermost_plugin_org_di.Plugin.Config.{Configuration, get_configuration}
use mattermost_plugin_org_di.Plugin.Sync.State.{Server, SyncState}
use mattermost_plugin_org_di.Plugin.Sync.Execute.{execute_sync_request}
use mattermost_plugin_org_di.Plugin.Api.Http.{World, Response, failure, json, Event, tree_update}

-- The bodies of handleSyncNodes, handleSyncMembers and handleSyncUserMappings.
pub record SyncNodesRequest : Type 0 where
  pub source : String
  pub sync_type : String
  pub nodes : List SyncNodePayload

pub record SyncMembersRequest : Type 0 where
  pub source : String
  pub sync_type : String
  pub members : List SyncMemberPayload

pub record MappingsRequest : Type 0 where
  pub source : String
  pub mappings : List UserMapping

-- The counts of handleSyncUserMappings, and the store between its rounds.
pub record MappingCounts : Type 0 where
  pub created : ℕ
  pub updated : ℕ
  pub db : Db

module _ (host : Host) where
  -- m.CreateAt after UpsertUserMapping(&m): an insertion sets it, an update leaves it.
  abbrev create_at_after : UserMapping → UserMapping → Option UserMapping → ℕ
  create_at_after m saved none = saved.create_at
  create_at_after m saved (some existing) = m.create_at

  abbrev count_mapping : UserMapping → MappingCounts → Result UserMapping × Db → MappingCounts
  count_mapping m s (err e, db) = record s { db = db }
  count_mapping m s (ok saved, db) =
      if eqb (create_at_after m saved (find_mapping m.source m.external_user_id s.db.mappings)) 0
      then record s { updated = suc s.updated; db = db }
      else record s { created = suc s.created; db = db }

  -- The loop of handleSyncUserMappings.
  unfoldable pub sync_mappings : String → List UserMapping → MappingCounts → MappingCounts
  sync_mappings source [] s = s
  sync_mappings source (m ∷ ms) s =
      let m' = record m { source = source } in
      sync_mappings source ms (count_mapping m' s (upsert_user_mapping host m' s.db))

  abbrev with_counts : World → MappingCounts → Response (ℕ × ℕ) × World
  with_counts w s = (json 200 (s.created, s.updated), record w { db = s.db })

  -- handleSyncUserMappings, whose answer has the counts of created and updated mappings
  unfoldable pub handle_sync_user_mappings :
      Option MappingsRequest → World → Response (ℕ × ℕ) × World
  unfolding sync_mappings
  handle_sync_user_mappings none w = (failure 400 "invalid request body", w)
  handle_sync_user_mappings (some req) w =
      with_counts w
        (sync_mappings req.source req.mappings (record { created = 0; updated = 0; db = w.db }))

  module _ (server : Server) (config : Option Configuration) (fuel : ℕ) where
    abbrev synced : World → Option SyncState → Option (Response SyncResponse × World)
    synced w none = none
    synced w (some s) = some (
      json 200 s.resp,
      record { db = s.db; events = List.◌++◌ w.events (map tree_update s.broadcasts) },
    )

    -- "source is required", and p.executeSyncRequest(…)
    unfoldable pub sync_requested : SyncRequest → World → Option (Response SyncResponse × World)
    unfolding get_configuration
    sync_requested req w =
        if req.source == ""
        then some (failure 400 "source is required", w)
        else synced w (execute_sync_request host server fuel (get_configuration config) req w.db)

    -- handleSyncData
    unfoldable pub handle_sync_data :
        Option SyncRequest → World → Option (Response SyncResponse × World)
    unfolding sync_requested
    handle_sync_data none w = some (failure 400 "invalid request body", w)
    handle_sync_data (some req) w = sync_requested req w

    -- handleSyncNodes
    unfoldable pub handle_sync_nodes :
        Option SyncNodesRequest → World → Option (Response SyncResponse × World)
    unfolding sync_requested
    handle_sync_nodes none w = some (failure 400 "invalid request body", w)
    handle_sync_nodes (some req) w =
        sync_requested
          (record {
            source = req.source;
            sync_type = req.sync_type;
            nodes = req.nodes;
            members = [];
          })
          w

    -- handleSyncMembers
    unfoldable pub handle_sync_members :
        Option SyncMembersRequest → World → Option (Response SyncResponse × World)
    unfolding sync_requested
    handle_sync_members none w = some (failure 400 "invalid request body", w)
    handle_sync_members (some req) w =
        sync_requested
          (record {
            source = req.source;
            sync_type = req.sync_type;
            nodes = [];
            members = req.members;
          })
          w
