-- ===== src/Plugin/Sync/Users.antt =====
-- resolveMMUser and autoCreateUserMapping of server/api_sync.go.
use mattermost_plugin_org_di.Common.{String, ◌++◌, ◌==◌, Option, none, some, if◌then◌else◌, after}
use mattermost_plugin_org_di.Model.{UserMapping}
use mattermost_plugin_org_di.Model.Sync.{SyncMemberPayload}
use mattermost_plugin_org_di.Store.Db.{Host, Db}
use mattermost_plugin_org_di.Store.Mappings.{find_mapping, upsert_user_mapping}
use mattermost_plugin_org_di.Plugin.Sync.State.{Server}

-- The Mattermost user, "" for none; the reason for none; and the store that the search left.
pub record Resolved : Type 0 where
  pub user_id : String
  pub reason : String
  pub db : Db

abbrev pub mapping_of : String → SyncMemberPayload → String → UserMapping
mapping_of source p mm_user_id = record {
  id = "";
  source = source;
  external_user_id = p.external_user_id;
  mm_user_id = mm_user_id;
  external_username = p.external_username;
  external_email = p.external_email;
  create_at = 0;
  update_at = 0;
  delete_at = 0;
}

module _ (host : Host) (server : Server) (strategy source : String) where
  -- autoCreateUserMapping: an error is logged, and no more.
  unfoldable pub auto_create_user_mapping : SyncMemberPayload → String → Db → Db
  auto_create_user_mapping p mm_user_id db =
      after (upsert_user_mapping host (mapping_of source p mm_user_id)) db

  -- What follows GetUserByEmail and GetUserByUsername.
  unfoldable pub matched : SyncMemberPayload → Db → Option String → Resolved → Resolved
  unfolding auto_create_user_mapping
  matched p db none otherwise = otherwise
  matched p db (some id) otherwise = record {
    user_id = id;
    reason = "";
    db = auto_create_user_mapping p id db;
  }

  abbrev unresolved : String → Db → Resolved
  unresolved reason db = record { user_id = ""; reason = reason; db = db }

  -- "Step 3: Match by username"
  unfoldable pub match_username : SyncMemberPayload → Db → Resolved
  unfolding matched
  match_username p db =
      let otherwise =
        unresolved ("user_not_found: no match for external_user_id=" ++ p.external_user_id) db in
      if p.external_username == ""
      then otherwise
      else matched p db (server.user_by_username p.external_username) otherwise

  -- Behind the matching by email.
  unfoldable pub after_email : SyncMemberPayload → Db → Resolved
  unfolding match_username
  after_email p db =
      if strategy == "email_only"
      then unresolved ("user_not_found: no Mattermost user with email " ++ p.external_email) db
      else match_username p db

  -- "Step 2: Match by email"
  unfoldable pub match_email : SyncMemberPayload → Db → Resolved
  unfolding after_email
  match_email p db =
      if p.external_email == ""
      then after_email p db
      else matched p db (server.user_by_email p.external_email) (
          matched p db (server.user_by_email (server.to_lower p.external_email)) (after_email p db))

  -- resolveMMUser
  unfoldable pub resolve_mm_user : SyncMemberPayload → Db → Resolved
  unfolding match_email
  resolve_mm_user p db = elim (find_mapping source p.external_user_id db.mappings) [
    | some mapping ↦ record { user_id = mapping.mm_user_id; reason = ""; db = db }
    | none ↦
        if strategy == "mapping_only"
        then unresolved ("user_not_found: no mapping for " ++ p.external_user_id) db
        else match_email p db
  ]
