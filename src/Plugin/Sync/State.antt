-- ===== src/Plugin/Sync/State.antt =====
-- The variables of executeSyncRequest, and what it takes from the server.
use mattermost_plugin_org_di.Common.{
  suc, String, ◌++◌, Option, List, [], Error, no_rows, unique_violation, message, wrapped,
}
use mattermost_plugin_org_di.Common.Sql.{append_row}
use mattermost_plugin_org_di.Model.Sync.{SyncResponse, SkippedUser}
use mattermost_plugin_org_di.Store.Db.{Db}

-- The server's users: the id of the user with an email address or a user name; strings.ToLower; and
-- the text of the database driver's error for a violated constraint.
pub record Server : Type 0 where
  pub user_by_email : String → Option String
  pub user_by_username : String → Option String
  pub to_lower : String → String
  pub constraint_text : String

-- resp, syncedNodeExtIDs, syncedMemberExtIDs, syncedMemberNodeUserKeys, the store, and the actions of
-- the tree updates that were broadcast.
pub record SyncState : Type 0 where
  pub resp : SyncResponse
  pub node_ids : List String
  pub member_ids : List String
  pub member_keys : List String
  pub db : Db
  pub broadcasts : List String

-- err.Error(), given the text of a database error
unfoldable pub error_text : String → Error → String
error_text constraint_text no_rows = "sql: no rows in result set"
error_text constraint_text unique_violation = constraint_text
error_text constraint_text (message text) = text
error_text constraint_text (wrapped text e) = text ++ (": " ++ error_text constraint_text e)

abbrev pub empty_response : SyncResponse
empty_response = record {
  sync_log_id = "";
  status = "";
  total_nodes = 0;
  created_nodes = 0;
  updated_nodes = 0;
  deleted_nodes = 0;
  total_members = 0;
  created_members = 0;
  updated_members = 0;
  deleted_members = 0;
  skipped_users = 0;
  errors = [];
  skipped_details = [];
}

-- resp.Errors = append(resp.Errors, text)
abbrev pub with_error : String → SyncResponse → SyncResponse
with_error text r = record r { errors = append_row r.errors text }

abbrev pub node_created : SyncResponse → SyncResponse
node_created r = record r { created_nodes = suc r.created_nodes }

abbrev pub node_updated : SyncResponse → SyncResponse
node_updated r = record r { updated_nodes = suc r.updated_nodes }

abbrev pub node_deleted : SyncResponse → SyncResponse
node_deleted r = record r { deleted_nodes = suc r.deleted_nodes }

abbrev pub member_created : SyncResponse → SyncResponse
member_created r = record r { created_members = suc r.created_members }

abbrev pub member_updated : SyncResponse → SyncResponse
member_updated r = record r { updated_members = suc r.updated_members }

abbrev pub member_deleted : SyncResponse → SyncResponse
member_deleted r = record r { deleted_members = suc r.deleted_members }

abbrev pub with_skipped : SkippedUser → SyncResponse → SyncResponse
with_skipped user r = record r {
  skipped_users = suc r.skipped_users;
  skipped_details = append_row r.skipped_details user;
}
