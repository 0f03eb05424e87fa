-- ===== src/Model/Sync.antt =====
-- server/model/sync.go: the log of a synchronisation, and what its API takes and answers.
use mattermost_plugin_org_di.Common.{ℕ, ℤ, String, List}

-- SyncLog
pub record SyncLog : Type 0 where
  pub id : String
  pub source : String
  pub sync_type : String
  pub status : String
  pub total_nodes : ℕ
  pub created_nodes : ℕ
  pub updated_nodes : ℕ
  pub deleted_nodes : ℕ
  pub total_members : ℕ
  pub created_members : ℕ
  pub updated_members : ℕ
  pub deleted_members : ℕ
  pub skipped_users : ℕ
  pub error_message : String
  pub details : String
  pub started_at : ℕ
  pub finished_at : ℕ
  pub triggered_by : String

-- SyncNodePayload
pub record SyncNodePayload : Type 0 where
  pub external_id : String
  pub name : String
  pub parent_external_id : String
  pub sort_order : ℤ
  pub description : String
  pub icon : String
  pub metadata : String
  pub action : String

-- SyncMemberPayload
pub record SyncMemberPayload : Type 0 where
  pub external_id : String
  pub node_external_id : String
  pub external_user_id : String
  pub external_username : String
  pub external_email : String
  pub role : String
  pub position : String
  pub sort_order : ℤ
  pub action : String

-- SyncRequest
pub record SyncRequest : Type 0 where
  pub source : String
  pub sync_type : String
  pub nodes : List SyncNodePayload
  pub members : List SyncMemberPayload

-- SkippedUser
pub record SkippedUser : Type 0 where
  pub external_user_id : String
  pub external_username : String
  pub external_email : String
  pub reason : String

-- SyncResponse
pub record SyncResponse : Type 0 where
  pub sync_log_id : String
  pub status : String
  pub total_nodes : ℕ
  pub created_nodes : ℕ
  pub updated_nodes : ℕ
  pub deleted_nodes : ℕ
  pub total_members : ℕ
  pub created_members : ℕ
  pub updated_members : ℕ
  pub deleted_members : ℕ
  pub skipped_users : ℕ
  pub errors : List String
  pub skipped_details : List SkippedUser
