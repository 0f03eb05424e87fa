-- ===== src/Model.antt =====
-- server/model: the rows of the five tables. A Go pointer field that is filled at query time only
-- (Children, MemberCount, HasChildren, PathNames) is no part of a row.
pub mod Sync
use mattermost_plugin_org_di.Common.{ℕ, ℤ, String, Bool, ◌&&◌, not, leb, ◌==◌, if◌then◌else◌}
use Prim.Native.String.{len}

-- OrgNode of node.go
pub record OrgNode : Type 0 where
  pub id : String
  pub name : String
  pub parent_id : String
  pub path : String
  pub depth : ℤ
  pub sort_order : ℤ
  pub description : String
  pub icon : String
  pub metadata : String
  pub source : String
  pub external_id : String
  pub create_at : ℕ
  pub update_at : ℕ
  pub delete_at : ℕ
  pub creator_id : String

-- IsValid of node.go: a name of 1 to 256 bytes.
unfoldable pub node_is_valid : OrgNode → Bool
node_is_valid n = not (n.name == "") && leb (len n.name) 256

-- PreSave of node.go
unfoldable pub node_pre_save : OrgNode → OrgNode
node_pre_save n = record n {
  metadata = if n.metadata == "" then "{}" else n.metadata;
  source = if n.source == "" then "local" else n.source;
}

-- OrgMember of member.go
pub record OrgMember : Type 0 where
  pub id : String
  pub node_id : String
  pub user_id : String
  pub role : String
  pub position : String
  pub sort_order : ℤ
  pub source : String
  pub external_id : String
  pub create_at : ℕ
  pub update_at : ℕ
  pub delete_at : ℕ

-- PreSave of member.go
unfoldable pub member_pre_save : OrgMember → OrgMember
member_pre_save m = record m {
  role = if m.role == "" then "member" else m.role;
  source = if m.source == "" then "local" else m.source;
}

-- UserMapping of user_mapping.go
pub record UserMapping : Type 0 where
  pub id : String
  pub source : String
  pub external_user_id : String
  pub mm_user_id : String
  pub external_username : String
  pub external_email : String
  pub create_at : ℕ
  pub update_at : ℕ
  pub delete_at : ℕ

-- AuditLog of audit.go
pub record AuditLog : Type 0 where
  pub id : String
  pub actor_id : String
  pub action : String
  pub target_type : String
  pub target_id : String
  pub details : String
  pub create_at : ℕ
