-- ===== src/Plugin/Permissions.antt =====
-- server/permissions.go: who may do what. The headers of a request are texts, empty when missing; the
-- roles of a user come from the server (isSystemAdmin, a call of its API).
pub mod Inherit
pub mod Roles
pub mod Token
use mathlib.Core.List.{reverse}
use mattermost_plugin_org_di.Common.{
  ℕ, String, ◌==◌, Bool, true, false, ◌&&◌, ◌||◌, not, Option, none, some, List, [], ◌∷◌, leb,
  if◌then◌else◌,
}
use mattermost_plugin_org_di.Common.Text.{
  has_prefix, has_suffix, split_slash, trim_prefix, trim_space,
}
use mattermost_plugin_org_di.Model.{OrgNode, OrgMember}
use mattermost_plugin_org_di.Store.Db.{Db}
use mattermost_plugin_org_di.Store.Nodes.Rows.{find_node}
use mattermost_plugin_org_di.Store.Members.Rows.{find_active}
use mattermost_plugin_org_di.Plugin.Config.{Configuration}

-- roleWeight of isRoleSufficient: a role that the map lacks weighs 0.
unfoldable pub role_weight : String → ℕ
role_weight role =
    if role == "member"
    then 1
    else if role == "manager"
    then 2
    else if role == "admin"
    then 3
    else 0

-- isRoleSufficient
unfoldable pub is_role_sufficient : String → String → Bool
unfolding role_weight
is_role_sufficient user_role required_role = leb (role_weight required_role) (role_weight user_role)

-- One round of the loop of checkNodePermission.
unfoldable pub allows_at : String → String → String → Db → Bool
allows_at user_id required_role node_id db =
    not (node_id == "") && elim (find_active node_id user_id db.members) [
      | none ↦ false
      | some m ↦ is_role_sufficient m.role required_role
    ]

-- The loop: true as soon as one of the ids allows it.
unfoldable pub allows_any : String → String → List String → Db → Bool
unfolding allows_at
allows_any user_id required_role [] db = false
allows_any user_id required_role (id ∷ ids) db =
    allows_at user_id required_role id db || allows_any user_id required_role ids db

-- "Walk from the current node up to the root"
unfoldable pub walk : OrgNode → List String
walk node = reverse (split_slash (trim_prefix node.path "/"))

-- What a middleware does with a request.
pub data Access : Type 0 where
  pass unauthorized forbidden : Access

-- The parts of a request that the middlewares read.
pub record Request : Type 0 where
  pub method : String
  pub path : String
  pub authorization : String
  pub user_id : String

module _ (is_system_admin : String → Bool) where
  -- checkNodePermission
  unfoldable pub check_node_permission : String → String → String → Db → Bool
  check_node_permission user_id node_id required_role db =
      is_system_admin user_id || elim (find_node node_id db.nodes) [
        | none ↦ false
        | some node ↦ allows_any user_id required_role (walk node) db
      ]

  -- checkAuth
  unfoldable pub check_auth : Request → Access
  check_auth r = if r.user_id == "" then unauthorized else pass

  -- checkAdmin
  unfoldable pub check_admin : Request → Access
  check_admin r = if is_system_admin r.user_id then pass else forbidden

  -- canAccessSyncWithoutToken
  unfoldable pub can_access_sync_without_token : String → Request → Bool
  can_access_sync_without_token user_id r =
      if is_system_admin user_id
      then true
      else if not (r.method == "GET")
      then false
      else (r.path == "/api/v1/sync/nodes")
        || has_prefix r.path "/api/v1/sync/nodes/"
        || (has_prefix r.path "/api/v1/sync/users/" && has_suffix r.path "/nodes")

  -- checkSyncToken
  unfoldable pub check_sync_token : Configuration → Request → Access
  check_sync_token config r =
      if not (trim_space config.sync_api_token == "")
      then (let token = trim_space (trim_prefix r.authorization "Bearer ") in
          if token == ""
          then unauthorized
          else if token == config.sync_api_token
          then pass
          else unauthorized)
      else (let user_id = trim_space r.user_id in
          if user_id == ""
          then unauthorized
          else if can_access_sync_without_token user_id r
          then pass
          else forbidden)
