-- ===== src/Store/Members/Roles.antt =====
-- server/store/member_store.go: the memberships as a directory of roles, and its three methods that
-- change the directory.
pub mod Refine
pub mod Rows
use mathlib.Core.Option
use mattermost_plugin_org_di.Common.{
  String, ◌==◌, Bool, true, false, ◌&&◌, Option, none, some, List, [], ◌∷◌, if◌then◌else◌, Result,
  ok, err, Exec, after,
}
use mattermost_plugin_org_di.Model.{OrgMember}
use mattermost_plugin_org_di.Store.Db.{Host, Db}
use mattermost_plugin_org_di.Store.Members.Rows.{find_active}
use mattermost_plugin_org_di.Store.Members.Save.{add_member, remove_member, update_member_role}

-- The role that a user has at a node.
abbrev pub Roles : Type 0
Roles = String → String → Option String

unfoldable pub roles_of : Db → Roles
roles_of db node_id user_id =
    Option.map (λ (m : OrgMember). m.role) (find_active node_id user_id db.members)

pub data RoleCommand : Type 0 where
  grant : OrgMember → RoleCommand
  revoke : String → String → RoleCommand
  change : String → String → String → RoleCommand

abbrev is_none : Option String → Bool
is_none none = true
is_none (some role) = false

-- What a command means for the directory. A role that is there is not granted again.
unfoldable pub apply : RoleCommand → Roles → Roles
apply (grant m) roles i j =
    if (i == m.node_id) && (j == m.user_id) && is_none (roles m.node_id m.user_id)
    then some (if m.role == "" then "member" else m.role)
    else roles i j
apply (revoke node_id user_id) roles i j =
    if (i == node_id) && (j == user_id) then none else roles i j
apply (change node_id user_id role) roles i j =
    if (i == node_id) && (j == user_id)
    then Option.map (λ (old : String). role) (roles i j)
    else roles i j

unfoldable pub apply_all : List RoleCommand → Roles → Roles
unfolding apply
apply_all [] roles = roles
apply_all (c ∷ cs) roles = apply_all cs (apply c roles)

module _ (host : Host) where
  -- The call of the store, without its answer.
  unfoldable pub perform : RoleCommand → Db → Db
  unfolding add_member remove_member update_member_role
  perform (grant m) db = after (add_member host m) db
  perform (revoke node_id user_id) db = after (remove_member host node_id user_id) db
  perform (change node_id user_id role) db = after (update_member_role host node_id user_id role) db

  unfoldable pub perform_all : List RoleCommand → Db → Db
  unfolding perform
  perform_all [] db = db
  perform_all (c ∷ cs) db = perform_all cs (perform c db)
