-- ===== src/Plugin/Api/Search.antt =====
-- server/api_search.go, and handleGetMembers of server/api_member.go. A handler takes the user of the
-- request, its path variables and its query parameters, empty where they are missing.
use mattermost_plugin_org_di.Common.{
  String, ◌==◌, Bool, not, ◌&&◌, Option, List, [], map, if◌then◌else◌, Result, ok, err, reply,
}
use mattermost_plugin_org_di.Common.Atoi.{atoi_value}
use mattermost_plugin_org_di.Model.{OrgNode}
use mattermost_plugin_org_di.Store.Db.{Host, Db}
use mattermost_plugin_org_di.Store.Nodes.Queries.{get_node_path, search_nodes}
use mattermost_plugin_org_di.Store.Members.Queries.{
  User, MemberWithUser, SearchResult, get_members, search_members, get_user_nodes,
}
use mattermost_plugin_org_di.Plugin.Config.{Configuration, get_configuration}
use mattermost_plugin_org_di.Plugin.Api.Http.{Response, failure, json, per_page_of, answer}

-- A node with its PathNames.
pub record NodeWithPath : Type 0 where
  pub node : OrgNode
  pub path_names : List String

module _ (host : Host) (users : List User) (is_system_admin : String → Bool)
    (config : Option Configuration) (db : Db) where
  -- handleGetMembers
  unfoldable pub handle_get_members : String → String → String → Response (List MemberWithUser)
  unfolding get_members per_page_of
  handle_get_members id page per_page =
      answer 500 "failed to get members"
        (reply (get_members host users id (atoi_value page) (per_page_of config per_page)) db)

  -- handleSearchUsers
  unfoldable pub handle_search_users :
      String → String → String → String → Response (List SearchResult)
  unfolding search_members per_page_of get_configuration
  handle_search_users user_id q page per_page =
      if not (get_configuration config).allow_user_search && not (is_system_admin user_id)
      then failure 403 "user search is restricted to administrators"
      else if q == ""
      then failure 400 "query parameter 'q' is required"
      else answer 500 "search failed"
          (reply (search_members host users q (atoi_value page) (per_page_of config per_page)) db)

  -- handleSearchNodes
  unfoldable pub handle_search_nodes : String → Response (List OrgNode)
  unfolding search_nodes
  handle_search_nodes q =
      if q == ""
      then failure 400 "query parameter 'q' is required"
      else answer 500 "search failed" (reply (search_nodes host q) db)

  abbrev names_of : Result (List OrgNode) → List String
  names_of (ok nodes) = map (λ (n : OrgNode). n.name) nodes
  names_of (err e) = []

  unfoldable pub with_path : OrgNode → NodeWithPath
  unfolding get_node_path
  with_path n = record { node = n; path_names = names_of (reply (get_node_path n.id) db) }

  abbrev with_paths : Result (List OrgNode) → Response (List NodeWithPath)
  with_paths (ok nodes) = json 200 (map with_path nodes)
  with_paths (err e) = failure 500 "failed to get user nodes"

  -- handleGetUserNodes
  unfoldable pub handle_get_user_nodes : String → Response (List NodeWithPath)
  unfolding with_path get_user_nodes
  handle_get_user_nodes target = with_paths (reply (get_user_nodes host users target) db)
