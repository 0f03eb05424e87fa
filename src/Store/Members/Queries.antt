-- ===== src/Store/Members/Queries.antt =====
-- server/store/member_store.go: the queries that join memberships with the server's table users, of
-- which a row has the columns that they read. A JOIN runs through its tables in the order of the text.
pub mod Single
use mathlib.Core.List
use mattermost_plugin_org_di.Common.{
  ℕ, String, ◌++◌, ◌==◌, Bool, true, false, ◌&&◌, ◌||◌, List, [], ◌∷◌, ℤ, eqb, ltb_ℤ, eqb_ℤ,
  if◌then◌else◌, map, contains, is_nil, Exec, ok, any,
}
use mattermost_plugin_org_di.Common.Sql.{select, order_by}
use mattermost_plugin_org_di.Common.Text.{like}
use mattermost_plugin_org_di.Model.{OrgNode, OrgMember}
use mattermost_plugin_org_di.Store.Db.{Host, Db}
use mattermost_plugin_org_di.Store.Paging.{paged}
use mattermost_plugin_org_di.Store.Nodes.Rows
use mattermost_plugin_org_di.Store.Members.Rows.{is_live}

-- A row of the server's table, NULL read as the empty text.
pub record User : Type 0 where
  pub id : String
  pub username : String
  pub first_name : String
  pub last_name : String
  pub nickname : String
  pub email : String
  pub position : String
  pub last_picture_update : ℕ
  pub delete_at : ℕ

-- OrgMemberWithUser, whose Status the store leaves empty.
pub record MemberWithUser : Type 0 where
  pub member : OrgMember
  pub user : User

-- SearchResult
pub record SearchResult : Type 0 where
  pub found : MemberWithUser
  pub node_name : String
  pub node_path : String

abbrev pub is_active : User → Bool
is_active u = eqb u.delete_at 0

-- JOIN users u ON m.user_id = u.id WHERE … AND m.delete_at=0 AND u.deleteat=0
unfoldable pub with_users : List User → (OrgMember → Bool) → List OrgMember → List MemberWithUser
with_users users p [] = []
with_users users p (m ∷ ms) =
    let rest = with_users users p ms in
    if p m && is_live m
    then List.◌++◌
        (map (λ u. record { member = m; user = u })
          (select (λ u. (u.id == m.user_id) && is_active u) users))
        rest
    else rest

-- The nodes of one user, once for every membership.
unfoldable pub nodes_with : (OrgNode → Bool) → List OrgMember → OrgNode → List OrgNode
nodes_with p [] n = []
nodes_with p (m ∷ ms) n =
    let rest = nodes_with p ms n in if (n.id == m.node_id) && p n then n ∷ rest else rest

unfoldable pub all_nodes_with : List OrgMember → List OrgNode → List OrgNode
unfolding nodes_with
all_nodes_with members [] = []
all_nodes_with members (n ∷ ns) =
    List.◌++◌ (nodes_with Rows.is_live members n) (all_nodes_with members ns)

module _ (host : Host) (users : List User) where
  -- ORDER BY m.sort_order, u.username
  abbrev pub by_order : MemberWithUser → MemberWithUser → Bool
  by_order a b =
      ltb_ℤ a.member.sort_order b.member.sort_order
      || (eqb_ℤ a.member.sort_order b.member.sort_order
          && host.text_before a.user.username b.user.username)

  -- ORDER BY m.node_id, m.sort_order, u.username
  abbrev pub by_node : MemberWithUser → MemberWithUser → Bool
  by_node a b =
      host.text_before a.member.node_id b.member.node_id
      || ((a.member.node_id == b.member.node_id) && by_order a b)

  -- GetMembers
  unfoldable pub get_members : String → ℤ → ℤ → Exec Db (List MemberWithUser)
  unfolding paged with_users
  get_members node_id page per_page db =
      paged page per_page
        (order_by by_order (with_users users (λ m. m.node_id == node_id) db.members)) db

  -- GetMembersForNodes
  unfoldable pub get_members_for_nodes : List String → ℤ → ℤ → Exec Db (List MemberWithUser)
  unfolding paged with_users
  get_members_for_nodes node_ids page per_page db =
      if is_nil node_ids
      then (ok [], db)
      else paged page per_page
          (order_by by_node (with_users users (λ m. contains m.node_id node_ids) db.members)) db

  abbrev matches : String → User → OrgNode → Bool
  matches pattern_text u n =
      like (host.lower u.username) pattern_text
      || like (host.lower u.first_name) pattern_text
      || like (host.lower u.last_name) pattern_text
      || like (host.lower u.nickname) pattern_text
      || like (host.lower u.email) pattern_text
      || like (host.lower n.name) pattern_text

  -- The nodes of one membership of one user that the search takes.
  results_at : String → User → OrgMember → List OrgNode → List SearchResult
  results_at pattern_text u m nodes =
      map
        (λ n. record {
          found = record { member = m; user = u };
          node_name = n.name;
          node_path = n.path;
        })
        (select (λ n. (n.id == m.node_id) && Rows.is_live n && matches pattern_text u n) nodes)

  results_of : String → User → List OrgNode → List OrgMember → List SearchResult
  unfolding results_at
  results_of pattern_text u nodes [] = []
  results_of pattern_text u nodes (m ∷ ms) =
      List.◌++◌ (if (u.id == m.user_id) && is_live m then results_at pattern_text u m nodes else [])
        (results_of pattern_text u nodes ms)

  -- DISTINCT ON (u.id): the first row of each user.
  abbrev first_row : List SearchResult → List SearchResult
  first_row [] = []
  first_row (r ∷ rs) = r ∷ []

  unfoldable pub search_rows :
      String → List OrgNode → List OrgMember → List User → List SearchResult
  unfolding results_of
  search_rows pattern_text nodes members [] = []
  search_rows pattern_text nodes members (u ∷ us) =
      List.◌++◌ (if is_active u then first_row (results_of pattern_text u nodes members) else [])
        (search_rows pattern_text nodes members us)

  -- SearchMembers; strings.ToLower is the database's LOWER.
  unfoldable pub search_members : String → ℤ → ℤ → Exec Db (List SearchResult)
  unfolding paged search_rows
  search_members query page per_page db =
      paged page per_page
        (order_by (λ a b. host.text_before a.found.user.id b.found.user.id)
          (search_rows ("%" ++ (host.lower query ++ "%")) db.nodes db.members users))
        db

  -- GetUserNodes
  unfoldable pub get_user_nodes : String → Exec Db (List OrgNode)
  unfolding all_nodes_with
  get_user_nodes user_id db = (
    ok (
        order_by
          (λ a b.
            ltb_ℤ a.depth b.depth || (eqb_ℤ a.depth b.depth && ltb_ℤ a.sort_order b.sort_order))
          (all_nodes_with (select (λ m. (m.user_id == user_id) && is_live m) db.members) db.nodes)),
    db,
  )
