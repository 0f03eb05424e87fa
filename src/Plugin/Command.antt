-- ===== src/Plugin/Command.antt =====
-- server/command.go: the slash commands. strings.Fields is a parameter, `fields`; the text of an error
-- of the store is not shown. The fuel is the depth of calls of renderTreeText, and `none` means that it
-- ran out.
pub mod Render
use mattermost_plugin_org_di.Common.{
  ℕ, zero, suc, String, ◌++◌, ◌==◌, Bool, true, false, Option, none, some, List, [], ◌∷◌, ℤ, pos,
  if◌then◌else◌, length, is_nil, Result, ok, err, reply,
}
use mattermost_plugin_org_di.Common.Atoi.{itoa}
use mattermost_plugin_org_di.Common.Text.{trim_space, trim_prefix}
use mattermost_plugin_org_di.Model.{OrgNode}
use mattermost_plugin_org_di.Store.Db.{Host, Db}
use mattermost_plugin_org_di.Store.Nodes.Queries.{get_root_nodes}
use mattermost_plugin_org_di.Store.Members.Queries.{
  User, SearchResult, search_members, get_user_nodes,
}
use mattermost_plugin_org_di.Plugin.Sync.State.{error_text}
use mattermost_plugin_org_di.Plugin.Api.Nodes.Views.{children_of_node}

-- The text of showCommandHelp
abbrev pub help : String
help =
    "**组织通讯录命令帮助**\n* `/org search <关键词>` — 搜索用户\n* `/org info @用户名` — 查看用户所属组织\n* `/org tree` — 以文本形式输出组织树"

-- strings.Join(params, " ")
unfoldable pub join_blank : List String → String
join_blank [] = ""
join_blank (s ∷ []) = s
join_blank (s ∷ t ∷ ts) = s ++ (" " ++ join_blank (t ∷ ts))

-- A line of cmdSearch
unfoldable pub result_line : SearchResult → String
result_line r =
    let u = r.found.user in
    let full = u.first_name ++ (" " ++ u.last_name) in
    let name = if trim_space full == "" then u.username else full in
    "- **"
    ++ (name
        ++ ("** (@"
            ++ (u.username
                ++ (") — " ++ (r.node_name ++ (" — `" ++ (r.found.member.position ++ "`\n")))))))

unfoldable pub result_lines : List SearchResult → String
unfolding result_line
result_lines [] = ""
result_lines (r ∷ rs) = result_line r ++ result_lines rs

-- A line of cmdInfo
unfoldable pub node_lines : List OrgNode → String
node_lines [] = ""
node_lines (n ∷ ns) = "- **" ++ (n.name ++ ("** (路径: `" ++ (n.path ++ ("`)\n" ++ node_lines ns))))

-- The loop of renderTreeText over the children; the last one has no other behind it.
unfoldable pub render_children :
    (OrgNode → String → Bool → Option String) → String → List OrgNode → Option String
render_children render prefix [] = some ""
render_children render prefix (n ∷ ns) = elim (render n prefix (is_nil ns)) [
  | none ↦ none
  | some text ↦ elim (render_children render prefix ns) [
    | none ↦ none
    | some rest ↦ some (text ++ rest)
  ]
]

abbrev pub headed : String → Option String → Option String
headed line none = none
headed line (some text) = some (line ++ text)

-- The first line of a node, and the prefix of its children.
abbrev pub node_line : String → Bool → OrgNode → String
node_line prefix is_last n = prefix ++ ((if is_last then "└── " else "├── ") ++ (n.name ++ "\n"))

abbrev pub child_prefix : String → Bool → String
child_prefix prefix is_last = prefix ++ (if is_last then "    " else "│   ")

module _ (host : Host) (db : Db) where
  -- renderTreeText
  unfoldable pub render_tree_text : ℕ → OrgNode → String → Bool → Option String
  unfolding render_children children_of_node
  render_tree_text zero n prefix is_last = none
  render_tree_text (suc fuel) n prefix is_last = headed (node_line prefix is_last n) (
      render_children (render_tree_text fuel) (child_prefix prefix is_last)
        (children_of_node host db n.id))

  -- The loop of cmdTree: each root is drawn as a last one.
  unfoldable pub render_roots : ℕ → List OrgNode → Option String
  unfolding render_tree_text
  render_roots fuel [] = some ""
  render_roots fuel (n ∷ ns) = elim (render_tree_text fuel n "" true) [
    | none ↦ none
    | some text ↦ headed text (render_roots fuel ns)
  ]

  abbrev pub framed : Option String → Option String
  framed none = none
  framed (some text) = some ("**组织结构**\n```\n" ++ (text ++ "```"))

module _ (host : Host) (users : List User) (constraint_text : String) (db : Db) where
  unfoldable pub tree_drawn : ℕ → Result (List OrgNode) → Option String
  unfolding render_roots error_text
  tree_drawn fuel (err e) = some ("获取组织树失败: " ++ error_text constraint_text e)
  tree_drawn fuel (ok roots) =
      if is_nil roots then some "当前没有组织结构数据。" else framed host db (render_roots host db fuel roots)

  -- cmdTree
  unfoldable pub cmd_tree : ℕ → Option String
  unfolding tree_drawn
  cmd_tree fuel = tree_drawn fuel (reply (get_root_nodes host) db)

  abbrev results_shown : String → Result (List SearchResult) → String
  results_shown query (err e) = "搜索失败: " ++ error_text constraint_text e
  results_shown query (ok rows) =
      if is_nil rows
      then "未找到与 **" ++ (query ++ "** 相关的用户。")
      else "**搜索结果 (" ++ (itoa (length rows) ++ (")**\n\n" ++ result_lines rows))

  -- cmdSearch
  unfoldable pub cmd_search : List String → String
  unfolding join_blank result_lines
  cmd_search [] = "请提供搜索关键词。用法: `/org search <关键词>`"
  cmd_search (p ∷ ps) =
      results_shown (join_blank (p ∷ ps))
        (reply (search_members host users (join_blank (p ∷ ps)) (pos 0) (pos 10)) db)

  abbrev nodes_shown : String → Result (List OrgNode) → String
  nodes_shown username (err e) = "用户 @" ++ (username ++ " 未挂靠任何组织节点。")
  nodes_shown username (ok nodes) =
      if is_nil nodes
      then "用户 @" ++ (username ++ " 未挂靠任何组织节点。")
      else "**@" ++ (username ++ (" 所属组织**\n\n" ++ node_lines nodes))

  -- cmdInfo, where `user_by_username` is the server's GetUserByUsername
  unfoldable pub cmd_info : (String → Option String) → List String → String
  unfolding node_lines
  cmd_info user_by_username [] = "请提供用户名。用法: `/org info @用户名`"
  cmd_info user_by_username (p ∷ ps) =
      let username = trim_prefix p "@" in
      elim (user_by_username username) [
        | none ↦ "未找到用户 @" ++ username
        | some id ↦ nodes_shown username (reply (get_user_nodes host users id) db)
      ]

  -- The switch of ExecuteCommand, on the fields of the command's text.
  unfoldable pub dispatch : (String → Option String) → ℕ → List String → Option String
  unfolding cmd_search cmd_info cmd_tree
  dispatch user_by_username fuel [] = some help
  dispatch user_by_username fuel (trigger ∷ []) = some help
  dispatch user_by_username fuel (trigger ∷ name ∷ params) =
      if name == "search"
      then some (cmd_search params)
      else if name == "info"
      then some (cmd_info user_by_username params)
      else if name == "tree"
      then cmd_tree fuel
      else some help

  -- ExecuteCommand, with strings.Fields
  unfoldable pub execute_command :
      (String → List String) → (String → Option String) → ℕ → String → Option String
  unfolding dispatch
  execute_command fields user_by_username fuel text = dispatch user_by_username fuel (fields text)
