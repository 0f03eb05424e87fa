-- ===== src/Plugin/Command/Render.antt =====
-- server/command.go on a well-formed tree: the recursion of renderTreeText ends.
use Prim.Native.String.{len}
use mattermost_plugin_org_di.Common.{
  ℕ, zero, suc, ◌+◌, ◌<◌, String, ◌++◌, ◌==◌, ◌&&◌, if-both, ◌≡◌, refl, ap, Bool, true, Option,
  some, List, [], ◌∷◌, arith, All, is_nil, Bool-cases, inl, inr,
}
use mattermost_plugin_org_di.Model.{OrgNode}
use mattermost_plugin_org_di.Store.Db.{Host, Db}
use mattermost_plugin_org_di.Store.Nodes.Rows.{is_live, find_node}
use mattermost_plugin_org_di.Store.Nodes.Queries.{by_order, get_child_nodes, get_root_nodes}
use mattermost_plugin_org_di.Store.Nodes.Children.{
  longest, find_node-longest, IsChildOf, All-children, All-roots, All-map,
}
use mattermost_plugin_org_di.Common.Sql.{select, order_by}
use mattermost_plugin_org_di.Store.Members.Queries.{User}
use mattermost_plugin_org_di.Store.Tree.Invariant.{IsTree}
use mattermost_plugin_org_di.Plugin.Api.Nodes.Views.{children_of_node}
use mattermost_plugin_org_di.Plugin.Command.{
  render_children, headed, node_line, child_prefix, render_tree_text, render_roots, cmd_search,
  cmd_info, cmd_tree, tree_drawn, framed, dispatch, execute_command, help,
}

-- The command has an answer.
abbrev IsShown : Option String → Type 0
IsShown o = (answer : String) × (o ≡ some answer)

-- GetRootNodes
abbrev roots : Host → Db → List OrgNode
roots host db = order_by (by_order host) (select (λ n. (n.parent_id == "") && is_live n) db.nodes)

render_children_total :
    (render : OrgNode → String → Bool → Option String) (prefix : String) (ns : List OrgNode)
    → All (λ n. (last : Bool) → (t : String) × (render n prefix last ≡ some t)) ns
    → (t : String) × (render_children render prefix ns ≡ some t)
unfolding render_children
render_children_total render prefix [] h = ("", refl)
render_children_total render prefix (n ∷ ns) h =
    let (t, e) = h.0 (is_nil ns) in
    let (ts, es) = render_children_total render prefix ns h.1 in
    (t ++ ts, rw (render_children, e, es) refl)

module _ (host : Host) (db : Db) (tree : IsTree db.nodes) where
  pub render_tree_text_total :
      (fuel : ℕ) (n : OrgNode) (prefix : String) (is_last : Bool)
      → find_node n.id db.nodes ≡ some n
      → longest db.nodes < fuel + len n.path
      → (t : String) × (render_tree_text host db fuel n prefix is_last ≡ some t)
  unfolding render_tree_text children_of_node get_child_nodes
  render_tree_text_total zero n prefix is_last found h =
      absurd (omega (arith, h, find_node-longest n.id n db.nodes found))
  render_tree_text_total (suc fuel) n prefix is_last found h =
      let (t, e) =
        render_children_total (render_tree_text host db fuel) (child_prefix prefix is_last)
          (children_of_node host db n.id)
          (All-map (IsChildOf db.nodes n) _ (children_of_node host db n.id)
            (λ c below last.
              render_tree_text_total fuel c (child_prefix prefix is_last) last below.0
                (omega (arith, h, below.2)))
            (All-children host n db tree found)) in
      (node_line prefix is_last n ++ t, ap (headed (node_line prefix is_last n)) e)

  render_roots_total :
      (fuel : ℕ) (ns : List OrgNode)
      → longest db.nodes < fuel
      → All (λ n. find_node n.id db.nodes ≡ some n) ns
      → (t : String) × (render_roots host db fuel ns ≡ some t)
  unfolding render_roots
  render_roots_total fuel [] h found = ("", refl)
  render_roots_total fuel (n ∷ ns) h found =
      let (t, e) = render_tree_text_total fuel n "" true found.0 (omega (arith, h)) in
      let (ts, es) = render_roots_total fuel ns h found.1 in
      (t ++ ts, rw (render_roots, e) (ap (headed t) es))

  cmd_tree_total :
      (users : List User) (constraint_text : String) (fuel : ℕ)
      → longest db.nodes < fuel
      → (t : String) × (cmd_tree host users constraint_text db fuel ≡ some t)
  unfolding cmd_tree tree_drawn get_root_nodes get_child_nodes
  cmd_tree_total users constraint_text fuel h = elim (Bool-cases (is_nil (roots host db))) [
    | inl e ↦ ("当前没有组织结构数据。", rw (cmd_tree, e) refl)
    | inr e ↦
        let (t, et) = render_roots_total fuel (roots host db) h (All-roots host db tree) in
        ("**组织结构**\n```\n" ++ (t ++ "```"), rw (cmd_tree, e) (ap (framed host db) et))
  ]

  dispatch_total :
      (users : List User) (constraint_text : String) (user_by_username : String → Option String)
      (fuel : ℕ) (parts : List String)
      → longest db.nodes < fuel
      → (answer : String) × (dispatch host users constraint_text db user_by_username fuel parts
          ≡ some answer)
  unfolding dispatch
  dispatch_total users constraint_text user_by_username fuel [] h = (help, refl)
  dispatch_total users constraint_text user_by_username fuel (trigger ∷ []) h = (help, refl)
  dispatch_total users constraint_text user_by_username fuel (trigger ∷ name ∷ params) h =
      let found : String = cmd_search host users constraint_text db params in
      let shown : String = cmd_info host users constraint_text db user_by_username params in
      if-both IsShown (name == "search") (some found) _ (found, refl)
        (if-both IsShown (name == "info") (some shown) _ (shown, refl)
          (if-both IsShown (name == "tree") (cmd_tree host users constraint_text db fuel)
            (some help) (cmd_tree_total users constraint_text fuel h) (help, refl)))

  -- On a well-formed tree every slash command has an answer, on fuel for renderTreeText that
  -- exceeds the longest path of the table.
  pub execute_command_total :
      (users : List User) (constraint_text : String) (fields : String → List String)
      (user_by_username : String → Option String) (fuel : ℕ) (text : String)
      → longest db.nodes < fuel
      → (answer : String) × (execute_command host users constraint_text db fields user_by_username
            fuel text
          ≡ some answer)
  unfolding execute_command
  execute_command_total users constraint_text fields user_by_username fuel text h =
      dispatch_total users constraint_text user_by_username fuel (fields text) h
