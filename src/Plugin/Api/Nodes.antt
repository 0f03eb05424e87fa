-- ===== src/Plugin/Api/Nodes.antt =====
-- server/api_node.go. A handler takes the user of the request, its path variables and query
-- parameters, and its decoded body, where `none` is a body that json.Decode refuses.
pub mod Views
use mattermost_plugin_org_di.Common.{
  ℕ, String, ◌++◌, ◌==◌, Bool, true, false, ◌&&◌, not, Option, none, some, List, ℤ, pos,
  if◌then◌else◌, Result, ok, err, reply, after,
}
use mattermost_plugin_org_di.Model.{OrgNode}
use mattermost_plugin_org_di.Store.Db.{Host, Db}
use mattermost_plugin_org_di.Store.Nodes.Rows.{find_node, get_node}
use mattermost_plugin_org_di.Store.Nodes.Save.{create_node, update_node, reorder_nodes}
use mattermost_plugin_org_di.Store.Nodes.Move.{move_node}
use mattermost_plugin_org_di.Store.Nodes.Delete.{delete_node}
use mattermost_plugin_org_di.Plugin.Config.{Configuration, get_configuration}
use mattermost_plugin_org_di.Plugin.Permissions.{check_node_permission}
use mattermost_plugin_org_di.Plugin.Sync.State.{error_text}
use mattermost_plugin_org_di.Plugin.Api.Http.{
  World, Response, failure, json, no_content, Handler, Platform, broadcast_tree_update, log_audit,
}

-- The bodies of the requests.
pub record CreateNodeRequest : Type 0 where
  pub name : String
  pub parent_id : String
  pub description : String
  pub icon : String
  pub sort_order : ℤ

pub record UpdateNodeRequest : Type 0 where
  pub name : Option String
  pub description : Option String
  pub icon : Option String
  pub sort_order : Option ℤ

-- &pluginmodel.OrgNode{…}; the fields left out are Go's zero values.
unfoldable pub requested_node : String → CreateNodeRequest → OrgNode
requested_node user_id req = record {
  id = "";
  name = req.name;
  parent_id = req.parent_id;
  path = "";
  depth = pos 0;
  sort_order = req.sort_order;
  description = req.description;
  icon = req.icon;
  metadata = "";
  source = "local";
  external_id = "";
  create_at = 0;
  update_at = 0;
  delete_at = 0;
  creator_id = user_id;
}

abbrev set_or_keep : {A : Type 0} → Option A → A → A
set_or_keep none old = old
set_or_keep (some new) old = new

unfoldable pub changed_node : UpdateNodeRequest → OrgNode → OrgNode
changed_node req n = record n {
  name = set_or_keep req.name n.name;
  description = set_or_keep req.description n.description;
  icon = set_or_keep req.icon n.icon;
  sort_order = set_or_keep req.sort_order n.sort_order;
}

-- The strategy of a deletion: the query's, the configuration's, or the default.
unfoldable pub requested_strategy : Option Configuration → String → String
unfolding get_configuration
requested_strategy config query =
    if not (query == "")
    then query
    else if not ((get_configuration config).sync_full_delete_strategy == "")
    then (get_configuration config).sync_full_delete_strategy
    else "cascade_delete"

module _ (host : Host) (platform : Platform) (config : Option Configuration)
    (user_id : String) where
  abbrev may : String → String → World → Bool
  may node_id role w = check_node_permission platform.is_system_admin user_id node_id role w.db

  abbrev pub after_create : World → Result OrgNode × Db → Response OrgNode × World
  after_create w (ok n, db) = (
    json 201 n,
    log_audit host config user_id "create_node" "node" n.id "{}"
        (broadcast_tree_update "create" (some n) (record w { db = db })),
  )
  after_create w (err e, db) = (failure 500 "failed to create node", record w { db = db })

  -- Behind the decoding of handleCreateNode.
  unfoldable pub create_requested : CreateNodeRequest → Handler OrgNode
  unfolding requested_node
  create_requested req w =
      if req.name == ""
      then (failure 400 "name is required", w)
      else if not (req.parent_id == "") && not (may req.parent_id "manager" w)
      then (failure 403 "insufficient permissions", w)
      else if (req.parent_id == "") && not (platform.is_system_admin user_id)
      then (failure 403 "only system admins can create root nodes", w)
      else after_create w (create_node host (requested_node user_id req) w.db)

  -- handleCreateNode
  unfoldable pub handle_create_node : Option CreateNodeRequest → Handler OrgNode
  unfolding create_requested
  handle_create_node none w = (failure 400 "invalid request body", w)
  handle_create_node (some req) w = create_requested req w

  abbrev pub after_update :
      String → OrgNode → World → Result OrgNode × Db → Response OrgNode × World
  after_update id n w (ok saved, db) = (
    json 200 saved,
    log_audit host config user_id "update_node" "node" id "{}"
        (broadcast_tree_update "update" (some saved) (record w { db = db })),
  )
  after_update id n w (err e, db) = (failure 500 "failed to update node", record w { db = db })

  -- Behind GetNode of handleUpdateNode.
  unfoldable pub update_requested : String → OrgNode → Option UpdateNodeRequest → Handler OrgNode
  unfolding changed_node
  update_requested id n none w = (failure 400 "invalid request body", w)
  update_requested id n (some req) w =
      after_update id n w (update_node host (changed_node req n) w.db)

  -- handleUpdateNode
  unfoldable pub handle_update_node : String → Option UpdateNodeRequest → Handler OrgNode
  unfolding update_requested
  handle_update_node id body w =
      if not (may id "manager" w)
      then (failure 403 "insufficient permissions", w)
      else (elim (find_node id w.db.nodes) [
        | none ↦ (failure 404 "node not found", w)
        | some n ↦ update_requested id n body w
      ])

  abbrev pub after_delete :
      String → String → OrgNode → World → Result (Unit {0}) × Db → Response OrgNode × World
  after_delete id strategy n w (ok done, db) = (
    no_content,
    log_audit host config user_id "delete_node" "node" id
        (platform.json_entry "cascade_strategy" strategy)
        (broadcast_tree_update "delete" (some n) (record w { db = db })),
  )
  after_delete id strategy n w (err e, db) =
      (failure 500 "failed to delete node", record w { db = db })

  -- handleDeleteNode, with the query parameter cascade_strategy
  unfoldable pub handle_delete_node : String → String → Handler OrgNode
  unfolding requested_strategy
  handle_delete_node id query w =
      let strategy = requested_strategy config query in
      if not (platform.is_system_admin user_id)
      then (failure 403 "only system admins can delete nodes", w)
      else (elim (find_node id w.db.nodes) [
        | none ↦ (failure 404 "node not found", w)
        | some n ↦ after_delete id strategy n w (delete_node host id strategy w.db)
      ])

  abbrev pub after_move :
      String → String → World → Result (Unit {0}) × Db → Response (Option OrgNode) × World
  after_move id new_parent_id w (ok done, db) =
      let moved = find_node id db.nodes in
      (
        json 200 moved,
        log_audit host config user_id "move_node" "node" id
            ("{\"new_parent_id\":\"" ++ (new_parent_id ++ "\"}"))
            (broadcast_tree_update "move" moved (record w { db = db })),
      )
  after_move id new_parent_id w (err e, db) =
      (failure 500 (error_text platform.constraint_text e), record w { db = db })

  -- handleMoveNode
  unfoldable pub handle_move_node : String → Option String → Handler (Option OrgNode)
  handle_move_node id none w =
      if not (platform.is_system_admin user_id)
      then (failure 403 "only system admins can move nodes", w)
      else (failure 400 "invalid request body", w)
  handle_move_node id (some new_parent_id) w =
      if not (platform.is_system_admin user_id)
      then (failure 403 "only system admins can move nodes", w)
      else after_move id new_parent_id w (move_node host id new_parent_id w.db)

  abbrev pub after_reorder : World → Result (Unit {0}) × Db → Response (Unit {0}) × World
  after_reorder w (ok done, db) = (no_content, record w { db = db })
  after_reorder w (err e, db) = (failure 500 "failed to reorder nodes", record w { db = db })

  -- handleReorderNodes
  unfoldable pub handle_reorder_nodes : String → Option (List String) → Handler (Unit {0})
  handle_reorder_nodes id none w =
      if not (may id "manager" w)
      then (failure 403 "insufficient permissions", w)
      else (failure 400 "invalid request body", w)
  handle_reorder_nodes id (some node_ids) w =
      if not (may id "manager" w)
      then (failure 403 "insufficient permissions", w)
      else after_reorder w (reorder_nodes host id node_ids w.db)
