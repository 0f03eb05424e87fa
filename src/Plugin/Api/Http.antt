-- ===== src/Plugin/Api/Http.antt =====
-- What the handlers of server/api_node.go, api_member.go, api_tree.go and api_search.go read and
-- write: the store, the published events of server/plugin.go, and the answer.
use mattermost_plugin_org_di.Common.{
  ℕ, String, Bool, Option, none, some, List, ℤ, pos, ltb_ℤ, if◌then◌else◌, Result, ok, err, after,
}
use mattermost_plugin_org_di.Common.Sql.{append_row}
use mattermost_plugin_org_di.Common.Atoi.{atoi_value}
use mattermost_plugin_org_di.Model.{OrgNode, AuditLog}
use mattermost_plugin_org_di.Store.Db.{Host, Db}
use mattermost_plugin_org_di.Store.Logs.{log_action}
use mattermost_plugin_org_di.Plugin.Config.{Configuration, get_configuration, get_default_page_size}

-- The messages of PublishWebSocketEvent, with the entries of their data.
pub data Event : Type 0 where
  tree_update : String → Event
  node_update : String → String → String → String → Event
  member_update : String → String → String → Event

-- The store, and the events that were published.
pub record World : Type 0 where
  pub db : Db
  pub events : List Event

-- writeError, writeJSON, and an answer without a body.
pub data Response (A : Type 0) : Type 0 where
  failure : ℕ → String → Response A
  json : ℕ → A → Response A
  no_content : Response A

abbrev pub Handler : Type 0 → Type 0
Handler A = World → Response A × World

-- What a handler takes from the Mattermost server: isSystemAdmin and GetUser, json.Marshal of a map
-- with one entry, and the text of a database error.
pub record Platform : Type 0 where
  pub is_system_admin : String → Bool
  pub user_exists : String → Bool
  pub json_entry : String → String → String
  pub constraint_text : String

abbrev pub publish : Event → World → World
publish event w = record w { events = append_row w.events event }

-- broadcastTreeUpdate
unfoldable pub broadcast_tree_update : String → Option OrgNode → World → World
broadcast_tree_update action none w = publish (tree_update action) w
broadcast_tree_update action (some n) w = publish (node_update action n.id n.parent_id n.path) w

-- broadcastMemberUpdate
unfoldable pub broadcast_member_update : String → String → String → World → World
broadcast_member_update action node_id user_id w = publish (member_update action node_id user_id) w

abbrev audit_entry : String → String → String → String → String → AuditLog
audit_entry actor_id action target_type target_id details = record {
  id = "";
  actor_id = actor_id;
  action = action;
  target_type = target_type;
  target_id = target_id;
  details = details;
  create_at = 0;
}

-- logAudit, where a failed write is only logged.
unfoldable pub log_audit :
    Host → Option Configuration → String → String → String → String → String → World → World
unfolding get_configuration
log_audit host config actor_id action target_type target_id details w =
    if (get_configuration config).enable_audit_log
    then record w {
      db = after (log_action host (audit_entry actor_id action target_type target_id details)) w.db;
    }
    else w

-- perPage, _ := strconv.Atoi(…); if perPage <= 0 { perPage = getDefaultPageSize() }
unfoldable pub per_page_of : Option Configuration → String → ℤ
unfolding get_configuration
per_page_of config text =
    let per_page = atoi_value text in
    if ltb_ℤ (pos 0) per_page
    then per_page
    else get_default_page_size (some (get_configuration config))

-- The value of a call whose error is dropped.
abbrev pub value_or : {A : Type 0} → A → Result A → A
value_or default (ok a) = a
value_or default (err e) = default

-- A query whose error has an answer of its own.
abbrev pub answer : {A : Type 0} → ℕ → String → Result A → Response A
answer status text (ok a) = json 200 a
answer status text (err e) = failure status text
