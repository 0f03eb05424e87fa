-- ===== src/Plugin/Config.antt =====
-- server/configuration.go, without the lock around the pointer to the active configuration.
use mattermost_plugin_org_di.Common.Atoi.{atoi}
use mattermost_plugin_org_di.Common.{
  String, ◌==◌, Bool, true, false, ◌&&◌, ◌||◌, not, Option, none, some, ℤ, pos, ltb_ℤ,
  if◌then◌else◌,
}

-- configuration
pub record Configuration : Type 0 where
  pub show_app_bar_entry : Bool
  pub enable_sync_timing_logs : Bool
  pub enable_audit_log : Bool
  pub allow_user_search : Bool
  pub max_tree_depth : String
  pub default_page_size : String
  pub sync_api_token : String
  pub sync_user_match_strategy : String
  pub sync_protect_local_data : Bool
  pub sync_full_delete_strategy : String

-- The zero value, &configuration{}.
abbrev pub zero_configuration : Configuration
zero_configuration = record {
  show_app_bar_entry = false;
  enable_sync_timing_logs = false;
  enable_audit_log = false;
  allow_user_search = false;
  max_tree_depth = "";
  default_page_size = "";
  sync_api_token = "";
  sync_user_match_strategy = "";
  sync_protect_local_data = false;
  sync_full_delete_strategy = "";
}

-- The answers of IsValid.
pub data Validity : Type 0 where
  valid invalid_match_strategy invalid_delete_strategy : Validity

-- IsValid
unfoldable pub is_valid : Configuration → Validity
is_valid c =
    let match_strategy = c.sync_user_match_strategy in
    let delete_strategy = c.sync_full_delete_strategy in
    if not (
      (match_strategy == "mapping_email_username")
      || (match_strategy == "mapping_only")
      || (match_strategy == "email_only")
      || (match_strategy == ""))
    then invalid_match_strategy
    else if not (
        (delete_strategy == "cascade_delete")
        || (delete_strategy == "move_to_parent")
        || (delete_strategy == ""))
    then invalid_delete_strategy
    else valid

-- getConfiguration: without a configuration, the zero value.
unfoldable pub get_configuration : Option Configuration → Configuration
get_configuration none = zero_configuration
get_configuration (some c) = c

-- OnConfigurationChange: what it makes the active configuration, given what
-- LoadPluginConfiguration loaded (`none` is its error).
unfoldable pub on_configuration_change :
    Option Configuration → Option Configuration → Option Configuration × Bool
unfolding is_valid
on_configuration_change active none = (active, false)
on_configuration_change active (some loaded) = elim (is_valid loaded) [
  | valid ↦ (some loaded, true)
  | invalid_match_strategy ↦ (active, false)
  | invalid_delete_strategy ↦ (active, false)
]

-- reflect.DeepEqual(c, &configuration{})
is_zero : Configuration → Bool
is_zero c =
    not c.show_app_bar_entry
    && not c.enable_sync_timing_logs
    && not c.enable_audit_log
    && not c.allow_user_search
    && (c.max_tree_depth == "")
    && (c.default_page_size == "")
    && (c.sync_api_token == "")
    && (c.sync_user_match_strategy == "")
    && not c.sync_protect_local_data
    && (c.sync_full_delete_strategy == "")

-- setDefaultsIfEmpty
unfoldable pub set_defaults_if_empty : Configuration → Configuration
unfolding is_zero
set_defaults_if_empty c =
    if is_zero c
    then record c {
      show_app_bar_entry = true;
      enable_audit_log = true;
      allow_user_search = true;
      max_tree_depth = "10";
      default_page_size = "50";
      sync_user_match_strategy = "mapping_email_username";
      sync_protect_local_data = true;
      sync_full_delete_strategy = "cascade_delete";
    }
    else c

positive_or_default : Option ℤ → ℤ
positive_or_default none = pos 50
positive_or_default (some n) = if ltb_ℤ (pos 0) n then n else pos 50

-- getDefaultPageSize, on a pointer that may be nil
unfoldable pub get_default_page_size : Option Configuration → ℤ
unfolding positive_or_default atoi
get_default_page_size none = pos 50
get_default_page_size (some c) = positive_or_default (atoi c.default_page_size)
