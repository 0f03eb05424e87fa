-- ===== src/Plugin/Permissions/Token.antt =====
-- checkSyncToken of server/permissions.go, where a token is configured.
use mattermost_plugin_org_di.Common.{
  String, ◌==◌, ◌≡◌, ap, sym, ◌∙◌, Bool, false, arith, Bool-cases, inl, inr, ==-path, ==_of_path,
  true_ne_false,
}
use mattermost_plugin_org_di.Common.Text.{trim_space, trim_prefix}
use mattermost_plugin_org_di.Common.Text.Trim.{trim_space-trim_space}
use mattermost_plugin_org_di.Plugin.Config.{Configuration}
use mattermost_plugin_org_di.Plugin.Permissions.{unauthorized, Request, check_sync_token}

no_match :
    (s token : String) → (trim_space token == token) ≡ false → (trim_space s == token) ≡ false
no_match s token padded = elim (Bool-cases (trim_space s == token)) [
  | inl e ↦
      let same : trim_space s ≡ token = ==-path _ _ e in
      let trimmed : trim_space token ≡ token =
        ap trim_space (sym same) ∙ trim_space-trim_space s ∙ same in
      absurd (true_ne_false (sym (==_of_path _ _ trimmed) ∙ padded))
  | inr e ↦ e
]

-- Where the configured token is not blank but has blanks around it, checkSyncToken answers every
-- request as unauthorized.
pub check_sync_token-padded :
    (is_system_admin : String → Bool) (config : Configuration) (r : Request)
    → (trim_space config.sync_api_token == "") ≡ false
    → (trim_space config.sync_api_token == config.sync_api_token) ≡ false
    → check_sync_token is_system_admin config r ≡ unauthorized
unfolding check_sync_token
check_sync_token-padded is_system_admin config r configured padded =
    rw (configured, no_match (trim_prefix r.authorization "Bearer ") config.sync_api_token padded)
      (ground arith)
