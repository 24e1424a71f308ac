-- ===== src/Api.antt =====
-- server/configuration.go and server/api.go: the settings of the plugin, and the authorisation of the
-- requests that reach it. What the Mattermost server has as its settings is a parameter, none for an
-- error.
pub mod Authorised
pub mod Validity
mod Tests
use mattermost_plugin_matrix.Prelude.{
  ℕ, ◌≡◌, Bool, true, false, ◌&&◌, ◌||◌, not, Option, none, some, List, [], ◌∷◌, ◌++◌,
  if◌then◌else◌, Text, ◌==◌, lit,
}
use mattermost_plugin_matrix.Matrix.RateLimit.Config.{mode_text, parse_rate_limiting_mode}
use mattermost_plugin_matrix.Event.{MatrixEvent}
use mattermost_plugin_matrix.Webhook.{Request, Webhook, handle_matrix_transaction}

-- `configuration`
pub record Configuration : Type 0 where
  pub matrix_server_url : Text
  pub matrix_as_token : Text
  pub matrix_hs_token : Text
  pub enable_sync : Bool
  pub matrix_username_prefix : Text
  pub rate_limiting_mode : Text
  pub enable_mirror_mode : Bool
  pub matrix_server_domain : Text
  pub mirror_mode_password : Text
  pub sync_user_profiles : Bool

-- `&configuration{}`
abbrev pub empty_configuration : Configuration
empty_configuration = record {
  matrix_server_url = [];
  matrix_as_token = [];
  matrix_hs_token = [];
  enable_sync = false;
  matrix_username_prefix = [];
  rate_limiting_mode = [];
  enable_mirror_mode = false;
  matrix_server_domain = [];
  mirror_mode_password = [];
  sync_user_profiles = false;
}

-- `getConfiguration`, of the active configuration, which is none at first
unfoldable pub get_configuration : Option Configuration → Configuration
get_configuration none = empty_configuration
get_configuration (some configuration) = configuration

-- `validateConfiguration`: none for an error, and else the configuration as it leaves it
unfoldable pub validate_configuration : Configuration → Option Configuration
validate_configuration config =
    if config.enable_sync
      && (config.matrix_server_url == []
          || config.matrix_as_token == []
          || config.matrix_hs_token == [])
    then none
    else some (record config {
      rate_limiting_mode = mode_text (parse_rate_limiting_mode config.rate_limiting_mode);
    })

-- `OnConfigurationChange`, as far as the configuration: with the setting of shared channels, which may
-- be missing, and the settings that are loaded. The result tells if it returned without an error. The
-- configuration is a new one each time, so that `setConfiguration` does not panic.
unfoldable pub on_configuration_change :
    Option Bool → Option Configuration → Option Configuration → Option Configuration × Bool
on_configuration_change none loaded active = (active, false)
on_configuration_change (some false) loaded active = (active, false)
on_configuration_change (some true) none active = (active, false)
on_configuration_change (some true) (some loaded) active = elim (validate_configuration loaded) [
  | none ↦ (active, false)
  | some validated ↦ (some validated, true)
]

-- `MatrixAuthorizationRequired`: the status it refuses a request with, none if it lets it through
unfoldable pub matrix_authorization_required : Configuration → Text → Option ℕ
matrix_authorization_required config auth_header =
    if not config.enable_sync
    then some 503
    else if config.matrix_hs_token == []
    then some 503
    else if not (auth_header == lit "Bearer " ++ config.matrix_hs_token)
    then some 401
    else none

-- `MattermostAuthorizationRequired`
unfoldable pub mattermost_authorization_required : Text → Option ℕ
mattermost_authorization_required user_id = if user_id == [] then some 401 else none

-- The route of `ServeHTTP` to the transactions: the status of the response with the state after it.
-- The router answers a request with another method than PUT by itself, with 405 and before the
-- middleware.
unfoldable pub serve_transaction :
    (Text → Option (List MatrixEvent))
    → Option ℕ
    → Option Configuration
    → ℕ
    → Text
    → Request
    → Webhook
    → Webhook × ℕ
serve_transaction parse max_file_size active now auth_header r w =
    if not (r.method == lit "PUT")
    then (w, 405)
    else elim (matrix_authorization_required (get_configuration active) auth_header) [
      | some status ↦ (w, status)
      | none ↦ handle_matrix_transaction parse max_file_size now r w
    ]

-- The route of `ServeHTTP` to `HelloWorld`.
unfoldable pub serve_hello : Text → ℕ
serve_hello user_id = elim (mattermost_authorization_required user_id) [
  | some status ↦ status
  | none ↦ 200
]
