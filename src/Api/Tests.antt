-- ===== src/Api/Tests.antt =====
-- Requests and configurations (server/api.go, server/configuration.go) at fixed inputs.
use mattermost_plugin_matrix.Prelude.{
  ◌≡◌, refl, Bool, true, false, Option, none, some, List, [], ◌∷◌, Text, ◌==◌, lit,
}
use mattermost_plugin_matrix.Prelude.Int.{ℤ}
use mattermost_plugin_matrix.Matrix.RateLimit.Config.{
  mode_text, parse_rate_limiting_mode, validate_rate_limiting_mode, find_mode,
}
use mattermost_plugin_matrix.Event.{MatrixEvent}
use mattermost_plugin_matrix.Queue
use mattermost_plugin_matrix.Webhook.{Request, Webhook, handle_matrix_transaction}
use mattermost_plugin_matrix.Api.{
  Configuration, empty_configuration, get_configuration, validate_configuration,
  on_configuration_change, matrix_authorization_required, mattermost_authorization_required,
  serve_transaction, serve_hello,
}
use mattermost_plugin_matrix.Api.Authorised.{serve_transaction-is_authorised}
use mattermost_plugin_matrix.Api.Validity.{IsSound, run_changes, run_changes-IsSound}

program : Unit {0}
unfolding ◌==◌ Queue.start mode_text parse_rate_limiting_mode validate_rate_limiting_mode find_mode
    get_configuration validate_configuration on_configuration_change matrix_authorization_required
    mattermost_authorization_required serve_transaction serve_hello run_changes
program = tt

abbrev enabled : Configuration
enabled = record empty_configuration {
  matrix_server_url = lit "https://hs";
  matrix_as_token = lit "as";
  matrix_hs_token = lit "hs";
  enable_sync = true;
  rate_limiting_mode = lit "fast";
}

abbrev fresh : Webhook
fresh = record {
  processed_transactions = [];
  event_queue = Queue.start (ℤ.pos 1) (ℤ.pos 1);
  synchronous = [];
}

abbrev put : Request
put = record { method = lit "PUT"; txn_id = lit "t"; body = lit "x"; readable = true }

abbrev parse : Text → Option (List MatrixEvent)
parse body = some []

wrong_token : (serve_transaction parse none (some enabled) 0 (lit "Bearer as") put fresh).1 ≡ 401
unfolding program
wrong_token = refl

strangers : serve_hello [] ≡ 401
unfolding program
strangers = refl

serve_transaction-is_authorised_example :
    serve_transaction parse none (some enabled) 0 (lit "Bearer hs") put fresh
    ≡ handle_matrix_transaction parse none 0 put fresh
unfolding program
serve_transaction-is_authorised_example =
    serve_transaction-is_authorised parse none (some enabled) 0 (lit "Bearer hs") put fresh

-- A configuration that is loaded, one without a token, and one while shared channels are off.
abbrev changes : List (Option Bool × Option Configuration)
changes =
    (some true, some enabled)
    ∷ (some true, some (record enabled { matrix_hs_token = [] }))
    ∷ (some false, some empty_configuration)
    ∷ []

normal_mode : (get_configuration (run_changes changes none)).rate_limiting_mode ≡ lit "automatic"
unfolding program
normal_mode = refl

run_changes-IsSound_example : IsSound (run_changes changes none)
run_changes-IsSound_example = run_changes-IsSound changes none tt
