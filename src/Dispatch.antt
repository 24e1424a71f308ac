-- ===== src/Dispatch.antt =====
-- server/matrix_webhook.go with server/sync_to_mattermost.go: an event of a Matrix transaction from its
-- room to the handler, and what the handler does.
pub mod Ghosts
mod Tests
use mattermost_plugin_matrix.Prelude.{ℕ, ◌≡◌, Option, none, some, List, [], ◌∷◌, Text}
use mattermost_plugin_matrix.Event.{MatrixEvent}
use mattermost_plugin_matrix.Store.{KvStore}
use mattermost_plugin_matrix.Mapping.{Bridge}
use mattermost_plugin_matrix.Mattermost.{MattermostServer, is_some}
use mattermost_plugin_matrix.Webhook.{
  MattermostApi, Route, ignored, handled, Handler, message, reaction, member, redaction,
  process_matrix_event,
}
use mattermost_plugin_matrix.ToMattermost.{SyncClient, Settings, Outcome, done, failed}
use mattermost_plugin_matrix.ToMattermost.Users.{get_or_create_mattermost_user}
use mattermost_plugin_matrix.ToMattermost.Messages.{sync_matrix_message_to_mattermost}
use mattermost_plugin_matrix.ToMattermost.Reactions.{Codec, sync_matrix_reaction_to_mattermost}
use mattermost_plugin_matrix.ToMattermost.Redactions.{sync_matrix_redaction_to_mattermost}
use mattermost_plugin_matrix.ToMattermost.Members.{sync_matrix_member_event_to_mattermost}

module _ {S : Type 0} (kv : KvStore S) (mm : MattermostServer S) (client : SyncClient)
    (settings : Settings) (converter : Text → Option Text) (codec : Codec)
    (emoji_name_of : Text → Text) (direct_channel : Text → Text → S → Option (S × Text)) where
  -- What the webhook asks of Mattermost. A user whose direct channel is made is given no channel.
  unfoldable pub api_of : MattermostApi S
  api_of = record {
    has_user = λ user s. is_some (mm.get_user user s);
    get_or_create_user = λ matrix_user s.
        get_or_create_mattermost_user kv mm (some client) settings matrix_user [] s;
    get_direct_channel = direct_channel;
  }

  -- The handlers of the switch at the end of `processMatrixEvent`.
  unfoldable pub run_handler : Handler → ℕ → MatrixEvent → Text → Bridge S → Bridge S × Outcome
  run_handler message now event channel b =
      sync_matrix_message_to_mattermost kv mm client settings converter now event channel b
  run_handler reaction now event channel b =
      sync_matrix_reaction_to_mattermost kv mm client settings codec emoji_name_of now event channel
        b
  run_handler member now event channel b =
      let (after, outcome) =
        sync_matrix_member_event_to_mattermost kv mm (some client) settings event channel b.store in
      (record b { store = after }, outcome)
  run_handler redaction now event channel b =
      sync_matrix_redaction_to_mattermost kv mm client settings codec emoji_name_of now event
        channel b

  -- An event that is ignored is no error.
  unfoldable pub follow : Route → ℕ → MatrixEvent → Bridge S → Bridge S × Outcome
  follow ignored now event b = (b, done)
  follow (handled handler channel) now event b = run_handler handler now event channel b

  -- `processMatrixEvent`, with its handlers
  unfoldable pub handle_event : ℕ → MatrixEvent → Bridge S → Bridge S × Outcome
  handle_event now event b =
      let (after, route) =
        process_matrix_event kv settings.hostname (some client.rooms) api_of now event b.store in
      follow route now event (record b { store = after })

  -- the events of a transaction in turn; the error of one is only logged
  unfoldable pub handle_events : ℕ → List MatrixEvent → Bridge S → Bridge S
  handle_events now [] b = b
  handle_events now (event ∷ events) b = handle_events now events (handle_event now event b).0
