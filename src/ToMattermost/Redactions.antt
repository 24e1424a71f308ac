-- ===== src/ToMattermost/Redactions.antt =====
-- server/sync_to_mattermost.go: redactions, which remove the reaction or the post of a Matrix event.
use mattermost_plugin_matrix.Prelude.{ℕ, Option, none, some, [], if◌then◌else◌, Text, ◌==◌, lit}
use mattermost_plugin_matrix.Event.{MatrixEvent, Fields, text_at}
use mattermost_plugin_matrix.Store.{KvStore}
use mattermost_plugin_matrix.Mapping.{Bridge}
use mattermost_plugin_matrix.Mattermost.{MattermostServer}
use mattermost_plugin_matrix.ToMattermost.{
  SyncClient, Settings, Outcome, done, failed, room_of_channel, get_post_id_from_matrix_event,
}
use mattermost_plugin_matrix.ToMattermost.Reactions.{Codec, handle_reaction_deletion}

module _ {S : Type 0} (kv : KvStore S) (mm : MattermostServer S) (client : SyncClient)
    (settings : Settings) (codec : Codec) (emoji_name_of : Text → Text) where
  -- `handlePostDeletion`
  unfoldable pub handle_post_deletion : ℕ → Text → Text → Bridge S → Bridge S × Outcome
  handle_post_deletion now redacts channel b =
      let (found, post_id) = get_post_id_from_matrix_event kv client now redacts channel b in
      if post_id == [] then (found, done) else elim (mm.delete_post post_id found.store) [
        | none ↦ (found, failed)
        | some after ↦ (record found { store = after }, done)
      ]

  -- `syncMatrixRedactionToMattermost`, once the redacted event is asked for; none is an error
  unfoldable pub redact : ℕ → Text → Text → Option Fields → Bridge S → Bridge S × Outcome
  redact now redacts channel none b = handle_post_deletion now redacts channel b
  redact now redacts channel (some redacted) b = elim (text_at (lit "type") redacted) [
    | none ↦ (b, done)
    | some kind ↦
        if kind == lit "m.reaction"
        then handle_reaction_deletion kv mm client settings codec emoji_name_of redacted b
        else if kind == lit "m.room.message"
        then handle_post_deletion now redacts channel b
        else (b, done)
  ]

  -- `syncMatrixRedactionToMattermost`
  unfoldable pub sync_matrix_redaction_to_mattermost :
      ℕ → MatrixEvent → Text → Bridge S → Bridge S × Outcome
  sync_matrix_redaction_to_mattermost now event channel b =
      elim (text_at (lit "redacts") event.content) [
        | none ↦ (b, failed)
        | some redacts ↦
            let (after, room) = room_of_channel kv client now channel b in
            elim room [
              | none ↦ (after, done)
              | some room_id ↦ redact now redacts channel (client.get_event room_id redacts) after
            ]
      ]
