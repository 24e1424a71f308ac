-- ===== src/ToMattermost/Messages/Redacted.antt =====
-- The redaction of a message that was synchronised removes its post (server/sync_to_mattermost.go).
use mattermost_plugin_matrix.Prelude.{
  ℕ, ◌≡◌, refl, sym, ap, subst, ◌⊎◌, false, Option, none, some, Option-cases, inl, inr, [], Text,
  ◌==◌, lit, arith,
}
use mattermost_plugin_matrix.Event.{MatrixEvent, Fields, text_at}
use mattermost_plugin_matrix.Store.{KvStore, IsKvStore, IsReliable}
use mattermost_plugin_matrix.Mapping.{Bridge}
use mattermost_plugin_matrix.Mattermost.{MattermostServer, IsMattermost, Post}
use mattermost_plugin_matrix.Content.{extract_matrix_message_content}
use mattermost_plugin_matrix.ToMattermost.{SyncClient, Settings, done, room_of_channel}
use mattermost_plugin_matrix.ToMattermost.Lookups.{room_of_channel-store}
use mattermost_plugin_matrix.ToMattermost.Messages.{sync_new_message}
use mattermost_plugin_matrix.ToMattermost.Messages.Mapped.{
  IsPostOf, get_post_id-IsPostOf, sync_new_message-IsPostOf,
}
use mattermost_plugin_matrix.ToMattermost.Reactions.{Codec}
use mattermost_plugin_matrix.ToMattermost.Redactions.{
  handle_post_deletion, redact, sync_matrix_redaction_to_mattermost,
}

-- What the Matrix server says of a message that is redacted: nothing, or that it is one.
abbrev pub IsMessageOrGone : Option Fields → Type 0
IsMessageOrGone event =
    (event ≡ none)
    ⊎ ((redacted : Fields) × (event ≡ some redacted)
        × (text_at (lit "type") redacted ≡ some (lit "m.room.message")))

module _ {S : Type 0} (kv : KvStore S) (stored : IsKvStore kv) (mm : MattermostServer S)
    (laws : IsMattermost kv stored.contents mm) (reliable : IsReliable kv stored.contents)
    (client : SyncClient) (settings : Settings) (converter : Text → Option Text) (codec : Codec)
    (emoji_name_of : Text → Text) where
  handle_post_deletion-IsPostOf :
      (now : ℕ) (event_id channel : Text) (post : Post) (b gone : Bridge S)
      → IsPostOf kv stored mm event_id post b.store
      → handle_post_deletion kv mm client settings codec emoji_name_of now event_id channel b
        ≡ (gone, done)
      → mm.get_post post.id gone.store ≡ none
  unfolding handle_post_deletion
  handle_post_deletion-IsPostOf now event_id channel post b gone known =
      rw
        (
          get_post_id-IsPostOf kv stored mm laws reliable client settings converter now event_id
              channel post b known,
          handle_post_deletion,
        )
        (rw known.named (elim (Option-cases (mm.delete_post post.id b.store)) [
          | inl e ↦ rw (e, handle_post_deletion) (λ h. absurd (ground arith))
          | inr (after, e) ↦
              rw (e, handle_post_deletion)
                (λ h.
                  subst (λ s. mm.get_post post.id s ≡ none) (ap (λ x. x.0.store) h)
                    (laws.delete_post_law post.id b.store after e).0)
        ]))

  redact-IsMessageOrGone :
      (now : ℕ) (event_id channel : Text) (event : Option Fields) (b : Bridge S)
      → IsMessageOrGone event
      → redact kv mm client settings codec emoji_name_of now event_id channel event b
        ≡ handle_post_deletion kv mm client settings codec emoji_name_of now event_id channel b
  unfolding redact ◌==◌
  redact-IsMessageOrGone now event_id channel event b (inl e) = rw e refl
  redact-IsMessageOrGone now event_id channel event b (inr (redacted, e, kind)) =
      rw e (rw (kind, redact) refl)

  sync_matrix_redaction-IsPostOf :
      (now : ℕ) (redaction : MatrixEvent) (event_id channel room : Text) (post : Post)
      (b gone : Bridge S)
      → IsPostOf kv stored mm event_id post b.store
      → text_at (lit "redacts") redaction.content ≡ some event_id
      → (room_of_channel kv client now channel b).1 ≡ some room
      → IsMessageOrGone (client.get_event room event_id)
      → sync_matrix_redaction_to_mattermost kv mm client settings codec emoji_name_of now redaction
          channel b
        ≡ (gone, done)
      → mm.get_post post.id gone.store ≡ none
  unfolding sync_matrix_redaction_to_mattermost
  sync_matrix_redaction-IsPostOf now redaction event_id channel room post b gone known redacts
        mapped message =
      let after = (room_of_channel kv client now channel b).0 in
      let still : IsPostOf kv stored mm event_id post after.store =
        subst (IsPostOf kv stored mm event_id post)
          (sym (room_of_channel-store kv client now channel b)) known in
      rw (redacts, sync_matrix_redaction_to_mattermost)
        (rw (mapped, sync_matrix_redaction_to_mattermost)
          (rw
            (redact-IsMessageOrGone now event_id channel (client.get_event room event_id) after
              message)
            (handle_post_deletion-IsPostOf now event_id channel post after gone still)))

  -- If the store does not fail, and a message with a text was synchronised without an error, then a
  -- redaction of its event that ends without an error removes the post that the message made, which
  -- had the text of the message in its channel. The redaction may come by any channel, provided that
  -- the channel has a room, that the alias of the room resolves, and that the Matrix server knows the
  -- event as a message or does not give it.
  pub sync_matrix_redaction_to_mattermost-sync_new_message :
      (now later : ℕ) (event redaction : MatrixEvent) (channel other room : Text)
      (b sent gone : Bridge S)
      → (extract_matrix_message_content kv mm converter event.content b.store == []) ≡ false
      → sync_new_message kv mm client settings converter now event channel b ≡ (sent, done)
      → text_at (lit "redacts") redaction.content ≡ some event.event_id
      → (room_of_channel kv client later other sent).1 ≡ some room
      → IsMessageOrGone (client.get_event room event.event_id)
      → sync_matrix_redaction_to_mattermost kv mm client settings codec emoji_name_of later
          redaction other sent
        ≡ (gone, done)
      → (post : Post) × (mm.get_post post.id sent.store ≡ some post)
        × (post.message ≡ extract_matrix_message_content kv mm converter event.content b.store)
        × (post.channel_id ≡ channel)
        × (mm.get_post post.id gone.store ≡ none)
  sync_matrix_redaction_to_mattermost-sync_new_message now later event redaction channel other room
        b sent gone written synced redacts mapped message ended =
      let (post, known, text, at) =
        sync_new_message-IsPostOf kv stored mm laws reliable client settings converter now event
          channel b sent written synced in
      (
        post,
        known.there,
        text,
        at,
        sync_matrix_redaction-IsPostOf later redaction event.event_id other room post sent gone
            known redacts mapped message ended,
      )
