-- ===== src/ToMattermost/Reactions/RoundTrip.antt =====
-- A reaction that was synchronised is removed by its redaction (server/sync_to_mattermost.go).
use mattermost_plugin_matrix.Prelude.{
  ◌≡◌, ◌∙◌, ap, subst, true, false, ◌&&◌, if◌then◌else◌, some, Option-cases, inl, inr, Text, ◌==◌,
  lit, eq_refl, arith,
}
use mattermost_plugin_matrix.Event.{MatrixEvent, Fields, text_at}
use mattermost_plugin_matrix.Store.{KvStore, IsKvStore, IsReliable, build_matrix_reaction_key}
use mattermost_plugin_matrix.Mapping.{Bridge}
use mattermost_plugin_matrix.Mattermost.{MattermostServer, IsMattermost}
use mattermost_plugin_matrix.ToMattermost.{SyncClient, Settings, done}
use mattermost_plugin_matrix.ToMattermost.Reactions.{
  ReactionInfo, Codec, reaction_of, removal_of, add_and_store, remove_stored,
  handle_reaction_deletion,
}

module _ {S : Type 0} (kv : KvStore S) (stored : IsKvStore kv) (mm : MattermostServer S)
    (laws : IsMattermost kv stored.contents mm) (reliable : IsReliable kv stored.contents)
    (client : SyncClient) (settings : Settings) (codec : Codec) (emoji_name_of : Text → Text) where
  -- If a reaction is there, with what is stored of it.
  record IsStored (event_id : Text) (info : ReactionInfo) (s : S) : Type 0 where
    there : laws.has_reaction info.post_id info.user_id info.emoji_name s ≡ true
    entry : stored.contents (build_matrix_reaction_key event_id) s ≡ codec.marshal info

  add_and_store-IsStored :
      (event : MatrixEvent) (info : ReactionInfo) (b after : Bridge S)
      → add_and_store kv mm client settings codec emoji_name_of event info b ≡ (after, done)
      → IsStored event.event_id info after.store
  unfolding add_and_store reaction_of
  add_and_store-IsStored event info b after =
      elim (Option-cases (mm.add_reaction (reaction_of settings event info) b.store)) [
        | inl e ↦ rw (e, add_and_store) (λ h. absurd (ground arith))
        | inr (added, e) ↦
            let key = build_matrix_reaction_key event.event_id in
            let (mapped, f) = reliable.writes key (codec.marshal info) added in
            rw (e, add_and_store)
              (rw f (λ h. subst (IsStored event.event_id info) (ap (λ x. x.0.store) h) (record {
                there =
                    (laws.set_law key (codec.marshal info) added mapped f).2 info.post_id
                      info.user_id info.emoji_name
                    ∙ (laws.add_reaction_law (reaction_of settings event info) b.store added e).0;
                entry = ground (
                  arith,
                  stored.contents-set key key (codec.marshal info) added mapped f,
                  eq_refl key,
                );
              })))
      ]

  -- What takes away one reaction, and no other.
  abbrev pub TakesAway : ReactionInfo → S → S → Type 0
  TakesAway info s t =
      (post user emoji : Text)
      → laws.has_reaction post user emoji t ≡ (
          if post == info.post_id && user == info.user_id && emoji == info.emoji_name
          then false
          else laws.has_reaction post user emoji s)

  remove_stored-TakesAway :
      (event_id : Text) (info : ReactionInfo) (b gone : Bridge S)
      → remove_stored kv mm client settings codec emoji_name_of event_id (codec.marshal info) b
        ≡ (gone, done)
      → TakesAway info b.store gone.store
  unfolding remove_stored removal_of
  remove_stored-TakesAway event_id info b gone =
      let key = build_matrix_reaction_key event_id in
      rw (codec.unmarshal-marshal info, remove_stored)
        (elim (Option-cases (mm.remove_reaction (removal_of info) b.store)) [
          | inl e ↦ rw (e, remove_stored) (λ h. absurd (ground arith))
          | inr (removed, e) ↦
              let off = laws.remove_reaction_law (removal_of info) b.store removed e in
              rw (e, remove_stored)
                (elim (Option-cases (kv.delete key removed)) [
                  | inl f ↦ rw f (λ h. subst (TakesAway info b.store) (ap (λ x. x.0.store) h) off)
                  | inr (deleted, f) ↦ rw f (λ h.
                      subst (TakesAway info b.store) (ap (λ x. x.0.store) h) (λ post user emoji.
                        (laws.delete_law key removed deleted f).2 post user emoji
                        ∙ off post user emoji))
                ])
        ])

  -- If the store does not fail, and a reaction was added for an event without an error, then it is
  -- there, and removing the reaction of that event, if it ends without an error, takes away the
  -- reaction of that user with that emoji on that post, and no other: every other reaction is there
  -- after it if and only if it was before it.
  pub handle_reaction_deletion-add_and_store :
      (event : MatrixEvent) (info : ReactionInfo) (redacted : Fields) (b reacted gone : Bridge S)
      → add_and_store kv mm client settings codec emoji_name_of event info b ≡ (reacted, done)
      → text_at (lit "event_id") redacted ≡ some event.event_id
      → handle_reaction_deletion kv mm client settings codec emoji_name_of redacted reacted
        ≡ (gone, done)
      → (laws.has_reaction info.post_id info.user_id info.emoji_name reacted.store ≡ true)
        × ((post user emoji : Text)
            → laws.has_reaction post user emoji gone.store ≡ (
                if post == info.post_id && user == info.user_id && emoji == info.emoji_name
                then false
                else laws.has_reaction post user emoji reacted.store))
  unfolding handle_reaction_deletion
  handle_reaction_deletion-add_and_store event info redacted b reacted gone added named =
      let kept = add_and_store-IsStored event info b reacted added in
      let key = build_matrix_reaction_key event.event_id in
      rw (named, handle_reaction_deletion)
        (rw (reliable.reads key reacted.store ∙ ap some kept.entry, handle_reaction_deletion)
          (λ h. (kept.there, remove_stored-TakesAway event.event_id info reacted gone h)))
