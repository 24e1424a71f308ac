-- ===== src/ToMattermost/Members/Leaving.antt =====
-- Who is in a channel after a member event (server/sync_to_mattermost.go).
use mattermost_plugin_matrix.Prelude.{
  ◌≡◌, ◌⊎◌, refl, ap, subst, true, false, Option, some, Option-cases, inl, inr, [], Text, ◌==◌, lit,
  arith,
}
use mattermost_plugin_matrix.Event.{MatrixEvent, text_at, or_empty}
use mattermost_plugin_matrix.Store.{KvStore, IsKvStore, build_matrix_user_key}
use mattermost_plugin_matrix.Mattermost.{MattermostServer, IsMattermost}
use mattermost_plugin_matrix.ToMattermost.{SyncClient, Settings, Outcome, done, failed}
use mattermost_plugin_matrix.ToMattermost.Users.{
  add_user_to_channel_team, get_or_create_mattermost_user,
}
use mattermost_plugin_matrix.ToMattermost.Members.{
  is_any_ghost_user, add_user_to_channel, remove_user_from_channel, handle_matrix_member_join,
  handle_matrix_member_leave, sync_matrix_member_event_to_mattermost,
}

Outcome-cases : (o : Outcome) → (o ≡ done) ⊎ (o ≡ failed)
Outcome-cases done = inl refl
Outcome-cases failed = inr refl

module _ {S : Type 0} (kv : KvStore S) (stored : IsKvStore kv) (mm : MattermostServer S)
    (laws : IsMattermost kv stored.contents mm) (client : Option SyncClient)
    (settings : Settings) where
  add_user_to_channel_lem :
      (user channel : Text) (s after : S)
      → add_user_to_channel kv mm client settings user channel s ≡ (after, done)
      → mm.has_channel_member channel user after ≡ true
  unfolding add_user_to_channel
  add_user_to_channel_lem user channel s after =
      let joined = add_user_to_channel_team kv mm client settings user channel s in
      elim (Outcome-cases joined.1) [
        | inr e ↦ rw (e, add_user_to_channel) (λ h. absurd (ground arith))
        | inl e ↦
            rw (e, add_user_to_channel)
              (elim (Option-cases (mm.add_channel_member channel user joined.0)) [
                | inl f ↦ rw (f, add_user_to_channel) (λ h. absurd (ground arith))
                | inr (added, f) ↦
                    rw (f, add_user_to_channel)
                      (λ h.
                        subst (λ t. mm.has_channel_member channel user t ≡ true) (ap (λ x. x.0) h)
                          (laws.add_channel_member_law channel user joined.0 added f))
              ])
      ]

  -- What the user that the store has for the sender of an event is.
  abbrev mapped_user : MatrixEvent → S → Text
  mapped_user event s = or_empty (kv.get (build_matrix_user_key event.sender) s)

  -- If a member event with the membership join, of a sender that is no ghost and that the store has no
  -- user for, ends without an error, then a Mattermost user was found or created for the sender and is a
  -- member of the channel.
  pub sync_matrix_member_event_joins :
      (event : MatrixEvent) (channel : Text) (s after : S)
      → is_any_ghost_user event.sender ≡ false
      → text_at (lit "membership") event.content ≡ some (lit "join")
      → mapped_user event s ≡ []
      → sync_matrix_member_event_to_mattermost kv mm client settings event channel s ≡ (after, done)
      → (user : Text) × ((get_or_create_mattermost_user kv mm client settings event.sender channel
            s).1
          ≡ some user)
        × (mm.has_channel_member channel user after ≡ true)
  unfolding sync_matrix_member_event_to_mattermost handle_matrix_member_join ◌==◌
  sync_matrix_member_event_joins event channel s after real join unmapped =
      let got = get_or_create_mattermost_user kv mm client settings event.sender channel s in
      rw real (
        rw (join, sync_matrix_member_event_to_mattermost)
          (rw (unmapped, handle_matrix_member_join)
            (elim (Option-cases got.1) [
              | inl e ↦ rw (e, handle_matrix_member_join) (λ h. absurd (ground arith))
              | inr (user, e) ↦
                  rw (e, handle_matrix_member_join)
                    (λ h. (user, refl, add_user_to_channel_lem user channel got.0 after h))
            ])))

  -- A ban, which one member sends to put another one out, removes the user of its sender, whoever it
  -- names as its target: if the sender is no ghost and the store has a user for it, and the event ends
  -- without an error, then that user is no member of the channel.
  pub sync_matrix_member_event_bans :
      (event : MatrixEvent) (channel : Text) (s after : S)
      → is_any_ghost_user event.sender ≡ false
      → text_at (lit "membership") event.content ≡ some (lit "ban")
      → (mapped_user event s == []) ≡ false
      → sync_matrix_member_event_to_mattermost kv mm client settings event channel s ≡ (after, done)
      → mm.has_channel_member channel (mapped_user event s) after ≡ false
  unfolding sync_matrix_member_event_to_mattermost handle_matrix_member_leave
      remove_user_from_channel ◌==◌
  sync_matrix_member_event_bans event channel s after real ban mapped =
      let user = mapped_user event s in
      rw real (
        rw (ban, sync_matrix_member_event_to_mattermost)
          (rw mapped (elim (Option-cases (mm.delete_channel_member channel user s)) [
            | inl e ↦ rw (e, remove_user_from_channel) (λ h. absurd (ground arith))
            | inr (gone, e) ↦
                rw (e, remove_user_from_channel)
                  (λ h.
                    subst (λ t. mm.has_channel_member channel user t ≡ false) (ap (λ x. x.0) h)
                      (laws.delete_channel_member_law channel user s gone e))
          ])))
