-- ===== src/Webhook/Routing.antt =====
-- Which events of server/matrix_webhook.go reach a handler, and which make a direct channel.
use mattermost_plugin_matrix.Prelude.{
  ℕ, ◌≡◌, refl, true, false, Option, none, some, Option-cases, Bool-cases, inl, inr, [], Text, ◌==◌,
  eq_iff, arith,
}
use mattermost_plugin_matrix.Store.{KvStore, build_ghost_user_key}
use mattermost_plugin_matrix.Mapping.{MatrixClient, get_channel_id_from_matrix_room}
use mattermost_plugin_matrix.Event.{MatrixEvent}
use mattermost_plugin_matrix.Ghost.{is_ghost_user, extract_mattermost_user_id_from_ghost}
use mattermost_plugin_matrix.Webhook.{
  MattermostApi, ignored, create_dm_channel_for_ghost_user, handle_matrix_initiated_dm, route_event,
  route_created, process_matrix_event,
}

module _ {S : Type 0} (kv : KvStore S) (server : Option Text) (client : Option MatrixClient)
    (api : MattermostApi S) where
  ghost_ignored :
      (event : MatrixEvent) (channel : Text)
      → is_ghost_user server event.sender ≡ true
      → route_event kv server client api event channel ≡ ignored
  unfolding route_event
  ghost_ignored event channel ghost = ground arith

  created_ignored :
      (event : MatrixEvent) (created : Option Text)
      → is_ghost_user server event.sender ≡ true
      → route_created kv server client api event created ≡ ignored
  unfolding route_created
  created_ignored event none ghost = refl
  created_ignored event (some channel) ghost = ghost_ignored event channel ghost

  -- An event that one of our ghost users sent reaches no handler, whatever else it is and whatever
  -- the store holds: what was sent to Matrix does not come back.
  pub process_matrix_event_ghost :
      (now : ℕ) (event : MatrixEvent) (s : S)
      → is_ghost_user server event.sender ≡ true
      → (process_matrix_event kv server client api now event s).1 ≡ ignored
  unfolding process_matrix_event
  process_matrix_event_ghost now event s ghost = ground (
    arith,
    ghost_ignored event (get_channel_id_from_matrix_room kv client event.room_id s) ghost,
    created_ignored event (handle_matrix_initiated_dm kv server client api now event s).1 ghost,
  )

  -- A direct channel that is not the empty text is made only for a ghost user that the store has
  -- under the Mattermost user in its name, and where that Mattermost user exists.
  pub create_dm_channel_for_ghost_user_lem :
      (now : ℕ) (room ghost matrix channel : Text) (s : S)
      → (create_dm_channel_for_ghost_user kv server client api now room ghost matrix s).1
        ≡ some channel
      → (channel == []) ≡ false
      → (kv.get (build_ghost_user_key (extract_mattermost_user_id_from_ghost ghost)) s ≡ some ghost)
        × (api.has_user (extract_mattermost_user_id_from_ghost ghost) s ≡ true)
  unfolding create_dm_channel_for_ghost_user ◌==◌
  create_dm_channel_for_ghost_user_lem now room ghost matrix channel s made named =
      elim (Option-cases
        (kv.get (build_ghost_user_key (extract_mattermost_user_id_from_ghost ghost)) s)) [
          | inl failed ↦ absurd (ground arith)
          | inr (stored, found) ↦ elim (Bool-cases (stored == ghost)) [
            | inl same ↦ ground (arith, eq_iff stored ghost)
            | inr differs ↦ absurd (ground arith)
          ]
        ]
