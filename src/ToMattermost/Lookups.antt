-- ===== src/ToMattermost/Lookups.antt =====
-- Finding the post of a Matrix event (server/sync_to_mattermost.go) changes the cache of rooms at most.
use mattermost_plugin_matrix.Prelude.{
  ℕ, ◌≡◌, refl, ◌∙◌, Option-cases, Bool-cases, inl, inr, [], Text, ◌==◌,
}
use mattermost_plugin_matrix.Event.{or_empty}
use mattermost_plugin_matrix.Store.{KvStore, build_channel_mapping_key, build_matrix_event_post_key}
use mattermost_plugin_matrix.Mapping.{Bridge, look_up, get_matrix_room_id}
use mattermost_plugin_matrix.ToMattermost.{
  SyncClient, room_of_channel, event_of_channel, primary_event, get_post_id_from_matrix_event,
  get_post_id_from_related_matrix_event,
}

module _ {S : Type 0} (kv : KvStore S) where
  pub get_matrix_room_id-store :
      (now : ℕ) (channel : Text) (b : Bridge S)
      → (get_matrix_room_id kv now channel b).0.store ≡ b.store
  unfolding get_matrix_room_id
  get_matrix_room_id-store now channel b =
      let key = build_channel_mapping_key channel in
      elim (Option-cases (look_up now key b.room_mapping_cache).1) [
        | inr (room, e) ↦ rw (e, get_matrix_room_id) refl
        | inl e ↦
            rw (e, get_matrix_room_id)
              (elim (Option-cases (kv.get key b.store)) [
                | inl f ↦ rw (f, get_matrix_room_id) refl
                | inr (room, f) ↦ rw (f, get_matrix_room_id) refl
              ])
      ]

module _ {S : Type 0} (kv : KvStore S) (client : SyncClient) where
  pub room_of_channel-store :
      (now : ℕ) (channel : Text) (b : Bridge S)
      → (room_of_channel kv client now channel b).0.store ≡ b.store
  unfolding room_of_channel
  room_of_channel-store now channel b =
      elim (Bool-cases ((get_matrix_room_id kv now channel b).1 == [])) [
        | inl e ↦ rw e (get_matrix_room_id-store kv now channel b)
        | inr e ↦ rw e (get_matrix_room_id-store kv now channel b)
      ]

  event_of_channel-store :
      (now : ℕ) (event_id channel : Text) (b : Bridge S)
      → (event_of_channel kv client now event_id channel b).0.store ≡ b.store
  unfolding event_of_channel
  event_of_channel-store now event_id channel b =
      elim (Option-cases (room_of_channel kv client now channel b).1) [
        | inl e ↦ rw (e, event_of_channel) (room_of_channel-store now channel b)
        | inr (room, e) ↦ rw (e, event_of_channel) (room_of_channel-store now channel b)
      ]

  pub get_post_id-store :
      (now : ℕ) (event_id channel : Text) (b : Bridge S)
      → (get_post_id_from_matrix_event kv client now event_id channel b).0.store ≡ b.store
  unfolding get_post_id_from_matrix_event
  get_post_id-store now event_id channel b =
      elim (Bool-cases (or_empty (kv.get (build_matrix_event_post_key event_id) b.store) == [])) [
        | inl e ↦ rw e (event_of_channel-store now event_id channel b)
        | inr e ↦ rw e refl
      ]

  pub related-store :
      (now : ℕ) (event_id channel : Text) (b : Bridge S)
      → (get_post_id_from_related_matrix_event kv client now event_id channel b).0.store ≡ b.store
  unfolding get_post_id_from_related_matrix_event
  related-store now event_id channel b =
      let found = event_of_channel kv client now event_id channel b in
      elim (Option-cases (primary_event found.1)) [
        | inl e ↦
            rw (e, get_post_id_from_related_matrix_event)
              (event_of_channel-store now event_id channel b)
        | inr (primary, e) ↦
            rw (e, get_post_id_from_related_matrix_event)
              (get_post_id-store now primary channel found.0
                ∙ event_of_channel-store now event_id channel b)
      ]
