-- ===== src/Mapping/Stale.antt =====
-- `executeUnmapCommand` (server/command/command.go) changes the store, and `GetMatrixRoomID`
-- (server/bridge_utils.go) reads the cache first.
use mattermost_plugin_matrix.Prelude.{
  ℕ, ◌+◌, ◌≤◌, ◌≡◌, refl, true, false, Option, none, some, Option-cases, inl, inr, [], Text,
  eq_refl, arith,
}
use mattermost_plugin_matrix.Prelude.Int.{is_nonpos}
use mattermost_plugin_matrix.Cache
use mattermost_plugin_matrix.Cache.{Cache}
use mattermost_plugin_matrix.Cache.Invariant
use mattermost_plugin_matrix.Cache.Reads.{get-set_self}
use mattermost_plugin_matrix.Store.{
  KvStore, IsKvStore, or_same, build_channel_mapping_key, build_room_mapping_key,
}
use mattermost_plugin_matrix.Store.Keys.{room-channel}
use mattermost_plugin_matrix.Mapping.{
  MatrixClient, Bridge, removed, resolved, cache_room, look_up, get_matrix_room_id,
  set_channel_room_mapping, execute_unmap_command,
}
use mattermost_plugin_matrix.Mapping.RoundTrip.{success}

module _ {S : Type 0} (kv : KvStore S) (laws : IsKvStore kv) where
  deleted :
      (channel room : Text) (s after : S)
      → kv.delete (build_channel_mapping_key channel) s ≡ some after
      → laws.contents
          (build_channel_mapping_key channel)
          (or_same after (kv.delete (build_room_mapping_key room) after))
        ≡ []
  deleted channel room s after e =
      elim (Option-cases (kv.delete (build_room_mapping_key room) after)) [
        | inl failed ↦ ground (
          arith,
          laws.contents-delete (build_channel_mapping_key channel)
              (build_channel_mapping_key channel) s after e,
          eq_refl (build_channel_mapping_key channel),
        )
        | inr (last, f) ↦ ground (
          arith,
          laws.contents-delete (build_channel_mapping_key channel)
              (build_channel_mapping_key channel) s after e,
          eq_refl (build_channel_mapping_key channel),
          laws.contents-delete (build_room_mapping_key room) (build_channel_mapping_key channel)
              after last f,
          room-channel room channel,
        )
      ]

  unmap_cases :
      (client : Option MatrixClient) (channel : Text) (s : S) (found : Option Text)
      → kv.get (build_channel_mapping_key channel) s ≡ found
      → (execute_unmap_command kv client channel s).1 ≡ removed
      → laws.contents
          (build_channel_mapping_key channel)
          (execute_unmap_command kv client channel s).0
        ≡ []
  unfolding execute_unmap_command
  unmap_cases none channel s none e done = absurd (ground arith)
  unmap_cases none channel s (some room) e done = absurd (ground arith)
  unmap_cases (some c) channel s none e done = absurd (ground arith)
  unmap_cases (some c) channel s (some room) e done =
      elim (Option-cases (kv.delete (build_channel_mapping_key channel) s)) [
        | inl failed ↦ absurd (ground arith)
        | inr (after, f) ↦ ground (arith, deleted channel room s after f)
      ]

  -- What is in the cache is not looked up in the store.
  cached_room :
      (later : ℕ) (channel room : Text) (s : S) (cache : Option Cache)
      → (look_up later (build_channel_mapping_key channel) cache).1 ≡ some room
      → (get_matrix_room_id kv later channel (record { store = s; room_mapping_cache = cache })).1
        ≡ room
  unfolding get_matrix_room_id
  cached_room later channel room s cache hit = ground arith

  look_up-cache_room :
      (now later : ℕ) (key room : Text) (c : Cache)
      → Cache.Invariant.IsValid c
      → is_nonpos c.capacity ≡ false
      → later ≤ now + c.ttl
      → (look_up later key (cache_room now key room (some c))).1 ≡ some room
  unfolding look_up cache_room
  look_up-cache_room now later key room c valid on soon =
      get-set_self now later c key room valid on soon

  -- A mapping that was made by `setChannelRoomMapping` and removed by the unmap command is gone
  -- from the store, but until the time to live of the cache is over `GetMatrixRoomID` still
  -- returns the room. The cache is valid and of positive capacity.
  pub get_matrix_room_id-execute_unmap_command :
      (client : MatrixClient) (commands : Option MatrixClient) (now later : ℕ)
      (channel identifier : Text) (b : Bridge S) (c : Cache)
      → b.room_mapping_cache ≡ some c
      → Cache.Invariant.IsValid c
      → is_nonpos c.capacity ≡ false
      → later ≤ now + c.ttl
      → let mapped = set_channel_room_mapping kv client now channel identifier b in
        mapped.1 ≡ true
        → (execute_unmap_command kv commands channel mapped.0.store).1 ≡ removed
        → let s = (execute_unmap_command kv commands channel mapped.0.store).0 in
          (laws.contents (build_channel_mapping_key channel) s ≡ [])
          × ((get_matrix_room_id kv later channel (record mapped.0 { store = s })).1
              ≡ resolved client identifier)
  get_matrix_room_id-execute_unmap_command client commands now later channel identifier b c cached
        valid on soon ok done =
      let (forward, both, e, f, all) = success kv laws client now channel identifier b ok in
      let mapped = (set_channel_room_mapping kv client now channel identifier b).0 in
      (
        unmap_cases commands channel mapped.store
            (kv.get (build_channel_mapping_key channel) mapped.store) refl done,
        cached_room later channel (resolved client identifier)
            (execute_unmap_command kv commands channel mapped.store).0 mapped.room_mapping_cache
            (rw (all, cached)
              (look_up-cache_room now later (build_channel_mapping_key channel)
                (resolved client identifier) c valid on soon)),
      )
