-- ===== src/Mapping/RoundTrip.antt =====
-- What `setChannelRoomMapping` stores (server/bridge_utils.go) is what `GetMatrixRoomID` and
-- `getChannelIDFromMatrixRoom` (server/matrix_webhook.go) find.
use mattermost_plugin_matrix.Prelude.{
  ℕ, ◌+◌, ◌≡◌, refl, ◌⊎◌, ap, leb, ◌∙◌, true, false, Option, none, some, Option-cases, Bool-cases,
  inl, inr, [], if◌then◌else◌, Text, ◌==◌, eq_refl, arith,
}
use mattermost_plugin_matrix.Prelude.Int.{is_nonpos}
use mattermost_plugin_matrix.Cache
use mattermost_plugin_matrix.Cache.{Cache}
use mattermost_plugin_matrix.Cache.Invariant
use mattermost_plugin_matrix.Cache.Reads.{get-set_self, get-set_late}
use mattermost_plugin_matrix.Store.{
  KvStore, IsKvStore, build_channel_mapping_key, build_room_mapping_key,
}
use mattermost_plugin_matrix.Store.Keys.{room-channel, channel-channel}
use mattermost_plugin_matrix.Mapping.{
  MatrixClient, Bridge, resolved, cache_room, look_up, get_matrix_room_id, set_alias,
  set_channel_room_mapping, get_channel_id_from_matrix_room,
}

-- A cache that has room for entries.
abbrev pub IsReady : Option Cache → Type 0
IsReady none = Unit
IsReady (some c) = Cache.Invariant.IsValid c × (is_nonpos c.capacity ≡ false)

abbrev pub ttl_of : Option Cache → ℕ
ttl_of none = 0
ttl_of (some c) = c.ttl

module _ {S : Type 0} (kv : KvStore S) (laws : IsKvStore kv) where
  contents-set_alias :
      (channel identifier room j : Text) (s : S)
      → (build_room_mapping_key identifier == j) ≡ false
      → laws.contents j (set_alias kv channel identifier room s) ≡ laws.contents j s
  unfolding set_alias
  contents-set_alias channel identifier room j s other =
      elim (Option-cases (kv.set (build_room_mapping_key identifier) channel s)) [
        | inl failed ↦ ground arith
        | inr (after, e) ↦
            ground
              (arith, laws.contents-set (build_room_mapping_key identifier) j channel s after e)
      ]

  contents-set_alias_room :
      (channel identifier room : Text) (s : S)
      → laws.contents (build_room_mapping_key room) s ≡ channel
      → laws.contents (build_room_mapping_key room) (set_alias kv channel identifier room s)
        ≡ channel
  unfolding set_alias
  contents-set_alias_room channel identifier room s h =
      elim (Option-cases (kv.set (build_room_mapping_key identifier) channel s)) [
        | inl failed ↦ ground arith
        | inr (after, e) ↦ ground (
          arith,
          laws.contents-set (build_room_mapping_key identifier) (build_room_mapping_key room)
              channel s after e,
        )
      ]

  -- The two writes, and the third one for an alias.
  stored :
      (channel identifier room j : Text) (s forward both : S)
      → kv.set (build_channel_mapping_key channel) room s ≡ some forward
      → kv.set (build_room_mapping_key room) channel forward ≡ some both
      → let after = set_alias kv channel identifier room both in
        (laws.contents (build_channel_mapping_key j) after
          ≡ (if channel == j then room else laws.contents (build_channel_mapping_key j) s))
        × (laws.contents (build_room_mapping_key room) after ≡ channel)
  stored channel identifier room j s forward both e f = (
    contents-set_alias channel identifier room (build_channel_mapping_key j) both
          (room-channel identifier j)
        ∙ ground (
          arith,
          laws.contents-set (build_room_mapping_key room) (build_channel_mapping_key j) channel
              forward both f,
          room-channel room j,
          laws.contents-set (build_channel_mapping_key channel) (build_channel_mapping_key j) room s
              forward e,
          channel-channel channel j,
        ),
    contents-set_alias_room channel identifier room both (
        ground (
          arith,
          laws.contents-set (build_room_mapping_key room) (build_room_mapping_key room) channel
              forward both f,
          eq_refl (build_room_mapping_key room),
        )),
  )

  -- The writes of a call that returns no error.
  pub success :
      (client : MatrixClient) (now : ℕ) (channel identifier : Text) (b : Bridge S)
      → (set_channel_room_mapping kv client now channel identifier b).1 ≡ true
      → (forward : S) × (both : S) × (kv.set
            (build_channel_mapping_key channel)
            (resolved client identifier)
            b.store
          ≡ some forward)
        × (kv.set (build_room_mapping_key (resolved client identifier)) channel forward ≡ some both)
        × ((set_channel_room_mapping kv client now channel identifier b).0 ≡ record {
          store = set_alias kv channel identifier (resolved client identifier) both;
          room_mapping_cache =
              cache_room now
                (build_channel_mapping_key channel)
                (resolved client identifier)
                b.room_mapping_cache;
        })
  unfolding set_channel_room_mapping
  success client now channel identifier b ok =
      let room = resolved client identifier in
      elim (Option-cases (kv.set (build_channel_mapping_key channel) room b.store)) [
        | inl failed ↦ absurd (ground arith)
        | inr (forward, e) ↦
            elim (Option-cases (kv.set (build_room_mapping_key room) channel forward)) [
              | inl failed ↦ absurd (ground arith)
              | inr (both, f) ↦ (forward, both, e, f, rw (e, set_channel_room_mapping) (rw f refl))
            ]
      ]

  -- A call of `setChannelRoomMapping` that returns no error has stored the room for the channel and
  -- the channel for the room, and has left the rooms of the other channels alone.
  pub set_channel_room_mapping_lem :
      (client : MatrixClient) (now : ℕ) (channel identifier j : Text) (b : Bridge S)
      → (set_channel_room_mapping kv client now channel identifier b).1 ≡ true
      → let s = (set_channel_room_mapping kv client now channel identifier b).0.store in
        (laws.contents (build_channel_mapping_key j) s ≡ (
          if channel == j
          then resolved client identifier
          else laws.contents (build_channel_mapping_key j) b.store))
        × (laws.contents (build_room_mapping_key (resolved client identifier)) s ≡ channel)
  set_channel_room_mapping_lem client now channel identifier j b ok =
      let (forward, both, e, f, all) = success client now channel identifier b ok in
      rw all (stored channel identifier (resolved client identifier) j b.store forward both e f)

  -- The cache of a mapping gives the room or nothing.
  pub look_up-cache_room :
      (now later : ℕ) (key room : Text) (cache : Option Cache)
      → IsReady cache
      → ((look_up later key (cache_room now key room cache)).1 ≡ none)
        ⊎ ((look_up later key (cache_room now key room cache)).1 ≡ some room)
  unfolding look_up cache_room
  look_up-cache_room now later key room none ready = inl refl
  look_up-cache_room now later key room (some c) ready =
      elim (Bool-cases (leb later (now + c.ttl))) [
        | inl soon ↦ inr (get-set_self now later c key room ready.0 ready.1 (ground arith))
        | inr late ↦ inl (get-set_late now later c key room ready.0 ready.1 (ground arith))
      ]

  get_matrix_room_id_cases :
      (later : ℕ) (channel room : Text) (b : Bridge S)
      → kv.get (build_channel_mapping_key channel) b.store ≡ some room
      → let found = (look_up later (build_channel_mapping_key channel) b.room_mapping_cache).1 in
        (found ≡ none) ⊎ (found ≡ some room) → (get_matrix_room_id kv later channel b).1 ≡ room
  unfolding get_matrix_room_id
  get_matrix_room_id_cases later channel room b reads (inl missed) = ground arith
  get_matrix_room_id_cases later channel room b reads (inr hit) = ground arith

  -- After a call of `setChannelRoomMapping` that returned no error, `GetMatrixRoomID` returns the
  -- room that the identifier was resolved to, at any time, whether the cache still has it, has
  -- lost it, or there is none. The cache is valid and of positive capacity, and the key can be
  -- read in the store.
  pub get_matrix_room_id-set_channel_room_mapping :
      (client : MatrixClient) (now later : ℕ) (channel identifier : Text) (b : Bridge S)
      (read : Text)
      → IsReady b.room_mapping_cache
      → (set_channel_room_mapping kv client now channel identifier b).1 ≡ true
      → kv.get
          (build_channel_mapping_key channel)
          (set_channel_room_mapping kv client now channel identifier b).0.store
        ≡ some read
      → (get_matrix_room_id kv later channel
          (set_channel_room_mapping kv client now channel identifier b).0).1
        ≡ resolved client identifier
  get_matrix_room_id-set_channel_room_mapping client now later channel identifier b read ready ok
        reads =
      let room = resolved client identifier in
      let key = build_channel_mapping_key channel in
      let (forward, both, e, f, all) = success client now channel identifier b ok in
      let is_room =
        laws.contents-get key read _ reads
        ∙ (set_channel_room_mapping_lem client now channel identifier channel b ok).0
        ∙ ground (arith, eq_refl channel) in
      get_matrix_room_id_cases later channel room
        (set_channel_room_mapping kv client now channel identifier b).0 (reads ∙ ap some is_room)
        (rw all (look_up-cache_room now later key room b.room_mapping_cache ready))

  -- After a call of `setChannelRoomMapping` that returned no error, `getChannelIDFromMatrixRoom`
  -- returns the channel for the room that the identifier was resolved to, if the key can be read
  -- in the store and the channel is not the empty text.
  pub get_channel_id-set_channel_room_mapping :
      (client : MatrixClient) (state : Option MatrixClient) (now : ℕ) (channel identifier : Text)
      (b : Bridge S) (read : Text)
      → (set_channel_room_mapping kv client now channel identifier b).1 ≡ true
      → kv.get
          (build_room_mapping_key (resolved client identifier))
          (set_channel_room_mapping kv client now channel identifier b).0.store
        ≡ some read
      → (channel == []) ≡ false
      → get_channel_id_from_matrix_room kv state
          (resolved client identifier)
          (set_channel_room_mapping kv client now channel identifier b).0.store
        ≡ channel
  unfolding get_channel_id_from_matrix_room
  get_channel_id-set_channel_room_mapping client state now channel identifier b read ok reads
        named =
      let is_channel =
        laws.contents-get (build_room_mapping_key (resolved client identifier)) read _ reads
        ∙ (set_channel_room_mapping_lem client now channel identifier channel b ok).1 in
      rw (reads, is_channel) (ground (arith, named))
