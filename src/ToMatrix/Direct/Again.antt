-- ===== src/ToMatrix/Direct/Again.antt =====
-- A direct channel keeps the room that was made for it (server/sync_to_matrix.go).
use mattermost_plugin_matrix.Prelude.{
  ℕ, ◌≡◌, refl, sym, subst, ◌∙◌, ap, true, false, ltb, Option, some, Option-cases, Bool-cases, inl,
  inr, List, [], length, Text, ◌==◌, eq_refl, lit, has_prefix, arith,
}
use mattermost_plugin_matrix.Event.{or_empty}
use mattermost_plugin_matrix.Store.{
  KvStore, IsKvStore, IsReliable, build_channel_mapping_key, build_room_mapping_key,
}
use mattermost_plugin_matrix.Mapping.{
  MatrixClient, Bridge, cache_room, resolved, resolve_room_alias, get_matrix_room_id,
  set_channel_room_mapping,
}
use mattermost_plugin_matrix.Mapping.RoundTrip.{
  IsReady, success, look_up-cache_room, set_channel_room_mapping_lem,
}
use mattermost_plugin_matrix.Mapping.Cached.{
  Agrees, IsCached, cache_room-IsReady, get_matrix_room_id-IsCached,
}
use mattermost_plugin_matrix.Mattermost.{MattermostServer}
use mattermost_plugin_matrix.ToMattermost.Lookups.{get_matrix_room_id-store}
use mattermost_plugin_matrix.ToMatrix.{MatrixServer, MatrixBridge, MatrixSettings}
use mattermost_plugin_matrix.ToMatrix.Direct.{
  dm_users, dm_name, create_dm_room, get_or_create_dm_room,
}
use mattermost_plugin_matrix.ToMatrix.Direct.Rooms.{rooms_of, dm_users-rooms_of}

module _ {S : Type 0} (kv : KvStore S) (stored : IsKvStore kv) (mm : MattermostServer S)
    (mx : MatrixServer S) (reliable : IsReliable kv stored.contents) (rooms : MatrixClient)
    (settings : MatrixSettings) where
  abbrev entry_of : Text → S → Text
  entry_of channel s = stored.contents (build_channel_mapping_key channel) s

  set_channel_room_mapping_ok :
      (now : ℕ) (channel identifier : Text) (b : Bridge S)
      → (set_channel_room_mapping kv rooms now channel identifier b).1 ≡ true
  unfolding set_channel_room_mapping
  set_channel_room_mapping_ok now channel identifier b =
      let room = resolved rooms identifier in
      let (forward, e) = reliable.writes (build_channel_mapping_key channel) room b.store in
      let (both, f) = reliable.writes (build_room_mapping_key room) channel forward in
      rw (e, set_channel_room_mapping) (rw (f, set_channel_room_mapping) refl)

  resolved_id : (id : Text) → has_prefix id (lit "#") ≡ false → resolved rooms id ≡ id
  unfolding resolved resolve_room_alias has_prefix
  resolved_id id plain = elim (Bool-cases rooms.configured) [
    | inl e ↦ rw e (rw plain refl)
    | inr e ↦ rw e refl
  ]

  -- What is stored by `setChannelRoomMapping` is in the store, and in the cache or not.
  set_channel_room_mapping-IsCached :
      (now : ℕ) (channel id : Text) (b : Bridge S)
      → IsReady b.room_mapping_cache
      → has_prefix id (lit "#") ≡ false
      → IsCached kv stored reliable channel id
          (set_channel_room_mapping kv rooms now channel id b).0
  set_channel_room_mapping-IsCached now channel id b ready plain =
      let key = build_channel_mapping_key channel in
      let ok = set_channel_room_mapping_ok now channel id b in
      let (forward, both, e, f, all) = success kv stored rooms now channel id b ok in
      let same = resolved_id id plain in
      let entry =
        (set_channel_room_mapping_lem kv stored rooms now channel id channel b ok).0
        ∙ rw (eq_refl channel) same in
      let cache : (set_channel_room_mapping kv rooms now channel id b).0.room_mapping_cache
          ≡ cache_room now key id b.room_mapping_cache =
        ap (λ x. x.room_mapping_cache) all
        ∙ ap (λ room. cache_room now key room b.room_mapping_cache) same in
      record {
        ready =
            subst IsReady (sym cache) (cache_room-IsReady now key id b.room_mapping_cache ready);
        agrees =
            subst (Agrees key id) (sym cache)
              (λ t. look_up-cache_room kv stored now t key id b.room_mapping_cache ready);
        entry = entry;
      }

  create_dm_room-IsCached :
      (now : ℕ) (channel : Text) (users : List Text) (user id : Text) (b : MatrixBridge S)
      → IsReady (rooms_of b)
      → has_prefix id (lit "#") ≡ false
      → (create_dm_room kv mm mx rooms settings now channel users user b).1 ≡ some id
      → IsCached kv stored reliable channel id
          (create_dm_room kv mm mx rooms settings now channel users user b).0.bridge
  unfolding create_dm_room
  create_dm_room-IsCached now channel users user id b ready plain =
      elim (Bool-cases (ltb (length users) 2)) [
        | inl e ↦ rw e (λ h. absurd (ground arith))
        | inr e ↦
            rw e
              (elim (Option-cases (
                mx.create_direct_room users (dm_name kv mm mx rooms settings user b.bridge.store)
                  b.bridge.store)) [
                    | inl f ↦ rw (f, create_dm_room) (λ h. absurd (ground arith))
                    | inr ((created, made), f) ↦
                        rw (f, create_dm_room)
                          (λ h.
                            let same : made ≡ id = ground arith in
                            let bridge : Bridge S = record b.bridge { store = created } in
                            rw same
                              (set_channel_room_mapping-IsCached now channel id bridge ready plain))
                  ])
      ]

  -- What a room that was returned leaves behind.
  abbrev Kept : Text → Text → MatrixBridge S × Option Text → Type 0
  Kept channel id result =
      result.1 ≡ some id → IsCached kv stored reliable channel id result.0.bridge

  get_or_create_dm_room_existing :
      (now : ℕ) (channel : Text) (users : List Text) (user id : Text) (b : MatrixBridge S)
      → IsCached kv stored reliable channel id b.bridge
      → (id == []) ≡ false
      → get_or_create_dm_room kv mm mx rooms settings now channel users user b
        ≡ (record b { bridge = (get_matrix_room_id kv now channel b.bridge).0 }, some id)
  unfolding get_or_create_dm_room
  get_or_create_dm_room_existing now channel users user id b known named =
      let found =
        (get_matrix_room_id-IsCached kv stored reliable now channel id b.bridge known).0 in
      rw (found, get_or_create_dm_room) (rw named refl)

  get_or_create_dm_room-IsCached :
      (now : ℕ) (channel : Text) (users : List Text) (user entry id : Text) (b : MatrixBridge S)
      → IsCached kv stored reliable channel entry b.bridge
      → has_prefix id (lit "#") ≡ false
      → Kept channel id (get_or_create_dm_room kv mm mx rooms settings now channel users user b)
  unfolding get_or_create_dm_room
  get_or_create_dm_room-IsCached now channel users user entry id b known plain =
      let (found, still) =
        get_matrix_room_id-IsCached kv stored reliable now channel entry b.bridge known in
      let looked : MatrixBridge S = record b {
        bridge = (get_matrix_room_id kv now channel b.bridge).0;
      } in
      let asked = dm_users kv mm mx rooms settings now users looked in
      rw found (elim (Bool-cases (entry == [])) [
        | inr e ↦ rw e (λ h.
            let same : entry ≡ id = ap or_empty h in
            subst (λ x. IsCached kv stored reliable channel x looked.bridge) same still)
        | inl e ↦ rw e (
            create_dm_room-IsCached now channel asked.1 user id asked.0
              (subst IsReady (sym (dm_users-rooms_of kv mm mx rooms settings now users looked))
                still.ready)
              plain)
      ])

  -- If the store does not fail, and the cache of rooms, if there is one, has room for entries and gives
  -- nothing for the channel but what the store has, as a new cache does, then a direct channel for which
  -- a room was returned, by an identifier that is not empty and no alias, gets the same room on the next
  -- call, at any time and for any users, whether the cache still has it or not, and that call does not
  -- change the store.
  pub get_or_create_dm_room_again :
      (now later : ℕ) (channel : Text) (users others : List Text) (user other id : Text)
      (b : MatrixBridge S)
      → IsReady (rooms_of b)
      → Agrees
          (build_channel_mapping_key channel)
          (stored.contents (build_channel_mapping_key channel) b.bridge.store)
          (rooms_of b)
      → has_prefix id (lit "#") ≡ false
      → (id == []) ≡ false
      → (get_or_create_dm_room kv mm mx rooms settings now channel users user b).1 ≡ some id
      → ((get_or_create_dm_room kv mm mx rooms settings later channel others other
            (get_or_create_dm_room kv mm mx rooms settings now channel users user b).0).1
          ≡ some id)
        × ((get_or_create_dm_room kv mm mx rooms settings later channel others other
              (get_or_create_dm_room kv mm mx rooms settings now channel users user
                b).0).0.bridge.store
            ≡ (get_or_create_dm_room kv mm mx rooms settings now channel users user
                b).0.bridge.store)
  get_or_create_dm_room_again now later channel users others user other id b ready agrees plain
        named got =
      let after = (get_or_create_dm_room kv mm mx rooms settings now channel users user b).0 in
      let known =
        get_or_create_dm_room-IsCached now channel users user (entry_of channel b.bridge.store) id b
          (record { ready = ready; agrees = agrees; entry = refl }) plain got in
      let again = get_or_create_dm_room_existing later channel others other id after known named in
      (
        ap (λ x. x.1) again,
        ap (λ x. x.0.bridge.store) again ∙ get_matrix_room_id-store kv later channel after.bridge,
      )
