-- ===== src/Mapping.antt =====
-- server/bridge_utils.go, server/matrix_webhook.go and server/command/command.go: the mapping between
-- channels and rooms, in the key-value store and in the cache of `GetMatrixRoomID`. The Matrix server
-- is a parameter: what its directory answers for an alias, and the channel in the state of a room.
pub mod RoundTrip
pub mod Cached
pub mod Stale
mod Tests
use mattermost_plugin_matrix.Prelude.{
  ℕ, ◌≡◌, Bool, true, false, ◌&&◌, not, Option, none, some, List, [], ◌∷◌, if◌then◌else◌, Text,
  ◌==◌, lit, has_prefix,
}
use mattermost_plugin_matrix.Cache
use mattermost_plugin_matrix.Cache.{Cache}
use mattermost_plugin_matrix.Store.{
  KvStore, or_same, build_channel_mapping_key, build_room_mapping_key,
}

-- `Client` as far as mappings need it: if it is configured, and what the server answers.
pub record MatrixClient : Type 0 where
  pub configured : Bool
  pub directory : Text → Option Text
  pub channel_in_state : Text → Option Text
  pub removes_channel : Text → Bool

-- `BridgeUtils`: the store, and the cache of room mappings if there is one
pub record Bridge (S : Type 0) : Type 0 where
  pub store : S
  pub room_mapping_cache : Option Cache

-- `ResolveRoomAlias`
unfoldable pub resolve_room_alias : MatrixClient → Text → Option Text
resolve_room_alias client room_alias =
    if not client.configured
    then none
    else if has_prefix room_alias (lit "#")
    then client.directory room_alias
    else some room_alias

-- The room that a mapping is stored under: the resolved one, or the identifier if that fails.
unfoldable pub resolved : MatrixClient → Text → Text
unfolding resolve_room_alias
resolved client identifier = elim (resolve_room_alias client identifier) [
  | none ↦ identifier
  | some room ↦ room
]

-- `roomMappingCache.Set`, where there is a cache
unfoldable pub cache_room : ℕ → Text → Text → Option Cache → Option Cache
unfolding Cache.set
cache_room now key room none = none
cache_room now key room (some c) = some (Cache.set now c key room)

-- `roomMappingCache.Get`, where there is a cache
unfoldable pub look_up : ℕ → Text → Option Cache → Option Cache × Option Text
unfolding Cache.get
look_up now key none = (none, none)
look_up now key (some c) = (some (Cache.get now c key).0, (Cache.get now c key).1)

-- The replies of `executeUnmapCommand`.
pub data UnmapReply : Type 0 where
  no_mapping no_client state_not_cleared not_removed removed : UnmapReply

module _ {S : Type 0} (kv : KvStore S) where
  -- `GetMatrixRoomID`
  unfoldable pub get_matrix_room_id : ℕ → Text → Bridge S → Bridge S × Text
  get_matrix_room_id now channel b =
      let key = build_channel_mapping_key channel in
      let (cache, found) = look_up now key b.room_mapping_cache in
      elim found [
        | some room ↦ (record b { room_mapping_cache = cache }, room)
        | none ↦ elim (kv.get key b.store) [
          | none ↦ (record b { room_mapping_cache = cache }, [])
          | some room ↦ (record b { room_mapping_cache = cache_room now key room cache }, room)
        ]
      ]

  -- the end of `setChannelRoomMapping`: the reverse mapping of an alias, whose error is only logged
  unfoldable pub set_alias : Text → Text → Text → S → S
  set_alias channel identifier room s =
      if has_prefix identifier (lit "#") && not (room == identifier)
      then or_same s (kv.set (build_room_mapping_key identifier) channel s)
      else s

  -- `setChannelRoomMapping`; the result tells if it returned without an error
  unfoldable pub set_channel_room_mapping :
      MatrixClient → ℕ → Text → Text → Bridge S → Bridge S × Bool
  set_channel_room_mapping client now channel identifier b =
      let room = resolved client identifier in
      let key = build_channel_mapping_key channel in
      let cache = cache_room now key room b.room_mapping_cache in
      elim (kv.set key room b.store) [
        | none ↦ (b, false)
        | some forward ↦ elim (kv.set (build_room_mapping_key room) channel forward) [
          | none ↦ (record { store = forward; room_mapping_cache = cache }, false)
          | some both ↦ (
            record { store = set_alias channel identifier room both; room_mapping_cache = cache },
            true,
          )
        ]
      ]

  -- `getChannelIDFromMatrixRoom`, which never returns an error: the empty text is no mapping
  unfoldable pub get_channel_id_from_matrix_room : Option MatrixClient → Text → S → Text
  get_channel_id_from_matrix_room client room s =
      let in_store : Text = elim (kv.get (build_room_mapping_key room) s) [
        | none ↦ []
        | some channel ↦ channel
      ] in
      if in_store == []
      then elim client [
        | none ↦ []
        | some c ↦ elim (c.channel_in_state room) [ none ↦ [] | some channel ↦ channel ]
      ]
      else in_store

  -- `executeUnmapCommand` of the commands, which have the store but not the cache
  unfoldable pub execute_unmap_command : Option MatrixClient → Text → S → S × UnmapReply
  execute_unmap_command client channel s = elim (kv.get (build_channel_mapping_key channel) s) [
    | none ↦ (s, no_mapping)
    | some room ↦ elim client [
      | none ↦ (s, no_client)
      | some c ↦
          if not (c.removes_channel room)
          then (s, state_not_cleared)
          else elim (kv.delete (build_channel_mapping_key channel) s) [
            | none ↦ (s, not_removed)
            | some after ↦ (or_same after (kv.delete (build_room_mapping_key room) after), removed)
          ]
    ]
  ]
