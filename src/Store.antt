-- ===== src/Store.antt =====
-- server/store/kvstore: the key-value store of the plugin and the keys that the program builds. The
-- store is the server's: its operations are parameters, and what the program relies on are laws.
pub mod Keys
pub mod Memory
mod Tests
use mattermost_plugin_matrix.Prelude.{
  ℕ, ◌≡◌, Bool, true, false, Option, none, some, List, [], ◌∷◌, ◌++◌, if◌then◌else◌, Text, ◌==◌,
  lit, not, has_prefix, take, drop, keep, ◌*◌,
}

-- `KVStore`, over the type of what the server stores. A read gives none for an error, and the empty
-- text for a key that is missing. A write gives none for an error.
pub record KvStore (S : Type 0) : Type 0 where
  pub get : Text → S → Option Text
  pub set : Text → Text → S → Option S
  pub delete : Text → S → Option S
  pub list_keys_with_prefix : ℕ → ℕ → Text → S → Option (List Text)

-- What is stored, and how the operations that succeed relate to it. Any of them may fail, at any
-- time; one that fails does not change what is stored.
pub record IsKvStore {S : Type 0} (kv : KvStore S) : Type 0 where
  pub contents : Text → S → Text
  pub contents-get : (k v : Text) (s : S) → kv.get k s ≡ some v → v ≡ contents k s
  pub contents-set :
      (k j v : Text) (s after : S)
      → kv.set k v s ≡ some after
      → contents j after ≡ (if k == j then v else contents j s)
  pub contents-delete :
      (k j : Text) (s after : S)
      → kv.delete k s ≡ some after
      → contents j after ≡ (if k == j then [] else contents j s)

-- A store of which every read and every write succeeds.
pub record IsReliable {S : Type 0} (kv : KvStore S) (contents : Text → S → Text) : Type 0 where
  pub reads : (k : Text) (s : S) → kv.get k s ≡ some (contents k s)
  pub writes : (k v : Text) (s : S) → (after : S) × (kv.set k v s ≡ some after)

-- The keys that the server lists for a prefix, in an order that writes and removals of other keys
-- do not disturb. A page that is read is the part of them that its number says.
pub record IsListed {S : Type 0} (kv : KvStore S) : Type 0 where
  pub keys : Text → S → List Text
  pub keys-list :
      (page per_page : ℕ) (prefix : Text) (s : S) (listed : List Text)
      → kv.list_keys_with_prefix page per_page prefix s ≡ some listed
      → listed ≡ take per_page (drop (page * per_page) (keys prefix s))
  pub keys-set :
      (prefix k v : Text) (s after : S)
      → kv.set k v s ≡ some after
      → has_prefix k prefix ≡ false
      → keys prefix after ≡ keys prefix s
  pub keys-delete :
      (prefix k : Text) (s after : S)
      → kv.delete k s ≡ some after
      → keys prefix after ≡ keep (λ j. not (k == j)) (keys prefix s)

-- The store after a write whose error is only logged.
abbrev pub or_same : {S : Type 0} → S → Option S → S
or_same s none = s
or_same s (some after) = after

-- The prefixes of the keys, `KeyPrefixMatrixUser` and so on.
abbrev pub key_prefix_matrix_user : Text
key_prefix_matrix_user = lit "matrix_user_"

abbrev pub key_prefix_mattermost_user : Text
key_prefix_mattermost_user = lit "mattermost_user_"

abbrev pub key_prefix_channel_mapping : Text
key_prefix_channel_mapping = lit "channel_mapping_"

abbrev pub key_prefix_room_mapping : Text
key_prefix_room_mapping = lit "room_mapping_"

abbrev pub key_prefix_ghost_user : Text
key_prefix_ghost_user = lit "ghost_user_"

abbrev pub key_prefix_ghost_room : Text
key_prefix_ghost_room = lit "ghost_room_"

abbrev pub key_prefix_matrix_event_post : Text
key_prefix_matrix_event_post = lit "matrix_event_post_"

abbrev pub key_prefix_matrix_reaction : Text
key_prefix_matrix_reaction = lit "matrix_reaction_"

abbrev pub key_store_version : Text
key_store_version = lit "kv_store_version"

abbrev pub key_prefix_legacy_dm_mapping : Text
key_prefix_legacy_dm_mapping = lit "dm_mapping_"

abbrev pub key_prefix_legacy_matrix_dm_mapping : Text
key_prefix_legacy_matrix_dm_mapping = lit "matrix_dm_mapping_"

abbrev pub key_prefix_team_mapping : Text
key_prefix_team_mapping = lit "team_mapping_"

-- `CurrentKVStoreVersion`
abbrev pub current_kv_store_version : ℕ
current_kv_store_version = 2

-- `BuildMatrixUserKey`
unfoldable pub build_matrix_user_key : Text → Text
build_matrix_user_key matrix_user_id = key_prefix_matrix_user ++ matrix_user_id

-- `BuildMattermostUserKey`
unfoldable pub build_mattermost_user_key : Text → Text
build_mattermost_user_key mattermost_user_id = key_prefix_mattermost_user ++ mattermost_user_id

-- `BuildChannelMappingKey`
unfoldable pub build_channel_mapping_key : Text → Text
build_channel_mapping_key channel_id = key_prefix_channel_mapping ++ channel_id

-- `BuildRoomMappingKey`
unfoldable pub build_room_mapping_key : Text → Text
build_room_mapping_key room_identifier = key_prefix_room_mapping ++ room_identifier

-- `BuildGhostUserKey`
unfoldable pub build_ghost_user_key : Text → Text
build_ghost_user_key mattermost_user_id = key_prefix_ghost_user ++ mattermost_user_id

-- `BuildGhostRoomKey`
unfoldable pub build_ghost_room_key : Text → Text → Text
build_ghost_room_key mattermost_user_id room_id =
    key_prefix_ghost_room ++ mattermost_user_id ++ lit "_" ++ room_id

-- `BuildMatrixEventPostKey`
unfoldable pub build_matrix_event_post_key : Text → Text
build_matrix_event_post_key matrix_event_id = key_prefix_matrix_event_post ++ matrix_event_id

-- `BuildMatrixReactionKey`
unfoldable pub build_matrix_reaction_key : Text → Text
build_matrix_reaction_key reaction_event_id = key_prefix_matrix_reaction ++ reaction_event_id

-- `BuildTeamMappingKey`
unfoldable pub build_team_mapping_key : Text → Text
build_team_mapping_key team_id = key_prefix_team_mapping ++ team_id

-- Every prefix, and the one key that has none.
abbrev pub key_prefixes : List Text
key_prefixes =
    key_prefix_matrix_user ∷ key_prefix_mattermost_user ∷ key_prefix_channel_mapping
    ∷ key_prefix_room_mapping ∷ key_prefix_ghost_user ∷ key_prefix_ghost_room
    ∷ key_prefix_matrix_event_post ∷ key_prefix_matrix_reaction ∷ key_store_version
    ∷ key_prefix_legacy_dm_mapping ∷ key_prefix_legacy_matrix_dm_mapping ∷ key_prefix_team_mapping
    ∷ []
