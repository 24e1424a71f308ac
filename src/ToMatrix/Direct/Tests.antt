-- ===== src/ToMatrix/Direct/Tests.antt =====
-- A direct channel at fixed values (server/sync_to_matrix.go), with two users from Matrix.
use mattermost_plugin_matrix.Prelude.{
  ◌≡◌, refl, inl, none, some, List, [], ◌∷◌, Text, ◌==◌, lit, has_prefix, if◌then◌else◌,
}
use mattermost_plugin_matrix.Prelude.Dict
use mattermost_plugin_matrix.Prelude.Int.{ℤ}
use mattermost_plugin_matrix.Cache
use mattermost_plugin_matrix.Cache.{
  new_cache, expired, remove_element, unlink, move_to_front, make_room, push_front, refresh, write,
}
use mattermost_plugin_matrix.Cache.Invariant.{new_cache-IsValid}
use mattermost_plugin_matrix.Store.{
  build_channel_mapping_key, build_room_mapping_key, build_mattermost_user_key,
}
use mattermost_plugin_matrix.Store.Memory.{value_of}
use mattermost_plugin_matrix.Mapping.{
  look_up, cache_room, resolved, resolve_room_alias, get_matrix_room_id, set_alias,
  set_channel_room_mapping,
}
use mattermost_plugin_matrix.Mattermost.InMemory.{Server, server, server_kv, server_kv-IsKvStore}
use mattermost_plugin_matrix.ToMattermost.Sample
use mattermost_plugin_matrix.ToMattermost.Sample.{server_kv-IsReliable}
use mattermost_plugin_matrix.ToMatrix.{MatrixBridge}
use mattermost_plugin_matrix.ToMatrix.Users.{with_store, get_matrix_user_id_from_mattermost_user}
use mattermost_plugin_matrix.ToMatrix.Reactions.{is_remote}
use mattermost_plugin_matrix.ToMatrix.Sample.{matrix, settings, start, author}
use mattermost_plugin_matrix.ToMatrix.Direct.{
  dm_user, dm_users, dm_name, create_dm_room, get_or_create_dm_room,
}
use mattermost_plugin_matrix.ToMatrix.Direct.Again.{get_or_create_dm_room_again}

-- The user has a second account.
abbrev pair : MatrixBridge Server
pair =
    with_store
      (record start.bridge.store {
        stored =
            (lit "mattermost_user_u", lit "@a:hs") ∷ (lit "mattermost_user_v", lit "@b:hs") ∷ [];
        users = λ id.
            if id == lit "u"
            then some author
            else if id == lit "v"
            then some (record author { id = lit "v" })
            else none;
      })
      (record start {
        bridge = record start.bridge { room_mapping_cache = some (new_cache (ℤ.pos 2) 10) };
      })

abbrev users : List Text
users = lit "u" ∷ lit "v" ∷ []

abbrev made : MatrixBridge Server
made =
    (get_or_create_dm_room server_kv server matrix Sample.rooms settings 0 (lit "d") users (lit "u")
      pair).0

get_or_create_dm_room_again_example :
    ((get_or_create_dm_room server_kv server matrix Sample.rooms settings 1
        (lit "d")
        []
        (lit "v")
        made).1
      ≡ some (lit "!dm"))
    × ((get_or_create_dm_room server_kv server matrix Sample.rooms settings 1
          (lit "d")
          []
          (lit "v")
          made).0.bridge.store
        ≡ made.bridge.store)
unfolding ◌==◌ has_prefix Dict.get Dict.put build_channel_mapping_key build_room_mapping_key
    build_mattermost_user_key value_of look_up cache_room resolved resolve_room_alias
    get_matrix_room_id set_alias set_channel_room_mapping get_matrix_user_id_from_mattermost_user
    is_remote dm_user dm_users dm_name create_dm_room get_or_create_dm_room new_cache Cache.get
    Cache.set expired remove_element unlink move_to_front make_room push_front refresh write
get_or_create_dm_room_again_example =
    get_or_create_dm_room_again server_kv server_kv-IsKvStore server matrix server_kv-IsReliable
      Sample.rooms settings 0 1 (lit "d") users [] (lit "u") (lit "v") (lit "!dm") pair
      (new_cache-IsValid (ℤ.pos 2) 10, refl) (λ t. inl refl) refl refl refl
