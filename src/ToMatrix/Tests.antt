-- ===== src/ToMatrix/Tests.antt =====
-- Runs of server/sync_to_matrix.go at fixed inputs, and its theorems on users, reactions and deleted posts
-- applied to them.
use mattermost_plugin_matrix.Prelude.{
  ◌≡◌, refl, ◌⊎◌, inl, true, some, Any, ◌∷◌, suc, Text, ◌==◌, lit, has_prefix,
}
use mattermost_plugin_matrix.Prelude.Dict
use mattermost_plugin_matrix.Prelude.Int.{ℤ}
use mattermost_plugin_matrix.Cache
use mattermost_plugin_matrix.Cache.{
  new_cache, expired, remove_element, unlink, move_to_front, make_room, push_front, refresh, write,
}
use mattermost_plugin_matrix.Cache.Invariant.{new_cache-IsValid}
use mattermost_plugin_matrix.Event.{find, text_at, object_at}
use mattermost_plugin_matrix.Store.{build_ghost_user_key, build_channel_mapping_key}
use mattermost_plugin_matrix.Store.Memory.{value_of}
use mattermost_plugin_matrix.Mapping.{look_up, cache_room, get_matrix_room_id, resolve_room_alias}
use mattermost_plugin_matrix.Mattermost.InMemory.{
  Server, server, server_kv, server_kv-IsKvStore, server_contents,
}
use mattermost_plugin_matrix.ToMattermost.{extract_server_domain}
use mattermost_plugin_matrix.ToMattermost.Sample
use mattermost_plugin_matrix.ToMattermost.Sample.{server_kv-IsReliable}
use mattermost_plugin_matrix.ToMatrix.{MatrixBridge, MatrixSettings, event_id_of, room_of}
use mattermost_plugin_matrix.ToMatrix.Sample.{relations, matrix, settings, start, author, post}
use mattermost_plugin_matrix.ToMatrix.Users.{
  with_store, get_ghost_user, keep_ghost_user, create_ghost, create_or_get_ghost_user,
  mirror_user_id, mirror_user_key, register_mirror_user, get_matrix_user_id,
}
use mattermost_plugin_matrix.ToMatrix.Users.Again.{create_or_get_ghost_user_again}
use mattermost_plugin_matrix.ToMatrix.Posts.{
  is_file_of, file_event_ids, redact_all, delete_all_file_replies, redact_post, delete_in_room,
  delete_post_from_matrix,
}
use mattermost_plugin_matrix.ToMatrix.Posts.Mirrored.{
  LeavesStore, delete_post_from_matrix-get_matrix_user_id,
}
use mattermost_plugin_matrix.ToMatrix.Reactions.{is_reaction_of, find_reaction, redact_reaction}
use mattermost_plugin_matrix.ToMatrix.Reactions.Own.{IsOwn, redact_reaction-IsOwn}

program : Unit {0}
unfolding Dict.get Dict.put Dict.remove ◌==◌ has_prefix find text_at object_at build_ghost_user_key
    value_of look_up cache_room get_ghost_user keep_ghost_user create_ghost create_or_get_ghost_user
    is_reaction_of find_reaction redact_reaction new_cache Cache.get Cache.set expired
    remove_element unlink move_to_front make_room push_front refresh write
program = tt

-- With a cache of ghost users that is new.
abbrev activated : MatrixBridge Server
activated = record start { ghost_user_cache = some (new_cache (ℤ.pos 2) 10) }

abbrev created : MatrixBridge Server
created = (create_or_get_ghost_user server_kv server matrix settings 0 (lit "u") activated).0

-- one request for both calls
once :
    (create_or_get_ghost_user server_kv server matrix settings 1
      (lit "u")
      created).0.bridge.store.count
    ≡ 1
unfolding program
once = refl

create_or_get_ghost_user_again_example :
    (create_or_get_ghost_user server_kv server matrix settings 1 (lit "u") created).1
    ≡ some (lit "@_mattermost_u")
unfolding program
create_or_get_ghost_user_again_example =
    create_or_get_ghost_user_again server_kv server_kv-IsKvStore server matrix server_kv-IsReliable
      settings 0 1 (lit "u") (lit "@_mattermost_u") activated (new_cache-IsValid (ℤ.pos 2) 10, refl)
      (λ t. inl refl) refl refl

abbrev taken_back : MatrixBridge Server
taken_back =
    (redact_reaction server_kv server matrix Sample.rooms settings (λ name. name) (lit "@b:hs")
      (lit "!r") (lit "+") relations start).0

-- the second one
second : find_reaction (lit "@b:hs") (lit "+") relations ≡ some (lit "$2")
unfolding program
second = refl

redact_reaction-IsOwn_example :
    (taken_back ≡ start)
    ⊎ ((id : Text) × Any (IsOwn (lit "@b:hs") (lit "+") id) relations
        × (matrix.redact (lit "!r") id (lit "@b:hs") start.bridge.store
            ≡ some taken_back.bridge.store))
redact_reaction-IsOwn_example =
    redact_reaction-IsOwn server_kv server matrix Sample.rooms settings (λ name. name) (lit "@b:hs")
      (lit "!r") (lit "+") relations start

abbrev mirroring : MatrixSettings
mirroring = record settings { enable_mirror_mode = true }

-- The channel is mapped to a room.
abbrev mapped : MatrixBridge Server
mapped =
    with_store
      (record start.bridge.store {
        stored = (lit "channel_mapping_c", lit "!r") ∷ start.bridge.store.stored;
      })
      activated

posts_program : Unit {0}
unfolding program event_id_of extract_server_domain get_matrix_user_id register_mirror_user
    mirror_user_id mirror_user_key room_of get_matrix_room_id resolve_room_alias
    build_channel_mapping_key delete_post_from_matrix delete_in_room redact_post
    delete_all_file_replies redact_all file_event_ids is_file_of
posts_program = tt

abbrev found : MatrixSettings → MatrixBridge Server
found mode = (get_matrix_user_id server_kv server matrix mode 0 (lit "u") mapped).0

abbrev deleted : MatrixSettings → MatrixBridge Server
deleted mode =
    (delete_post_from_matrix server_kv server matrix Sample.rooms mode 1 post (lit "c")
      (found mode)).0

-- with ghost users, a request is made
redacted : (deleted settings).bridge.store.count ≡ suc (found settings).bridge.store.count
unfolding posts_program
redacted = refl

matrix-LeavesStore : LeavesStore matrix server_contents
matrix-LeavesStore = record { registers = λ n p k s. refl; names = λ u n k s. refl }

delete_post_from_matrix-get_matrix_user_id_example :
    (deleted mirroring).bridge.store ≡ (found mirroring).bridge.store
unfolding posts_program
delete_post_from_matrix-get_matrix_user_id_example =
    delete_post_from_matrix-get_matrix_user_id server_kv server_kv-IsKvStore server matrix
      matrix-LeavesStore Sample.rooms mirroring 0 1 post author (lit "c") mapped refl refl refl refl
