-- ===== src/Migrations/Tests.antt =====
-- The migrations run on a store in memory, and their theorems at such runs.
use mattermost_plugin_matrix.Prelude.{
  ◌*◌, ◌≡◌, refl, true, Option, none, some, List, [], ◌∷◌, drop, Text, ◌==◌, lit, arith, has_prefix,
  trim_prefix,
}
use mattermost_plugin_matrix.Prelude.Dict
use mattermost_plugin_matrix.Prelude.Dict.{Dict}
use mattermost_plugin_matrix.Store.{
  build_channel_mapping_key, build_room_mapping_key, build_mattermost_user_key,
  build_matrix_user_key, key_prefix_matrix_user, key_prefix_legacy_dm_mapping, key_store_version,
}
use mattermost_plugin_matrix.Store.Memory.{
  memory, value_of, keys_of, memory-IsListed, memory-IsKvStore,
}
use mattermost_plugin_matrix.Migrations.{
  Progress, Ended, MigrationResult, no_results, each, migrate_pages, migrate_user_mapping,
  migrate_channel_mapping, migrate_dm_mapping, migrate_matrix_dm_mapping, finish_dm_mapping,
  remove_old, write, write_also,
}
use mattermost_plugin_matrix.Migrations.Versions.{
  run_kv_store_migrations, run_migration_to_version1, run_migration_to_version2, and_then, mark,
  version_of, atoi, is_below,
}
use mattermost_plugin_matrix.Migrations.Pages.{is_some, migrate_pages_ends}
use mattermost_plugin_matrix.Migrations.Sweep.{migrate_pages-each}
use mattermost_plugin_matrix.Migrations.Keeps.{migrate_user_mapping_keeps}
use mattermost_plugin_matrix.Migrations.Again.{run_kv_store_migrations_again}
use mattermost_plugin_matrix.Migrations.Users.{migrate_user_mappings_lem}
use mattermost_plugin_matrix.Migrations.Skips.{IsReliable, left, migrate_dm_mapping-skips}

program : Unit {0}
unfolding build_matrix_user_key Dict.get Dict.put Dict.remove ◌==◌ has_prefix trim_prefix value_of
    keys_of build_channel_mapping_key build_room_mapping_key build_mattermost_user_key each
    migrate_pages migrate_user_mapping migrate_channel_mapping migrate_dm_mapping
    migrate_matrix_dm_mapping finish_dm_mapping remove_old write write_also run_kv_store_migrations
    run_migration_to_version1 run_migration_to_version2 and_then mark version_of atoi is_below left
program = tt

abbrev users : Dict Text
users = (lit "matrix_user_@a:hs", lit "u1") ∷ (lit "matrix_user_@b:hs", lit "u2") ∷ []

abbrev start : Dict Text → Progress (Dict Text)
start s = record { store = s; migrated = 0; also = 0 }

abbrev two_dms : Dict Text
two_dms = (lit "dm_mapping_c1", lit "!r1") ∷ (lit "dm_mapping_c2", lit "!r2") ∷ []

abbrev store_after : Option (Dict Text) → Dict Text
store_after none = []
store_after (some s) = s

memory-IsReliable : IsReliable memory
memory-IsReliable = record {
  gets = λ key s. (value_of key s, refl);
  sets = λ key value s. (Dict.put key value s, refl);
  deletes = λ key s. (Dict.remove key s, refl);
  lists = λ page per_page prefix s. (_, refl);
}

-- with pages of one key: the second direct channel is not migrated, and the version says that all are
leaves_one :
    elim (run_kv_store_migrations memory (λ room_alias. none) 1 4 two_dms) as (λ o. List Text) [
      | none ↦ []
      | some done ↦
          value_of key_store_version done.store
          ∷ value_of (lit "channel_mapping_c1") done.store
          ∷ value_of (lit "channel_mapping_c2") done.store
          ∷ value_of (lit "dm_mapping_c2") done.store
          ∷ []
    ]
    ≡ lit "2" ∷ lit "!r1" ∷ [] ∷ lit "!r2" ∷ []
unfolding program
leaves_one = refl

migrate_pages_ends_example :
    is_some (
      migrate_pages memory (migrate_user_mapping memory) 1 key_prefix_matrix_user 4 0 (start users))
    ≡ true
unfolding program
migrate_pages_ends_example =
    migrate_pages_ends memory (migrate_user_mapping memory) memory-IsListed 1 key_prefix_matrix_user
      (λ key p. rw (migrate_user_mapping_keeps memory memory-IsListed key p) (omega arith)) 3 0
      (start users) (omega arith)

migrate_pages-each_example :
    migrate_pages memory (migrate_user_mapping memory) 1 key_prefix_matrix_user 4 0 (start users)
    ≡ some (record {
      store =
          (each memory
            (migrate_user_mapping memory)
            (drop (0 * 1) (keys_of key_prefix_matrix_user users))
            (start users)).store;
      result = some (
          each memory
            (migrate_user_mapping memory)
            (drop (0 * 1) (keys_of key_prefix_matrix_user users))
            (start users));
    })
unfolding program
migrate_pages-each_example =
    migrate_pages-each memory (migrate_user_mapping memory) memory-IsListed 1 key_prefix_matrix_user
      (migrate_user_mapping_keeps memory memory-IsListed) (λ page s. refl) (omega arith) 3 0
      (start users) (omega arith)

migrate_dm_mapping-skips_example :
    left memory memory-IsListed key_prefix_legacy_dm_mapping (
      migrate_pages memory
        (migrate_dm_mapping memory)
        1
        key_prefix_legacy_dm_mapping
        2
        0
        (start two_dms))
    ≡ some (drop 1 (keys_of key_prefix_legacy_dm_mapping two_dms))
unfolding program
migrate_dm_mapping-skips_example =
    migrate_dm_mapping-skips memory memory-IsListed memory-IsReliable 1 0 (start two_dms)
      (refl, (refl, tt)) (omega arith)

migrate_user_mappings_lem_example :
    (done : Progress (Dict Text)) × (migrate_pages memory
        (migrate_user_mapping memory)
        1
        key_prefix_matrix_user
        3
        0
        (start users)
      ≡ some (record { store = done.store; result = some done }))
    × (value_of
          (build_mattermost_user_key (value_of (build_matrix_user_key (lit "@a:hs")) users))
          done.store
        ≡ lit "@a:hs")
unfolding program
migrate_user_mappings_lem_example =
    migrate_user_mappings_lem memory memory-IsKvStore memory-IsReliable memory-IsListed 1 2 []
      (lit "@b:hs" ∷ []) (lit "@a:hs") (start users) (omega arith) refl (omega arith) (tt, tt)

-- The store and the result of a migration of the users.
abbrev store_of : Option (Ended (Dict Text) MigrationResult) → Dict Text
store_of none = []
store_of (some done) = done.store

abbrev two_users : MigrationResult
two_users = record no_results { user_mappings_created = 2 }

run_kv_store_migrations_again_example :
    run_kv_store_migrations memory
      (λ room_alias. none)
      10
      2
      (store_of (run_kv_store_migrations memory (λ room_alias. none) 10 2 users))
    ≡ some (record {
      store = store_of (run_kv_store_migrations memory (λ room_alias. none) 10 2 users);
      result = some no_results;
    })
unfolding program
run_kv_store_migrations_again_example =
    run_kv_store_migrations_again memory memory-IsKvStore (λ room_alias. none) 10 2 users
      (store_of (run_kv_store_migrations memory (λ room_alias. none) 10 2 users)) two_users
      (lit "2") refl refl
