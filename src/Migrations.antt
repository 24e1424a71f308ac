-- ===== src/Migrations.antt =====
-- server/migrations.go: the migrations of the key-value store. The four loops over the pages of a
-- prefix are one function with the step for a key as an argument; it recurses on fuel, of which a
-- page takes one. Logging is left out.
pub mod Versions
pub mod Pages
pub mod Sweep
pub mod Keeps
pub mod Skips
pub mod Users
pub mod Again
mod Tests
use mattermost_plugin_matrix.Prelude.{
  ℕ, zero, suc, ◌+◌, ◌-◌, ◌*◌, ◌^◌, ◌≡◌, Bool, true, false, ◌&&◌, ◌||◌, not, Option, none, some,
  List, [], ◌∷◌, length, ltb, leb, eqb, if◌then◌else◌, Text, ◌==◌, lit, has_prefix, trim_prefix,
}
use mattermost_plugin_matrix.Prelude.Int.{ℤ}
use mattermost_plugin_matrix.Store.{
  KvStore, or_same, key_prefix_matrix_user, key_prefix_channel_mapping,
  key_prefix_legacy_dm_mapping, key_prefix_legacy_matrix_dm_mapping, key_store_version,
  current_kv_store_version, build_mattermost_user_key, build_room_mapping_key,
  build_channel_mapping_key,
}

-- `MigrationResult`
pub record MigrationResult : Type 0 where
  pub user_mappings_created : ℕ
  pub channel_mappings_created : ℕ
  pub room_mappings_created : ℕ
  pub dm_mappings_created : ℕ
  pub reverse_dm_mappings_created : ℕ

-- `MigrationBatchSize`
abbrev pub migration_batch_size : ℕ
migration_batch_size = 1000

abbrev pub no_results : MigrationResult
no_results = record {
  user_mappings_created = 0;
  channel_mappings_created = 0;
  room_mappings_created = 0;
  dm_mappings_created = 0;
  reverse_dm_mappings_created = 0;
}

-- The store, and the two counts that a loop keeps.
pub record Progress (S : Type 0) : Type 0 where
  pub store : S
  pub migrated : ℕ
  pub also : ℕ

-- What a migration ends with: the store, and its result or none for an error.
pub record Ended (S C : Type 0) : Type 0 where
  pub store : S
  pub result : Option C

-- `err == nil && bytes.Equal(data, text)`, and `err == nil && len(data) > 0`
abbrev pub reads : Option Text → Text → Bool
reads none text = false
reads (some bytes) text = bytes == text

abbrev pub has_data : Option Text → Bool
has_data none = false
has_data (some bytes) = not (bytes == [])

module _ {S : Type 0} (kv : KvStore S) where
  -- a write that counts in the first, or in the second, of the two counts if it succeeds
  unfoldable pub write : Text → Text → Progress S → Progress S
  write key value p = elim (kv.set key value p.store) [
    | none ↦ p
    | some after ↦ record { store = after; migrated = p.migrated + 1; also = p.also }
  ]

  unfoldable pub write_also : Text → Text → Progress S → Progress S
  write_also key value p = elim (kv.set key value p.store) [
    | none ↦ p
    | some after ↦ record { store = after; migrated = p.migrated; also = p.also + 1 }
  ]

  unfoldable pub remove_old : Text → Progress S → Progress S
  remove_old key p = record p { store = or_same p.store (kv.delete key p.store) }

  -- the body of the loop of `migrateUserMappingsWithResults`
  unfoldable pub migrate_user_mapping : Text → Progress S → Progress S
  migrate_user_mapping key p = elim (kv.get key p.store) [
    | none ↦ p
    | some mattermost_user_id ↦
        let matrix_user_id = trim_prefix key key_prefix_matrix_user in
        let reverse_key = build_mattermost_user_key mattermost_user_id in
        if reads (kv.get reverse_key p.store) matrix_user_id
        then p
        else write reverse_key matrix_user_id p
  ]

  -- the body of the loop of `migrateChannelMappingsWithResults`; `resolve` is `ResolveRoomAlias` of
  -- the Matrix client, none if there is no client or it fails
  unfoldable pub migrate_channel_mapping : (Text → Option Text) → Text → Progress S → Progress S
  migrate_channel_mapping resolve key p = elim (kv.get key p.store) [
    | none ↦ p
    | some room_identifier ↦
        let channel_id = trim_prefix key key_prefix_channel_mapping in
        let reverse_key = build_room_mapping_key room_identifier in
        let reversed =
          (if reads (kv.get reverse_key p.store) channel_id
            then p
            else write reverse_key channel_id p) in
        if has_prefix room_identifier (lit "#")
        then elim (resolve room_identifier) [
          | none ↦ reversed
          | some room_id ↦ write_also (build_room_mapping_key room_id) channel_id reversed
        ]
        else reversed
  ]

  -- the end of the first loop of `migrateDMMappingsWithResults`: the reverse mapping if there is
  -- none, then the removal
  unfoldable pub finish_dm_mapping : Text → Text → Text → Progress S → Progress S
  finish_dm_mapping key channel_id room_id p =
      let reverse_key = build_room_mapping_key room_id in
      remove_old key
        (if has_data (kv.get reverse_key p.store) then p else write_also reverse_key channel_id p)

  -- the body of the first loop of `migrateDMMappingsWithResults`
  unfoldable pub migrate_dm_mapping : Text → Progress S → Progress S
  migrate_dm_mapping key p = elim (kv.get key p.store) [
    | none ↦ p
    | some room_id ↦
        let channel_id = trim_prefix key key_prefix_legacy_dm_mapping in
        let unified_key = build_channel_mapping_key channel_id in
        if has_data (kv.get unified_key p.store)
        then finish_dm_mapping key channel_id room_id p
        else elim (kv.set unified_key room_id p.store) [
          | none ↦ p
          | some after ↦
              finish_dm_mapping key channel_id room_id
                (record { store = after; migrated = p.migrated + 1; also = p.also })
        ]
  ]

  -- the body of the second loop of `migrateDMMappingsWithResults`
  unfoldable pub migrate_matrix_dm_mapping : Text → Progress S → Progress S
  migrate_matrix_dm_mapping key p = elim (kv.get key p.store) [
    | none ↦ p
    | some channel_id ↦
        let unified_key =
          build_room_mapping_key (trim_prefix key key_prefix_legacy_matrix_dm_mapping) in
        if has_data (kv.get unified_key p.store)
        then remove_old key p
        else elim (kv.set unified_key channel_id p.store) [
          | none ↦ p
          | some after ↦
              remove_old key (record { store = after; migrated = p.migrated; also = p.also + 1 })
        ]
  ]

  -- The keys of a page, one after the other.
  unfoldable pub each : (Text → Progress S → Progress S) → List Text → Progress S → Progress S
  each body [] p = p
  each body (key ∷ keys) p = each body keys (body key p)

  -- The loop over the pages of a prefix; none if the fuel did not suffice.
  unfoldable pub migrate_pages :
      (Text → Progress S → Progress S)
      → ℕ
      → Text
      → ℕ
      → ℕ
      → Progress S
      → Option (Ended S (Progress S))
  migrate_pages body batch prefix zero page p = none
  migrate_pages body batch prefix (suc fuel) page p =
      elim (kv.list_keys_with_prefix page batch prefix p.store) [
        | none ↦ some (record { store = p.store; result = none })
        | some keys ↦
            let after = each body keys p in
            let rest = migrate_pages body batch prefix fuel (page + 1) after in
            if eqb (length keys) 0
            then some (record { store = p.store; result = some p })
            else if ltb (length keys) batch
            then some (record { store = after.store; result = some after })
            else rest
      ]
