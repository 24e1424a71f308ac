-- ===== src/Migrations/Versions.antt =====
-- The versions of server/migrations.go: which migrations run, in which order, and the version marker.
use mattermost_plugin_matrix.Prelude.{
  ℕ, zero, suc, ◌+◌, ◌-◌, ◌*◌, ◌^◌, Bool, true, ◌&&◌, Option, none, some, [], ◌∷◌, ltb, leb, eqb,
  if◌then◌else◌, Text, lit,
}
use mattermost_plugin_matrix.Prelude.Int.{ℤ}
use mattermost_plugin_matrix.Store.{
  KvStore, key_prefix_matrix_user, key_prefix_channel_mapping, key_prefix_legacy_dm_mapping,
  key_prefix_legacy_matrix_dm_mapping, key_store_version, current_kv_store_version,
}
use mattermost_plugin_matrix.Migrations.{
  MigrationResult, no_results, Progress, Ended, migrate_user_mapping, migrate_channel_mapping,
  migrate_dm_mapping, migrate_matrix_dm_mapping, migrate_pages,
}

-- `strconv.Atoi`: the digits, then the sign and the range of 64 bits
unfoldable pub digits : ℕ → Text → Option ℕ
digits n [] = some n
digits n (c ∷ s) =
    let rest = digits (n * 10 + (c - 48)) s in if leb 48 c && leb c 57 then rest else none

abbrev within : ℕ → (ℕ → ℤ) → Option ℕ → Option ℤ
within bound signed none = none
within bound signed (some n) = if leb n bound then some (signed n) else none

abbrev negative : ℕ → ℤ
negative zero = ℤ.pos 0
negative (suc n) = ℤ.negsuc n

abbrev unsigned : Text → Option ℕ
unsigned [] = none
unsigned (c ∷ s) = digits 0 (c ∷ s)

unfoldable pub atoi : Text → Option ℤ
unfolding digits
atoi [] = none
atoi (c ∷ s) =
    if eqb c 43
    then within (2 ^ 63 - 1) ℤ.pos (unsigned s)
    else if eqb c 45
    then within (2 ^ 63) negative (unsigned s)
    else within (2 ^ 63 - 1) ℤ.pos (unsigned (c ∷ s))

-- `version < n`
unfoldable pub is_below : ℕ → ℤ → Bool
is_below n (ℤ.pos m) = ltb m n
is_below n (ℤ.negsuc m) = true

-- The version that is stored; zero if it cannot be read or parsed.
unfoldable pub version_of : Option Text → ℤ
version_of none = ℤ.pos 0
version_of (some bytes) = elim (atoi bytes) [ none ↦ ℤ.pos 0 | some version ↦ version ]

-- A migration after one that may have failed.
unfoldable pub and_then :
    {S A B : Type 0} → Option (Ended S A) → (S → A → Option (Ended S B)) → Option (Ended S B)
and_then none next = none
and_then (some done) next = elim done.result [
  | none ↦ some (record { store = done.store; result = none })
  | some a ↦ next done.store a
]

module _ {S : Type 0} (kv : KvStore S) (resolve : Text → Option Text) (batch fuel : ℕ) where
  abbrev from_start : S → Progress S
  from_start s = record { store = s; migrated = 0; also = 0 }

  -- `runMigrationToVersion1WithResults`: the users, then the channels
  unfoldable pub run_migration_to_version1 : MigrationResult → S → Option (Ended S MigrationResult)
  run_migration_to_version1 result s =
      and_then
        (migrate_pages kv (migrate_user_mapping kv) batch key_prefix_matrix_user fuel 0
          (from_start s))
        (λ s users.
          and_then
            (migrate_pages kv (migrate_channel_mapping kv resolve) batch key_prefix_channel_mapping
              fuel 0 (from_start s))
            (λ s channels. some (record {
              store = s;
              result = some (record result {
                user_mappings_created = result.user_mappings_created + users.migrated;
                channel_mappings_created = result.channel_mappings_created + channels.migrated;
                room_mappings_created = result.room_mappings_created + channels.also;
              });
            })))

  -- `runMigrationToVersion2WithResults`, that is `migrateDMMappingsWithResults`: the direct channels,
  -- then the rooms
  unfoldable pub run_migration_to_version2 : MigrationResult → S → Option (Ended S MigrationResult)
  run_migration_to_version2 result s =
      and_then
        (migrate_pages kv (migrate_dm_mapping kv) batch key_prefix_legacy_dm_mapping fuel 0
          (from_start s))
        (λ s dms.
          and_then
            (migrate_pages kv (migrate_matrix_dm_mapping kv) batch
              key_prefix_legacy_matrix_dm_mapping fuel 0 (from_start s))
            (λ s rooms. some (record {
              store = s;
              result = some (record result {
                dm_mappings_created = result.dm_mappings_created + dms.migrated;
                reverse_dm_mappings_created =
                    result.reverse_dm_mappings_created + (dms.also + rooms.also);
              });
            })))

  -- the end of `runKVStoreMigrationsWithResults`: the version marker
  unfoldable pub mark : MigrationResult → S → Option (Ended S MigrationResult)
  mark result s = elim (kv.set key_store_version (lit "2") s) [
    | none ↦ some (record { store = s; result = none })
    | some after ↦ some (record { store = after; result = some result })
  ]

  -- `runKVStoreMigrationsWithResults`
  unfoldable pub run_kv_store_migrations : S → Option (Ended S MigrationResult)
  run_kv_store_migrations s =
      let version = version_of (kv.get key_store_version s) in
      let first = run_migration_to_version1 no_results s in
      let second = run_migration_to_version2 in
      if is_below current_kv_store_version version
      then and_then
          (if is_below 1 version
            then first
            else some (record { store = s; result = some no_results }))
          (λ s1 r1.
            and_then
              (if is_below 2 version
                then second r1 s1
                else some (record { store = s1; result = some r1 }))
              (λ s2 r2. mark r2 s2))
      else some (record { store = s; result = some no_results })
