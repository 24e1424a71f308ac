-- ===== src/Migrations/Keeps.antt =====
-- The loop bodies of version 1 (server/migrations.go) and the keys that they go through.
use mattermost_plugin_matrix.Prelude.{
  ◌≡◌, refl, false, Option-cases, Bool-cases, inl, inr, Text, has_prefix, trim_prefix,
}
use mattermost_plugin_matrix.Store.{
  KvStore, IsListed, key_prefix_matrix_user, key_prefix_channel_mapping, build_mattermost_user_key,
  build_room_mapping_key,
}
use mattermost_plugin_matrix.Migrations.{Progress, reads, write, write_also, migrate_user_mapping}

user_other :
    (user : Text) → has_prefix (build_mattermost_user_key user) key_prefix_matrix_user ≡ false
unfolding has_prefix build_mattermost_user_key
user_other user = refl

room_other :
    (room : Text) → has_prefix (build_room_mapping_key room) key_prefix_channel_mapping ≡ false
unfolding has_prefix build_room_mapping_key
room_other room = refl

module _ {S : Type 0} (kv : KvStore S) (listing : IsListed kv) where
  write_keeps :
      (prefix key value : Text) (p : Progress S)
      → has_prefix key prefix ≡ false
      → listing.keys prefix (write kv key value p).store ≡ listing.keys prefix p.store
  unfolding write
  write_keeps prefix key value p other = elim (Option-cases (kv.set key value p.store)) [
    | inl failed ↦ rw (failed, write) refl
    | inr (after, e) ↦ rw (e, write) (listing.keys-set prefix key value p.store after e other)
  ]

  write_also_keeps :
      (prefix key value : Text) (p : Progress S)
      → has_prefix key prefix ≡ false
      → listing.keys prefix (write_also kv key value p).store ≡ listing.keys prefix p.store
  unfolding write_also
  write_also_keeps prefix key value p other = elim (Option-cases (kv.set key value p.store)) [
    | inl failed ↦ rw (failed, write_also) refl
    | inr (after, e) ↦ rw (e, write_also) (listing.keys-set prefix key value p.store after e other)
  ]

  -- The migration of the users does not change the keys that it goes through.
  pub migrate_user_mapping_keeps :
      (key : Text) (p : Progress S)
      → listing.keys key_prefix_matrix_user (migrate_user_mapping kv key p).store
        ≡ listing.keys key_prefix_matrix_user p.store
  unfolding migrate_user_mapping
  migrate_user_mapping_keeps key p = elim (Option-cases (kv.get key p.store)) [
    | inl failed ↦ rw (failed, migrate_user_mapping) refl
    | inr (user, e) ↦
        elim (Bool-cases (
          reads (kv.get (build_mattermost_user_key user) p.store)
            (trim_prefix key key_prefix_matrix_user))) [
              | inl there ↦ rw (e, migrate_user_mapping) (rw there refl)
              | inr missing ↦
                  rw (e, migrate_user_mapping)
                    (rw missing (
                      write_keeps key_prefix_matrix_user (build_mattermost_user_key user)
                        (trim_prefix key key_prefix_matrix_user) p (user_other user)))
            ]
  ]
