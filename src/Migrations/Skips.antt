-- ===== src/Migrations/Skips.antt =====
-- The loops of `migrateDMMappingsWithResults` (server/migrations.go) remove the keys of a page, and
-- then ask for the page with the next number.
use mattermost_plugin_matrix.Prelude.{
  ℕ, zero, suc, ◌+◌, ◌*◌, ◌≤◌, ◌≡◌, refl, ap, sym, ◌∙◌, subst, Bool, false, not, Option, none, some,
  Option-cases, Bool-cases, inl, inr, List, [], ◌∷◌, ◌++◌, length, length-drop, take-append-drop,
  take, drop, keep, ltb, eqb, Text, ◌==◌, eq_refl, has_prefix, trim_prefix, arith,
}
use mattermost_plugin_matrix.Store.{
  KvStore, IsListed, build_channel_mapping_key, build_room_mapping_key,
  key_prefix_legacy_dm_mapping,
}
use mattermost_plugin_matrix.Migrations.{
  Progress, Ended, has_data, each, migrate_pages, write_also, remove_old, finish_dm_mapping,
  migrate_dm_mapping,
}
use mattermost_plugin_matrix.Migrations.Pages.{page_length}

abbrev other : Text → Text → Bool
other key j = not (key == j)

-- No key stands twice.
abbrev pub IsDistinct : List Text → Type 0
IsDistinct [] = Unit
IsDistinct (key ∷ keys) = (keep (λ j. not (key == j)) keys ≡ keys) × IsDistinct keys

empty_page : (n : ℕ) (l : List Text) → length (take n l) ≡ 0 → length l ≤ 2 * n → drop n l ≡ l
empty_page zero l e two = refl
empty_page (suc n) [] e two = refl
empty_page (suc n) (x ∷ l) e two = absurd (omega (arith, e))

-- A store of which no operation fails.
pub record IsReliable {S : Type 0} (kv : KvStore S) : Type 0 where
  pub gets : (key : Text) (s : S) → (value : Text) × (kv.get key s ≡ some value)
  pub sets : (key value : Text) (s : S) → (after : S) × (kv.set key value s ≡ some after)
  pub deletes : (key : Text) (s : S) → (after : S) × (kv.delete key s ≡ some after)
  pub lists :
      (page per_page : ℕ) (prefix : Text) (s : S)
      → (keys : List Text) × (kv.list_keys_with_prefix page per_page prefix s ≡ some keys)

module _ {S : Type 0} (kv : KvStore S) (listing : IsListed kv) where
  -- The keys that are left after a loop that succeeded.
  unfoldable pub left : Text → Option (Ended S (Progress S)) → Option (List Text)
  left prefix none = none
  left prefix (some done) = elim done.result [
    | none ↦ none
    | some p ↦ some (listing.keys prefix p.store)
  ]

  -- The body removes the key it is called with, and no other with the prefix.
  abbrev Removes : (Text → Progress S → Progress S) → Text → Type 0
  Removes body prefix =
      (key : Text) (p : Progress S)
      → listing.keys prefix (body key p).store
        ≡ keep (λ j. not (key == j)) (listing.keys prefix p.store)

  each-Removes :
      (body : Text → Progress S → Progress S) (prefix : Text)
      → Removes body prefix
      → (keys rest : List Text) (p : Progress S) → IsDistinct (keys ++ rest)
      → listing.keys prefix p.store ≡ keys ++ rest
      → listing.keys prefix (each kv body keys p).store ≡ rest
  unfolding each
  each-Removes body prefix removes [] rest p d h = h
  each-Removes body prefix removes (key ∷ keys) rest p d h =
      each-Removes body prefix removes keys rest (body key p) d.1
        (removes key p ∙ ap (keep (λ j. not (key == j))) h ∙ ground (arith, eq_refl key) ∙ d.0)

  pages_skip :
      (body : Text → Progress S → Progress S) (prefix : Text)
      → Removes body prefix
      → IsReliable kv
      → (batch fuel : ℕ) (p : Progress S) → IsDistinct (listing.keys prefix p.store)
      → length (listing.keys prefix p.store) ≤ 2 * batch
      → left prefix (migrate_pages kv body batch prefix (suc (suc fuel)) 0 p)
        ≡ some (drop batch (listing.keys prefix p.store))
  unfolding migrate_pages left
  pages_skip body prefix removes reliable batch fuel p d two =
      let all = listing.keys prefix p.store in
      let (keys, listed) = reliable.lists 0 batch prefix p.store in
      let after = each kv body keys p in
      let (more_keys, next) = reliable.lists 1 batch prefix after.store in
      let page : keys ≡ take batch all =
        listing.keys-list 0 batch prefix p.store keys listed
        ∙ ap (λ i. take batch (drop i all)) {x = 0 * batch} {y = 0} (omega arith) in
      let parts = take-append-drop batch all in
      let rest : listing.keys prefix after.store ≡ drop batch all = rw page (
        each-Removes body prefix removes (take batch all) (drop batch all) p
          (subst IsDistinct (sym parts) d) (sym parts)) in
      let size = page_length kv body listing batch prefix 1 after.store more_keys next in
      let over : length more_keys ≡ 0 =
        omega (arith, size, two, ap length rest, length-drop batch all) in
      elim (Bool-cases (eqb (length keys) 0)) [
        | inl empty ↦
            rw (listed, migrate_pages)
              (rw empty (ap some (sym (empty_page batch all (ground (arith, ap length page)) two))))
        | inr some_left ↦ elim (Bool-cases (ltb (length keys) batch)) [
          | inl last ↦ rw (listed, migrate_pages) (rw (some_left, last) (ap some rest))
          | inr full ↦
              rw (listed, migrate_pages) (rw (some_left, full) (rw (next, over) (ap some rest)))
        ]
      ]

  -- The prefix of the old mappings of direct channels.
  abbrev old : Text
  old = key_prefix_legacy_dm_mapping

  room_other : (room : Text) → has_prefix (build_room_mapping_key room) old ≡ false
  unfolding has_prefix build_room_mapping_key
  room_other room = refl

  channel_other : (channel : Text) → has_prefix (build_channel_mapping_key channel) old ≡ false
  unfolding has_prefix build_channel_mapping_key
  channel_other channel = refl

  set_keeps :
      (key value : Text) (s after : S)
      → has_prefix key old ≡ false
      → kv.set key value s ≡ some after
      → listing.keys old after ≡ listing.keys old s
  set_keeps key value s after h e = listing.keys-set old key value s after e h

  write_also_keeps :
      (room value : Text) (p : Progress S)
      → listing.keys old (write_also kv (build_room_mapping_key room) value p).store
        ≡ listing.keys old p.store
  unfolding write_also
  write_also_keeps room value p =
      elim (Option-cases (kv.set (build_room_mapping_key room) value p.store)) [
        | inl failed ↦ rw (failed, write_also) refl
        | inr (after, e) ↦
            rw (e, write_also)
              (set_keeps (build_room_mapping_key room) value p.store after (room_other room) e)
      ]

  remove_old_removes :
      IsReliable kv
      → (key : Text) (p : Progress S)
      → listing.keys old (remove_old kv key p).store
        ≡ keep (λ j. not (key == j)) (listing.keys old p.store)
  unfolding remove_old
  remove_old_removes reliable key p =
      let (after, e) = reliable.deletes key p.store in
      rw (e, remove_old) (listing.keys-delete old key p.store after e)

  finish_removes :
      IsReliable kv
      → (key channel_id room_id : Text) (p : Progress S)
      → listing.keys old (finish_dm_mapping kv key channel_id room_id p).store
        ≡ keep (λ j. not (key == j)) (listing.keys old p.store)
  unfolding finish_dm_mapping
  finish_removes reliable key channel_id room_id p =
      elim (Bool-cases (has_data (kv.get (build_room_mapping_key room_id) p.store))) [
        | inl there ↦ rw (there, finish_dm_mapping) (remove_old_removes reliable key p)
        | inr missing ↦
            rw (missing, finish_dm_mapping)
              (remove_old_removes reliable key
                  (write_also kv (build_room_mapping_key room_id) channel_id p)
                ∙ ap (keep (λ j. not (key == j))) (write_also_keeps room_id channel_id p))
      ]

  -- The first loop removes what it migrates.
  migrate_dm_mapping-Removes : IsReliable kv → Removes (migrate_dm_mapping kv) old
  unfolding migrate_dm_mapping
  migrate_dm_mapping-Removes reliable key p =
      let (room, found) = reliable.gets key p.store in
      let channel = trim_prefix key key_prefix_legacy_dm_mapping in
      let (after, e) = reliable.sets (build_channel_mapping_key channel) room p.store in
      elim (Bool-cases (has_data (kv.get (build_channel_mapping_key channel) p.store))) [
        | inl there ↦
            rw (found, migrate_dm_mapping) (rw there (finish_removes reliable key channel room p))
        | inr missing ↦
            rw (found, migrate_dm_mapping)
              (rw (missing, e)
                (finish_removes reliable key channel room
                    (record { store = after; migrated = p.migrated + 1; also = p.also })
                  ∙ ap (keep (λ j. not (key == j))) (
                      set_keeps (build_channel_mapping_key channel) room p.store after
                        (channel_other channel) e)))
      ]

  -- Where no operation of the store fails and no key is listed twice: if there are at most twice
  -- as many old mappings of direct channels as a page holds, the first loop succeeds and leaves
  -- exactly those after the first page where they are.
  pub migrate_dm_mapping-skips :
      IsReliable kv
      → (batch fuel : ℕ) (p : Progress S)
      → IsDistinct (listing.keys key_prefix_legacy_dm_mapping p.store)
      → length (listing.keys key_prefix_legacy_dm_mapping p.store) ≤ 2 * batch
      → left key_prefix_legacy_dm_mapping (
          migrate_pages kv
            (migrate_dm_mapping kv)
            batch
            key_prefix_legacy_dm_mapping
            (suc (suc fuel))
            0
            p)
        ≡ some (drop batch (listing.keys key_prefix_legacy_dm_mapping p.store))
  migrate_dm_mapping-skips reliable =
      pages_skip (migrate_dm_mapping kv) old (migrate_dm_mapping-Removes reliable) reliable
