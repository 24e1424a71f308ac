-- ===== src/Migrations/Again.antt =====
-- `runKVStoreMigrationsWithResults` of server/migrations.go a second time.
use mattermost_plugin_matrix.Prelude.{
  ℕ, ◌≡◌, refl, ap, sym, ◌∙◌, Bool, true, false, Option, none, some, Option-cases, Bool-cases, inl,
  inr, if◌then◌else◌, Text, eq_refl, lit, arith,
}
use mattermost_plugin_matrix.Store.{KvStore, IsKvStore, key_store_version, current_kv_store_version}
use mattermost_plugin_matrix.Migrations.{MigrationResult, Ended, no_results}
use mattermost_plugin_matrix.Migrations.Versions.{
  and_then, mark, version_of, atoi, digits, is_below, run_kv_store_migrations,
}

-- What comes after a migration has ended with the result, if there is one.
and_then_ended :
    {S A B : Type 0} (first : Option (Ended S A)) (next : S → A → Option (Ended S B)) (s : S)
    (b : B)
    → and_then first next ≡ some (record { store = s; result = some b })
    → (t : S) × (a : A) × (next t a ≡ some (record { store = s; result = some b }))
unfolding and_then
and_then_ended none next s b e = absurd (ground arith)
and_then_ended (some done) next s b e = elim (Option-cases done.result) [
  | inl failed ↦ absurd (ground arith)
  | inr (a, there) ↦ (done.store, a, ground arith)
]

then_of : {A : Type 0} (b : Bool) (x y z : A) → b ≡ true → (if b then x else y) ≡ z → x ≡ z
then_of true x y z h e = e
then_of false x y z h e = absurd (ground arith)

current : is_below current_kv_store_version (version_of (some (lit "2"))) ≡ false
unfolding is_below version_of atoi digits
current = refl

module _ {S : Type 0} (kv : KvStore S) (laws : IsKvStore kv) (resolve : Text → Option Text)
    (batch fuel : ℕ) where
  marked :
      (result after : MigrationResult) (s t : S)
      → mark kv resolve batch fuel result t ≡ some (record { store = s; result = some after })
      → laws.contents key_store_version s ≡ lit "2"
  unfolding mark
  marked result after s t e = elim (Option-cases (kv.set key_store_version (lit "2") t)) [
    | inl failed ↦ absurd (ground arith)
    | inr (written, f) ↦
        let same : written ≡ s = ground arith in
        ap (laws.contents key_store_version) (sym same)
        ∙ laws.contents-set key_store_version key_store_version (lit "2") t written f
        ∙ rw (eq_refl key_store_version) refl
  ]

  up_to_date :
      (s : S)
      → is_below current_kv_store_version (version_of (kv.get key_store_version s)) ≡ false
      → run_kv_store_migrations kv resolve batch fuel s
        ≡ some (record { store = s; result = some no_results })
  unfolding run_kv_store_migrations
  up_to_date s new = rw (new, run_kv_store_migrations) refl

  -- Migrations that ended with a result do nothing when they are run again, if the version can be
  -- read then.
  pub run_kv_store_migrations_again :
      (before after : S) (result : MigrationResult) (version : Text)
      → run_kv_store_migrations kv resolve batch fuel before
        ≡ some (record { store = after; result = some result })
      → kv.get key_store_version after ≡ some version
      → run_kv_store_migrations kv resolve batch fuel after
        ≡ some (record { store = after; result = some no_results })
  unfolding run_kv_store_migrations
  run_kv_store_migrations_again before after result version e reads =
      elim (Bool-cases
        (is_below current_kv_store_version (version_of (kv.get key_store_version before)))) [
          | inl old ↦
              let opened = then_of _ _ _ _ old e in
              let (s1, r1, e1) = and_then_ended _ _ after result opened in
              let (s2, r2, e2) = and_then_ended _ _ after result e1 in
              let is_two =
                laws.contents-get key_store_version version after reads
                ∙ marked r2 result after s2 e2 in
              up_to_date after (rw (reads, is_two) current)
          | inr new ↦
              let same : before ≡ after = ground (arith, up_to_date before new) in
              up_to_date after (rw (← same) new)
        ]
