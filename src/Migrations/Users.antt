-- ===== src/Migrations/Users.antt =====
-- `migrateUserMappingsWithResults` of server/migrations.go: what is stored when it is done.
use mattermost_plugin_matrix.Prelude.{
  ℕ, suc, ◌+◌, ◌*◌, ◌≤◌, ◌<◌, ◌≡◌, refl, ap, sym, ◌∙◌, Bool, true, false, some, Bool-cases, inl,
  inr, List, [], ◌∷◌, ◌++◌, map, length, drop, if◌then◌else◌, Text, ◌==◌, eq_iff, eq_refl,
  trim_prefix, trim_prefix-append, arith,
}
use mattermost_plugin_matrix.Store.{
  KvStore, IsKvStore, IsListed, key_prefix_matrix_user, build_matrix_user_key,
  build_mattermost_user_key,
}
use mattermost_plugin_matrix.Store.Keys.{key_prefixes-apart, get_elem?}
use mattermost_plugin_matrix.Migrations.{Progress, write, each, migrate_user_mapping, migrate_pages}
use mattermost_plugin_matrix.Migrations.Pages.{is_some, same_product}
use mattermost_plugin_matrix.Migrations.Keeps.{migrate_user_mapping_keeps}
use mattermost_plugin_matrix.Migrations.Sweep.{each-append, migrate_pages-each}
use mattermost_plugin_matrix.Migrations.Skips.{IsReliable}

mattermost-matrix : (x y : Text) → (build_mattermost_user_key x == build_matrix_user_key y) ≡ false
unfolding build_mattermost_user_key build_matrix_user_key get_elem?
mattermost-matrix x y = key_prefixes-apart 1 0 _ _ x y refl refl

mattermost-mattermost :
    (x y : Text) → (build_mattermost_user_key x == build_mattermost_user_key y) ≡ (x == y)
unfolding build_mattermost_user_key get_elem?
mattermost-mattermost x y = key_prefixes-apart 1 1 _ _ x y refl refl

user_of : (id : Text) → trim_prefix (build_matrix_user_key id) key_prefix_matrix_user ≡ id
unfolding build_matrix_user_key
user_of id = trim_prefix-append key_prefix_matrix_user id

pick :
    (b : Bool) (x y id : Text) → (if b then x ≡ id else Unit) → y ≡ id → (if b then x else y) ≡ id
pick true x y id f h = f
pick false x y id f h = h

map-append :
    (xs ys : List Text)
    → map build_matrix_user_key (xs ++ ys)
      ≡ map build_matrix_user_key xs ++ map build_matrix_user_key ys
map-append [] ys = refl
map-append (x ∷ xs) ys = ap (◌∷◌ (build_matrix_user_key x)) (map-append xs ys)

module _ {S : Type 0} (kv : KvStore S) (laws : IsKvStore kv) (reliable : IsReliable kv) where
  -- The Mattermost user that is stored for a Matrix user.
  abbrev pub owner : S → Text → Text
  owner s id = laws.contents (build_matrix_user_key id) s

  step : Text → Progress S → Progress S
  step id p = migrate_user_mapping kv (build_matrix_user_key id) p

  already :
      (key value j : Text) (s : S)
      → laws.contents key s ≡ value
      → laws.contents j s ≡ (if key == j then value else laws.contents j s)
  already key value j s h = elim (Bool-cases (key == j)) [
    | inl same ↦ rw same (ap (λ k. laws.contents k s) (sym (ground (arith, eq_iff key j))) ∙ h)
    | inr other ↦ rw other refl
  ]

  -- One key: its reverse mapping is there afterwards, and nothing else has changed.
  contents-step :
      (id j : Text) (p : Progress S)
      → laws.contents j (step id p).store ≡ (
          if build_mattermost_user_key (owner p.store id) == j then id else laws.contents j p.store)
  unfolding step migrate_user_mapping write
  contents-step id j p =
      let (user, found) = reliable.gets (build_matrix_user_key id) p.store in
      let is_owner = laws.contents-get (build_matrix_user_key id) user p.store found in
      let reverse = build_mattermost_user_key user in
      let (old, there) = reliable.gets reverse p.store in
      let is_old = laws.contents-get reverse old p.store there in
      let (after, set) = reliable.sets reverse id p.store in
      rw (found, migrate_user_mapping)
        (rw (user_of id, there, ← is_owner)
          (elim (Bool-cases (old == id)) [
            | inl same ↦
                rw same (already reverse id j p.store (sym is_old ∙ ground (arith, eq_iff old id)))
            | inr other ↦
                rw other (rw (set, write) (laws.contents-set reverse j id p.store after set))
          ]))

  -- The owners stay as they are.
  owner-step : (id i : Text) (p : Progress S) → owner (step id p).store i ≡ owner p.store i
  owner-step id i p =
      ground (
        arith,
        contents-step id (build_matrix_user_key i) p,
        mattermost-matrix (owner p.store id) i,
      )

  all_steps : List Text → Progress S → Progress S
  all_steps ids p = each kv (migrate_user_mapping kv) (map build_matrix_user_key ids) p

  owner-all_steps :
      (ids : List Text) (i : Text) (p : Progress S)
      → owner (all_steps ids p).store i ≡ owner p.store i
  unfolding all_steps each step
  owner-all_steps [] i p = refl
  owner-all_steps (id ∷ ids) i p = owner-all_steps ids i (step id p) ∙ owner-step id i p

  -- None of the Matrix users has the owner, but for one.
  abbrev pub Alone : S → Text → Text → List Text → Type 0
  Alone s user id [] = Unit
  Alone s user id (i ∷ ids) = (if owner s i == user then i ≡ id else Unit) × Alone s user id ids

  -- A reverse mapping that is right stays right.
  stays :
      (ids : List Text) (user id : Text) (s : S) (p : Progress S)
      → Alone s user id ids
      → ((i : Text) → owner p.store i ≡ owner s i)
      → laws.contents (build_mattermost_user_key user) p.store ≡ id
      → laws.contents (build_mattermost_user_key user) (all_steps ids p).store ≡ id
  unfolding all_steps each step
  stays [] user id s p alone same h = h
  stays (i ∷ ids) user id s p alone same h =
      stays ids user id s (step i p) alone.1 (λ k. owner-step i k p ∙ same k)
        (contents-step i (build_mattermost_user_key user) p
          ∙ rw (mattermost-mattermost (owner p.store i) user, same i)
              (pick (owner s i == user) i _ id alone.0 h))

  -- The loop over the users before one, its own step, and the loop over those after it.
  reversed :
      (before after : List Text) (id : Text) (p : Progress S)
      → Alone p.store (owner p.store id) id after
      → laws.contents
          (build_mattermost_user_key (owner p.store id))
          (all_steps (before ++ id ∷ after) p).store
        ≡ id
  unfolding all_steps each step
  reversed before after id p alone =
      let q = all_steps before p in
      let user = owner p.store id in
      let there =
        contents-step id (build_mattermost_user_key user) q
        ∙ rw (owner-all_steps before id p, eq_refl (build_mattermost_user_key user)) refl in
      rw
        (
          map-append before (id ∷ after),
          each-append kv (migrate_user_mapping kv) (map build_matrix_user_key before)
              (map build_matrix_user_key (id ∷ after)) p,
        )
        (stays after user id p.store (step id q) alone
          (λ k. owner-step id k q ∙ owner-all_steps before k p) there)

  -- Where no operation of the store fails, a page holds at least one key and the fuel is enough
  -- for the keys, the migration of the users succeeds, and then the store has, under the
  -- Mattermost user of any Matrix user that was stored, that Matrix user; unless another one after
  -- it in the list has the same Mattermost user.
  pub migrate_user_mappings_lem :
      (listing : IsListed kv) (batch fuel : ℕ) (before after : List Text) (id : Text)
      (p : Progress S)
      → 0 < batch
      → listing.keys key_prefix_matrix_user p.store
        ≡ map build_matrix_user_key (before ++ id ∷ after)
      → length (listing.keys key_prefix_matrix_user p.store) ≤ fuel * batch
      → Alone p.store (owner p.store id) id after
      → (done : Progress S) × (migrate_pages kv
            (migrate_user_mapping kv)
            batch
            key_prefix_matrix_user
            (suc fuel)
            0
            p
          ≡ some (record { store = done.store; result = some done }))
        × (laws.contents (build_mattermost_user_key (owner p.store id)) done.store ≡ id)
  unfolding all_steps
  migrate_user_mappings_lem listing batch fuel before after id p pos keys enough alone = (
    all_steps (before ++ id ∷ after) p,
    migrate_pages-each kv (migrate_user_mapping kv) listing batch key_prefix_matrix_user
          (migrate_user_mapping_keeps kv listing)
          (λ page s. ap is_some (reliable.lists page batch key_prefix_matrix_user s).1) pos fuel 0 p
          (omega (arith, enough, same_product fuel (0 + fuel) batch (omega arith)))
        ∙ ap
            (λ ks. some (record {
              store = (each kv (migrate_user_mapping kv) ks p).store;
              result = some (each kv (migrate_user_mapping kv) ks p);
            }))
            (ap (λ i. drop i (listing.keys key_prefix_matrix_user p.store)) {x = 0 * batch} {y = 0}
                (omega arith)
              ∙ keys),
    reversed before after id p alone,
  )
