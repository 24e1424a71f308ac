-- ===== src/Migrations/Pages.antt =====
-- The loops over pages of server/migrations.go: when they end, and what a body keeps through them.
use mattermost_plugin_matrix.Prelude.{
  ℕ, zero, suc, ◌+◌, ◌-◌, ◌*◌, ◌≤◌, ◌≡◌, ap, ◌∙◌, subst, Bool, true, false, Option, none, some,
  Option-cases, Bool-cases, inl, inr, List, [], ◌∷◌, length, length-take, length-drop, min, drop,
  ltb, eqb, Text, arith,
}
use mattermost_plugin_matrix.Store.{KvStore, IsListed}
use mattermost_plugin_matrix.Migrations.{Progress, Ended, each, migrate_pages}

abbrev pub is_some : {A : Type 0} → Option A → Bool
is_some none = false
is_some (some a) = true

pub same_product : (a b c : ℕ) → a ≡ b → a * c ≡ b * c
same_product a b c e = ap (λ x. x * c) e

module _ {S : Type 0} (kv : KvStore S) (body : Text → Progress S → Progress S) where
  module _ (P : S → Type 0)
      (step : (key : Text) (p : Progress S) → P p.store → P (body key p).store) where
    -- What the body keeps, the loop over a page keeps.
    pub each_keeps : (keys : List Text) (p : Progress S) → P p.store → P (each kv body keys p).store
    unfolding each
    each_keeps [] p h = h
    each_keeps (key ∷ keys) p h = each_keeps keys (body key p) (step key p h)

    -- What the body keeps, the loop over the pages keeps, whether it ends with an error or not.
    pub migrate_pages_keeps :
        (batch : ℕ) (prefix : Text) (fuel page : ℕ) (p : Progress S) (done : Ended S (Progress S))
        → P p.store
        → migrate_pages kv body batch prefix fuel page p ≡ some done
        → P done.store
    unfolding migrate_pages
    migrate_pages_keeps batch prefix zero page p done h e = absurd (ground arith)
    migrate_pages_keeps batch prefix (suc fuel) page p done h e =
        elim (Option-cases (kv.list_keys_with_prefix page batch prefix p.store)) [
          | inl failed ↦ subst P (ground arith) h
          | inr (keys, listed) ↦ elim (Bool-cases (eqb (length keys) 0)) [
            | inl over ↦ subst P (ground arith) h
            | inr some_left ↦ elim (Bool-cases (ltb (length keys) batch)) [
              | inl last ↦ subst P (ground arith) (each_keeps keys p h)
              | inr more ↦
                  migrate_pages_keeps batch prefix fuel (page + 1) (each kv body keys p) done
                    (each_keeps keys p h) (ground arith)
            ]
          ]
        ]

  pub page_length :
      (listing : IsListed kv) (batch : ℕ) (prefix : Text) (page : ℕ) (s : S) (keys : List Text)
      → kv.list_keys_with_prefix page batch prefix s ≡ some keys
      → length keys ≡ min batch (length (listing.keys prefix s) - page * batch)
  page_length listing batch prefix page s keys listed =
      let all = listing.keys prefix s in
      ap length (listing.keys-list page batch prefix s keys listed)
      ∙ length-take batch (drop (page * batch) all)
      ∙ ap (min batch) (length-drop (page * batch) all)

  -- The loop over the pages ends, with its result or with an error of the store, if the body never
  -- makes the keys of the prefix more, and all of them fit in the pages that the fuel allows.
  pub migrate_pages_ends :
      (listing : IsListed kv) (batch : ℕ) (prefix : Text)
      → ((key : Text) (p : Progress S)
          → length (listing.keys prefix (body key p).store) ≤ length (listing.keys prefix p.store))
      → (fuel page : ℕ) (p : Progress S)
      → length (listing.keys prefix p.store) ≤ (page + fuel) * batch
      → is_some (migrate_pages kv body batch prefix (suc fuel) page p) ≡ true
  unfolding migrate_pages
  migrate_pages_ends listing batch prefix shrinks zero page p enough =
      elim (Option-cases (kv.list_keys_with_prefix page batch prefix p.store)) [
        | inl failed ↦ ground arith
        | inr (keys, listed) ↦
            let size = page_length listing batch prefix page p.store keys listed in
            let none_left : length keys ≡ 0 =
              omega (arith, size, same_product page (page + 0) batch (omega arith), enough) in
            ground arith
      ]
  migrate_pages_ends listing batch prefix shrinks (suc fuel) page p enough =
      elim (Option-cases (kv.list_keys_with_prefix page batch prefix p.store)) [
        | inl failed ↦ ground arith
        | inr (keys, listed) ↦
            let left =
              each_keeps
                (λ s. length (listing.keys prefix s) ≤ length (listing.keys prefix p.store))
                (λ key q h. omega (arith, h, shrinks key q)) keys p (omega arith) in
            let rest =
              migrate_pages_ends listing batch prefix shrinks fuel (page + 1) (each kv body keys p)
                (omega (
                  arith,
                  left,
                  enough,
                  same_product (page + suc fuel) (page + 1 + fuel) batch (omega arith),
                )) in
            ground (arith, rest)
      ]
