-- ===== src/Migrations/Sweep.antt =====
-- The loops over pages of server/migrations.go against one loop over all keys.
use mattermost_plugin_matrix.Prelude.{
  ℕ, zero, suc, ◌+◌, ◌*◌, ◌≤◌, ◌<◌, ◌≡◌, refl, ap, sym, ◌∙◌, true, Option, some, Option-cases,
  Bool-cases, inl, inr, List, [], ◌∷◌, ◌++◌, length, take-append-drop, take, drop, ltb, eqb, Text,
  arith,
}
use mattermost_plugin_matrix.Store.{KvStore, IsListed}
use mattermost_plugin_matrix.Migrations.{Progress, Ended, each, migrate_pages}
use mattermost_plugin_matrix.Migrations.Pages.{is_some, each_keeps, page_length, same_product}

drop_nil : {A : Type 0} (n : ℕ) → drop {A = A} n [] ≡ []
drop_nil zero = refl
drop_nil (suc n) = refl

drop-drop : {A : Type 0} (m n k : ℕ) (l : List A) → m + n ≡ k → drop n (drop m l) ≡ drop k l
drop-drop zero n k l e = ap (λ i. drop i l) (omega (arith, e))
drop-drop (suc m) n k [] e = drop_nil n ∙ sym (drop_nil k)
drop-drop (suc m) n zero (x ∷ l) e = absurd (omega (arith, e))
drop-drop (suc m) n (suc k) (x ∷ l) e = drop-drop m n k l (omega (arith, e))

none_taken : {A : Type 0} (n : ℕ) (l : List A) → 0 < n → length (take n l) ≡ 0 → l ≡ []
none_taken zero l pos h = absurd (omega (arith, pos))
none_taken (suc n) [] pos h = refl
none_taken (suc n) (x ∷ l) pos h = absurd (omega (arith, h))

take_all : {A : Type 0} (n : ℕ) (l : List A) → length (take n l) < n → take n l ≡ l
take_all zero l h = absurd (omega (arith, h))
take_all (suc n) [] h = refl
take_all (suc n) (x ∷ l) h = ap (◌∷◌ x) (take_all n l (omega (arith, h)))

count : {n : ℕ} → eqb n 0 ≡ true → n ≡ 0
count h = ground arith

few : {n m b : ℕ} → n ≡ m → ltb m b ≡ true → n < b
few e h = ground arith

module _ {S : Type 0} (kv : KvStore S) (body : Text → Progress S → Progress S) where
  pub each-append :
      (xs ys : List Text) (p : Progress S)
      → each kv body (xs ++ ys) p ≡ each kv body ys (each kv body xs p)
  unfolding each
  each-append [] ys p = refl
  each-append (x ∷ xs) ys p = each-append xs ys (body x p)

  -- A page and what is left after it.
  whole :
      (page batch : ℕ) (all keys : List Text) (p : Progress S)
      → keys ≡ take batch (drop (page * batch) all)
      → each kv body (drop (page * batch) all) p
        ≡ each kv body (drop ((page + 1) * batch) all) (each kv body keys p)
  whole page batch all keys p part =
      ap (λ l. each kv body l p) (sym (take-append-drop batch (drop (page * batch) all)))
      ∙ each-append (take batch (drop (page * batch) all)) (drop batch (drop (page * batch) all)) p
      ∙ ap (λ l. each kv body (drop batch (drop (page * batch) all)) (each kv body l p)) (sym part)
      ∙ ap (λ l. each kv body l (each kv body keys p))
          (drop-drop (page * batch) batch ((page + 1) * batch) all (omega arith))

  abbrev ended : Progress S → Option (Ended S (Progress S))
  ended p = some (record { store = p.store; result = some p })

  -- Where the body leaves the keys of the prefix as they are and listing does not fail, the loop
  -- from a page on does to the store, and counts, what one loop over the keys from that page on
  -- does, each key taken once. A page holds at least one key, and the fuel is enough for the keys.
  pub migrate_pages-each :
      (listing : IsListed kv) (batch : ℕ) (prefix : Text)
      → ((key : Text) (p : Progress S)
          → listing.keys prefix (body key p).store ≡ listing.keys prefix p.store)
      → ((page : ℕ) (s : S) → is_some (kv.list_keys_with_prefix page batch prefix s) ≡ true)
      → 0 < batch
      → (fuel page : ℕ) (p : Progress S)
      → length (listing.keys prefix p.store) ≤ (page + fuel) * batch
      → migrate_pages kv body batch prefix (suc fuel) page p
        ≡ ended (each kv body (drop (page * batch) (listing.keys prefix p.store)) p)
  unfolding migrate_pages each
  migrate_pages-each listing batch prefix still lists pos zero page p enough =
      elim (Option-cases (kv.list_keys_with_prefix page batch prefix p.store)) [
        | inl failed ↦ absurd (ground (arith, lists page p.store))
        | inr (keys, listed) ↦
            let rest = drop (page * batch) (listing.keys prefix p.store) in
            let part = listing.keys-list page batch prefix p.store keys listed in
            let size = page_length kv body listing batch prefix page p.store keys listed in
            let over : length keys ≡ 0 =
              omega (arith, size, same_product page (page + 0) batch (omega arith), enough) in
            let empty = none_taken batch rest pos (sym (ap length part) ∙ over) in
            rw (listed, migrate_pages) (rw (over, empty) refl)
      ]
  migrate_pages-each listing batch prefix still lists pos (suc fuel) page p enough =
      elim (Option-cases (kv.list_keys_with_prefix page batch prefix p.store)) [
        | inl failed ↦ absurd (ground (arith, lists page p.store))
        | inr (keys, listed) ↦
            let all = listing.keys prefix p.store in
            let rest = drop (page * batch) all in
            let part = listing.keys-list page batch prefix p.store keys listed in
            let after = each kv body keys p in
            let same =
              each_keeps kv body (λ s. listing.keys prefix s ≡ all) (λ key q h. still key q ∙ h)
                keys p refl in
            let ih = migrate_pages-each listing batch prefix still lists pos fuel (page + 1) after (
              omega (
                arith,
                ap length same,
                enough,
                same_product (page + suc fuel) (page + 1 + fuel) batch (omega arith),
              )) in
            elim (Bool-cases (eqb (length keys) 0)) [
              | inl over ↦
                  rw (listed, migrate_pages)
                    (rw (over, none_taken batch rest pos (sym (ap length part) ∙ count over)) refl)
              | inr more ↦ elim (Bool-cases (ltb (length keys) batch)) [
                | inl last ↦
                    rw (listed, migrate_pages)
                      (rw (more, last)
                        (ap (λ l. ended (each kv body l p))
                          (part ∙ take_all batch rest (few (sym (ap length part)) last))))
                | inr full ↦
                    rw (listed, migrate_pages)
                      (rw (more, full)
                        (ih
                          ∙ ap ended (
                              sym (
                                whole page batch all keys p part
                                ∙ ap (λ l. each kv body (drop ((page + 1) * batch) l) after)
                                    (sym same)))))
              ]
            ]
      ]
