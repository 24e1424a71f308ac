-- ===== src/Batcher/Invariant.antt =====
-- server/batcher.go never leaves a batch without a timer: an invariant of its events.
use mattermost_plugin_matrix.Prelude.{
  ℕ, ◌<◌, ◌≡◌, refl, Bool, true, false, none, some, List, [], ◌∷◌, ◌++◌, length, eqb, eqb_iff,
  if◌then◌else◌, Text, ◌==◌, eq_iff, arith, length-append, Bool-cases, Option-cases, inl, inr,
}
use mattermost_plugin_matrix.Prelude.Dict
use mattermost_plugin_matrix.Prelude.Dict.{Dict, get-put, get-remove}
use mattermost_plugin_matrix.Batcher.{
  Batcher, new_batcher, pending, start_timer, add, awaits, without, take_batch, flush, Event, added,
  flushed, fired, called, Running, start_flush, step, run,
}

awaits-without :
    (t u : ℕ) (l : List ℕ) → awaits u (without t l) ≡ (if eqb t u then false else awaits u l)
unfolding awaits without
awaits-without t u [] = ground arith
awaits-without t u (x ∷ l) = ground (arith, awaits-without t u l)

-- A timer of the key is running.
unfoldable pub has_callback : {A : Type 0} → Batcher A → Text → Bool
unfolding Dict.get awaits
has_callback b k = elim (Dict.get k b.timers) [ none ↦ false | some t ↦ awaits t b.callbacks ]

pub record IsValid {A : Type 0} (b : Batcher A) : Type 0 where
  -- every batch has an item and a running timer
  pub awaited :
      (k : Text) (xs : List A)
      → Dict.get k b.items ≡ some xs
      → (0 < length xs) × (has_callback b k ≡ true)
  pub matched : (k : Text) → Dict.get k b.items ≡ none → Dict.get k b.timers ≡ none
  pub owned : (k : Text) (t : ℕ) → Dict.get k b.timers ≡ some t → (b.owner t ≡ k) × (t < b.next)

-- The same, where the key `k` may have lost its timer.
record IsValidBut {A : Type 0} (k : Text) (b : Batcher A) : Type 0 where
  awaited :
      (j : Text) (xs : List A)
      → (k == j) ≡ false
      → Dict.get j b.items ≡ some xs
      → (0 < length xs) × (has_callback b j ≡ true)
  matched : (j : Text) → Dict.get j b.items ≡ none → Dict.get j b.timers ≡ none
  owned : (j : Text) (t : ℕ) → Dict.get j b.timers ≡ some t → (b.owner t ≡ j) × (t < b.next)

module _ {A : Type 0} where
  pub new_batcher-IsValid : IsValid (new_batcher {A = A})
  unfolding new_batcher Dict.get
  new_batcher-IsValid = record {
    awaited = λ k xs h. ground arith;
    matched = λ k h. refl;
    owned = λ k t h. ground arith;
  }

  add-IsValid : (b : Batcher A) (k : Text) (x : A) → IsValid b → IsValid (add b k x)
  unfolding add start_timer has_callback pending
  add-IsValid b k x v = record {
    awaited = λ j xs h. elim (Option-cases (Dict.get j b.timers)) [
      | inl absent ↦ ground (
        arith,
        eq_iff k j,
        get-put k j (pending k b ++ x ∷ []) b.items,
        get-put k j b.next b.timers,
        length-append (pending k b) (x ∷ []),
        v.awaited j xs,
        eqb_iff b.next b.next,
      )
      | inr (t, here) ↦ ground (
        arith,
        eq_iff k j,
        get-put k j (pending k b ++ x ∷ []) b.items,
        get-put k j b.next b.timers,
        length-append (pending k b) (x ∷ []),
        v.awaited j xs,
        v.awaited k (pending k b),
        v.matched k,
        v.owned j t here,
        eqb_iff b.next t,
      )
    ];
    matched = λ j h. ground (
      arith,
      eq_iff k j,
      get-put k j (pending k b ++ x ∷ []) b.items,
      get-put k j b.next b.timers,
      v.matched j,
    );
    owned = λ j t h.
        ground (arith, eq_iff k j, get-put k j b.next b.timers, v.owned j t, eqb_iff b.next t);
  }

  flush_but-IsValid :
      (s : Bool) (b : Batcher A) (k : Text) → IsValidBut k b → IsValid (flush s b k).0
  unfolding flush take_batch has_callback
  flush_but-IsValid s b k v = elim (Option-cases (Dict.get k b.timers)) [
    | inl off ↦ record {
      awaited = λ j xs h. ground (arith, eq_iff k j, get-remove k j b.items, v.awaited j xs, off);
      matched = λ j h. ground (arith, eq_iff k j, get-remove k j b.items, v.matched j, off);
      owned = λ j t h. ground (arith, v.owned j t, off);
    }
    | inr (u, on) ↦ record {
      awaited = λ j xs h. elim (Option-cases (Dict.get j b.timers)) [
        | inl none_j ↦
            ground (
              arith,
              eq_iff k j,
              get-remove k j b.items,
              get-remove k j b.timers,
              v.awaited j xs,
              on,
            )
        | inr (t, here) ↦ ground (
          arith,
          eq_iff k j,
          get-remove k j b.items,
          get-remove k j b.timers,
          v.awaited j xs,
          awaits-without u t b.callbacks,
          eqb_iff u t,
          v.owned j t,
          v.owned k u,
          on,
        )
      ];
      matched = λ j h.
          ground
            (arith, eq_iff k j, get-remove k j b.items, get-remove k j b.timers, v.matched j, on);
      owned = λ j t h. ground (arith, eq_iff k j, get-remove k j b.timers, v.owned j t, on);
    }
  ]

  flush-IsValid : (s : Bool) (b : Batcher A) (k : Text) → IsValid b → IsValid (flush s b k).0
  flush-IsValid s b k v =
      flush_but-IsValid s b k
        (record { awaited = λ j xs ne h. v.awaited j xs h; matched = v.matched; owned = v.owned })

  -- A callback that runs leaves its own key without a timer, until it flushes it.
  fired-IsValidBut :
      (b : Batcher A) (t : ℕ)
      → IsValid b
      → IsValidBut (b.owner t) (record b { callbacks = without t b.callbacks })
  unfolding has_callback
  fired-IsValidBut b t v = record {
    awaited = λ j xs ne h. elim (Option-cases (Dict.get j b.timers)) [
      | inl none_j ↦ ground (arith, v.awaited j xs h, none_j)
      | inr (u, here) ↦ ground (
        arith,
        v.awaited j xs h,
        here,
        v.owned j u here,
        awaits-without t u b.callbacks,
        eqb_iff t u,
        eq_iff (b.owner t) j,
      )
    ];
    matched = v.matched;
    owned = v.owned;
  }

  pub step-IsValid :
      (e : Event A) (r : Running A) → IsValid r.batcher → IsValid (step e r).0.batcher
  unfolding step start_flush
  step-IsValid (added k x) r v = add-IsValid r.batcher k x v
  step-IsValid (flushed s k) r v = flush-IsValid s r.batcher k v
  step-IsValid (fired s t) r v = elim (Bool-cases (awaits t r.batcher.callbacks)) [
    | inr idle ↦ rw idle v
    | inl due ↦
        let b = r.batcher in
        rw due (
          flush_but-IsValid s (record b { callbacks = without t b.callbacks }) (b.owner t)
            (fired-IsValidBut b t v))
  ]
  step-IsValid (called n) r v = v

  -- After any events of a valid batcher, in any order, with the calls of `onFlush` at any time, every
  -- batch holds an item, and a timer for it is running.
  pub run-IsValid :
      (events : List (Event A)) (r : Running A)
      → IsValid r.batcher
      → IsValid (run events r).0.batcher
  unfolding run
  run-IsValid [] r v = v
  run-IsValid (e ∷ events) r v = run-IsValid events (step e r).0 (step-IsValid e r v)
