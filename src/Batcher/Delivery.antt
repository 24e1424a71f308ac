-- ===== src/Batcher/Delivery.antt =====
-- server/batcher.go takes every item once, those of a key in the order they were added, and gives every
-- batch that it takes to `onFlush` once.
use mattermost_plugin_matrix.Prelude.{
  ℕ, zero, suc, ◌≡◌, refl, sym, ap, ◌∙◌, Bool, true, false, none, List, [], ◌∷◌, ◌++◌, length, ltb,
  if◌then◌else◌, Text, ◌==◌, eq_iff, arith, Bool-cases, inl, inr, map,
}
use mathlib.Core.List.{append-nil, append_assoc, Perm, perm_middle}
use mathlib.Core.List.Perm
use mattermost_plugin_matrix.Prelude.Dict
use mattermost_plugin_matrix.Prelude.Dict.{Dict, get-put, get-remove}
use mattermost_plugin_matrix.Batcher.{
  Batcher, pending, start_timer, add, awaits, without, take_batch, flush, flush_keys, flush_all,
  Event, added, flushed, fired, called, Running, pick_call, start_flush, step, run,
}

-- The key is among the keys.
listed : Text → List Text → Bool
listed k [] = false
listed k (j ∷ keys) = if j == k then true else listed k keys

pick_call-Perm :
    {B : Type 0} (n : ℕ) (xs : List B) → Perm ((pick_call n xs).0 ++ (pick_call n xs).1) xs
unfolding pick_call
pick_call-Perm n [] = Perm.refl []
pick_call-Perm zero (x ∷ xs) = Perm.refl (x ∷ xs)
pick_call-Perm (suc n) (x ∷ xs) =
    Perm.trans (perm_middle (pick_call n xs).0 (pick_call n xs).1)
      (Perm.cons x (pick_call-Perm n xs))

module _ {A : Type 0} where
  -- The items of a key that batches hold, in the order of the batches.
  unfoldable pub delivered : Text → List (Text × List A) → List A
  delivered k [] = []
  delivered k ((j, xs) ∷ calls) = if j == k then xs ++ delivered k calls else delivered k calls

  -- The items of a key that the events add.
  unfoldable pub added_items : Text → List (Event A) → List A
  added_items k [] = []
  added_items k (added j x ∷ events) =
      if j == k then x ∷ added_items k events else added_items k events
  added_items k (flushed _ _ ∷ events) = added_items k events
  added_items k (fired _ _ ∷ events) = added_items k events
  added_items k (called _ ∷ events) = added_items k events

  delivered-append :
      (k : Text) (xs ys : List (Text × List A))
      → delivered k (xs ++ ys) ≡ delivered k xs ++ delivered k ys
  unfolding delivered
  delivered-append k [] ys = refl
  delivered-append k ((j, x) ∷ xs) ys = elim (Bool-cases (j == k)) [
    | inl e ↦ simp (e, delivered-append k xs ys, append_assoc)
    | inr e ↦ simp (e, delivered-append k xs ys)
  ]

  pending-add :
      (b : Batcher A) (k j : Text) (x : A)
      → pending j (add b k x) ≡ (if k == j then pending j b ++ x ∷ [] else pending j b)
  unfolding pending add start_timer
  pending-add b k j x = ground (arith, get-put k j (pending k b ++ x ∷ []) b.items, eq_iff k j)

  pending-flush :
      (s : Bool) (b : Batcher A) (k j : Text)
      → pending j (flush s b k).0 ≡ (if k == j then [] else pending j b)
  unfolding pending flush take_batch
  pending-flush s b k j = ground (arith, get-remove k j b.items)

  delivered_once :
      (k j : Text) (xs : List A)
      → delivered j (if ltb 0 (length xs) then (k, xs) ∷ [] else []) ≡ (if k == j then xs else [])
  unfolding delivered
  delivered_once k j [] = ground arith
  delivered_once k j (x ∷ xs) = ground (arith, append-nil (x ∷ xs))

  delivered-flush :
      (s : Bool) (b : Batcher A) (k j : Text)
      → delivered j (flush s b k).1 ≡ (if k == j then pending j b else [])
  unfolding flush take_batch
  delivered-flush s b k j = delivered_once k j (pending k b) ∙ ground (arith, eq_iff k j)

  flush_conserves :
      (s : Bool) (b : Batcher A) (k j : Text)
      → delivered j (flush s b k).1 ++ pending j (flush s b k).0 ≡ pending j b
  flush_conserves s b k j = elim (Bool-cases (k == j)) [
    | inl e ↦ rw (delivered-flush s b k j, pending-flush s b k j, e) (append-nil (pending j b))
    | inr e ↦ rw (delivered-flush s b k j, pending-flush s b k j, e)
  ]

  -- The batch that an event takes from the batcher.
  unfoldable pub taken_by : Event A → Batcher A → List (Text × List A)
  unfolding awaits without flush
  taken_by (added j x) b = []
  taken_by (flushed s j) b = (flush s b j).1
  taken_by (fired s t) b =
      if awaits t b.callbacks
      then (flush s (record b { callbacks = without t b.callbacks }) (b.owner t)).1
      else []
  taken_by (called n) b = []

  -- The batches that the events take, in the order they are taken.
  unfoldable pub taken : List (Event A) → Running A → List (Text × List A)
  unfolding taken_by step
  taken [] r = []
  taken (e ∷ events) r = taken_by e r.batcher ++ taken events (step e r).0

  step_conserves :
      (e : Event A) (r : Running A) (k : Text)
      → delivered k (taken_by e r.batcher) ++ pending k (step e r).0.batcher
        ≡ pending k r.batcher ++ added_items k (e ∷ [])
  unfolding step added_items delivered taken_by start_flush
  step_conserves (added j x) r k =
      unfold delivered added_items in
      ground (arith, pending-add r.batcher j k x, append-nil (pending k r.batcher))
  step_conserves (flushed s j) r k =
      unfold added_items in rw (append-nil (pending k r.batcher)) (flush_conserves s r.batcher j k)
  step_conserves (fired s t) r k =
      let b = r.batcher in
      elim (Bool-cases (awaits t b.callbacks)) [
        | inr idle ↦ rw (idle, append-nil (pending k b))
        | inl due ↦
            rw (due, append-nil (pending k b))
              (unfold pending in
                flush_conserves s (record b { callbacks = without t b.callbacks }) (b.owner t) k)
      ]
  step_conserves (called n) r k =
      unfold delivered added_items in sym (append-nil (pending k r.batcher))

  added_items-cons :
      (k : Text) (e : Event A) (events : List (Event A))
      → added_items k (e ∷ events) ≡ added_items k (e ∷ []) ++ added_items k events
  unfolding added_items
  added_items-cons k (added j x) events = ground arith
  added_items-cons k (flushed s j) events = refl
  added_items-cons k (fired s t) events = refl
  added_items-cons k (called n) events = refl

  taken_conserves :
      (events : List (Event A)) (r : Running A) (k : Text)
      → delivered k (taken events r) ++ pending k (run events r).0.batcher
        ≡ pending k r.batcher ++ added_items k events
  unfolding run taken
  taken_conserves [] r k = unfold delivered added_items in sym (append-nil (pending k r.batcher))
  taken_conserves (e ∷ events) r k =
      let (r', calls) = step e r in
      simp
        (delivered-append, append_assoc, taken_conserves events r' k, added_items-cons k e events)
        (simp (← append_assoc) (ap (λ xs. xs ++ added_items k events) (step_conserves e r k)))

  -- No call of `onFlush` is lost or made up by an event.
  step-Perm :
      (e : Event A) (r : Running A)
      → Perm ((step e r).1 ++ (step e r).0.in_flight) (r.in_flight ++ taken_by e r.batcher)
  unfolding step taken_by start_flush
  step-Perm (added k x) r = rw (append-nil r.in_flight) (Perm.refl r.in_flight)
  step-Perm (flushed s k) r = Perm.refl _
  step-Perm (fired s t) r = elim (Bool-cases (awaits t r.batcher.callbacks)) [
    | inr idle ↦ rw (idle, append-nil r.in_flight) (Perm.refl r.in_flight)
    | inl due ↦ rw due (Perm.refl _)
  ]
  step-Perm (called n) r = rw (append-nil r.in_flight) (pick_call-Perm n r.in_flight)

  run-Perm :
      (events : List (Event A)) (r : Running A)
      → Perm ((run events r).1 ++ (run events r).0.in_flight) (r.in_flight ++ taken events r)
  unfolding run taken
  run-Perm [] r = rw (append-nil r.in_flight) (Perm.refl r.in_flight)
  run-Perm (e ∷ events) r =
      let (r', calls) = step e r in
      let (r'', more) = run events r' in
      let own = taken_by e r.batcher in
      let rest = taken events r' in
      let later : Perm (calls ++ (more ++ r''.in_flight)) (calls ++ (r'.in_flight ++ rest)) =
        Perm.append (Perm.refl calls) (run-Perm events r') in
      let now : Perm ((calls ++ r'.in_flight) ++ rest) ((r.in_flight ++ own) ++ rest) =
        Perm.append (step-Perm e r) (Perm.refl rest) in
      rw (append_assoc calls more r''.in_flight, ← append_assoc r.in_flight own rest)
        (Perm.trans later (rw (← append_assoc calls r'.in_flight rest) now))

  -- Whatever the events, where any number of flushes may have taken their batch and not yet called
  -- `onFlush`, and call it in any order: `onFlush` was given, or is yet to be given by a flush in
  -- flight, each batch that was in flight or was taken, exactly once. For every key, the items of the
  -- batches taken, in the order they were taken, followed by those still pending, are those that were
  -- pending before and then those added, in the order they were added.
  pub run_conserves :
      (events : List (Event A)) (r : Running A)
      → Perm ((run events r).1 ++ (run events r).0.in_flight) (r.in_flight ++ taken events r)
        × ((k : Text)
            → delivered k (taken events r) ++ pending k (run events r).0.batcher
              ≡ pending k r.batcher ++ added_items k events)
  run_conserves events r = (run-Perm events r, taken_conserves events r)

  pending-flush_keys :
      (s : Bool) (keys : List Text) (b : Batcher A) (k : Text)
      → pending k (flush_keys s keys b).0 ≡ (if listed k keys then [] else pending k b)
  unfolding flush_keys listed
  pending-flush_keys s [] b k = refl
  pending-flush_keys s (j ∷ keys) b k =
      ground (arith, pending-flush_keys s keys (flush s b j).0 k, pending-flush s b j k)

  flush_keys_conserves :
      (s : Bool) (keys : List Text) (b : Batcher A) (k : Text)
      → delivered k (flush_keys s keys b).1 ++ pending k (flush_keys s keys b).0 ≡ pending k b
  unfolding flush_keys
  flush_keys_conserves s [] b k = unfold delivered in refl
  flush_keys_conserves s (j ∷ keys) b k =
      simp (delivered-append, append_assoc, flush_keys_conserves s keys (flush s b j).0 k)
        (flush_conserves s b j k)

  unlisted_pending :
      (items : Dict (List A)) (k : Text)
      → listed k (map (λ e. e.0) items) ≡ false
      → Dict.get k items ≡ none
  unfolding listed Dict.get
  unlisted_pending [] k h = refl
  unlisted_pending ((j, xs) ∷ items) k h = ground (arith, unlisted_pending items k)

  -- `FlushAll` leaves nothing pending, and gives `onFlush` everything that was, key by key, in
  -- order.
  pub flush_all_lem :
      (s : Bool) (b : Batcher A) (k : Text)
      → (pending k (flush_all s b).0 ≡ []) × (delivered k (flush_all s b).1 ≡ pending k b)
  unfolding flush_all
  flush_all_lem s b k =
      let keys = map (λ e. e.0) b.items in
      let nothing : pending k (flush_keys s keys b).0 ≡ [] =
        unfold pending in
        ground (arith, pending-flush_keys s keys b k, unlisted_pending b.items k) in
      (
        nothing,
        sym (append-nil (delivered k (flush_keys s keys b).1))
            ∙ ap (λ xs. delivered k (flush_keys s keys b).1 ++ xs) (sym nothing)
            ∙ flush_keys_conserves s keys b k,
      )
