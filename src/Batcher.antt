-- ===== src/Batcher.antt =====
-- server/batcher.go: items grouped by key, flushed together when a timer fires or on demand. A
-- `*time.Timer` is a number, `owner` gives the key that its callback closes over, and `callbacks`
-- holds the timers whose callback has yet to run. `timer.Stop()` cannot stop a callback that has
-- started and waits for the lock: whether it stops one is the argument `stopped`.
pub mod Invariant
pub mod Delivery
mod Tests
use mattermost_plugin_matrix.Prelude.{
  ℕ, zero, suc, ◌<◌, Bool, true, false, Option, none, some, List, [], ◌∷◌, ◌++◌, length, map, ltb,
  eqb, if◌then◌else◌, Text, ◌==◌,
}
use mattermost_plugin_matrix.Prelude.Dict
use mattermost_plugin_matrix.Prelude.Dict.{Dict}

pub record Batcher (A : Type 0) : Type 0 where
  pub items : Dict (List A)
  pub timers : Dict ℕ
  pub owner : ℕ → Text
  pub callbacks : List ℕ
  pub next : ℕ

module _ {A : Type 0} where
  -- `NewBatcher`
  unfoldable pub new_batcher : Batcher A
  new_batcher = record { items = []; timers = []; owner = λ _. []; callbacks = []; next = 0 }

  -- `b.items[key]`, the nil slice for a missing key
  unfoldable pub pending : Text → Batcher A → List A
  unfolding Dict.get
  pending key b = elim (Dict.get key b.items) [ none ↦ [] | some items ↦ items ]

  -- `time.AfterFunc`, stored under the key
  unfoldable pub start_timer : Batcher A → Text → Batcher A
  unfolding Dict.put
  start_timer b key = record b {
    timers = Dict.put key b.next b.timers;
    owner = λ t. if eqb b.next t then key else b.owner t;
    callbacks = b.next ∷ b.callbacks;
    next = suc b.next;
  }

  -- `Add`
  unfoldable pub add : Batcher A → Text → A → Batcher A
  unfolding pending start_timer Dict.put Dict.get
  add b key item =
      let added = record b { items = Dict.put key (pending key b ++ item ∷ []) b.items } in
      elim (Dict.get key b.timers) [ some _ ↦ added | none ↦ start_timer added key ]

-- A timer among those whose callback has yet to run.
unfoldable pub awaits : ℕ → List ℕ → Bool
awaits t [] = false
awaits t (u ∷ l) = if eqb u t then true else awaits t l

-- The callbacks without that of one timer.
unfoldable pub without : ℕ → List ℕ → List ℕ
without t [] = []
without t (u ∷ l) = let rest = without t l in if eqb u t then rest else u ∷ rest

module _ {A : Type 0} where
  -- the part of `Flush` under the lock: the new state, and the items taken
  unfoldable pub take_batch : Bool → Batcher A → Text → Batcher A × List A
  unfolding pending without Dict.get Dict.remove
  take_batch stopped b key =
      let taken = record b { items = Dict.remove key b.items } in
      (
        elim (Dict.get key b.timers) [
          | none ↦ taken
          | some t ↦ record taken {
            timers = Dict.remove key b.timers;
            callbacks = if stopped then without t b.callbacks else b.callbacks;
          }
        ],
        pending key b,
      )

  -- `Flush` up to `Unlock`: the new state, and the call of `onFlush` that it then makes, if any
  unfoldable pub flush : Bool → Batcher A → Text → Batcher A × List (Text × List A)
  unfolding take_batch
  flush stopped b key =
      let (b', items) = take_batch stopped b key in
      (b', if ltb 0 (length items) then (key, items) ∷ [] else [])

  -- the loop of `FlushAll` over the keys that it has collected
  unfoldable pub flush_keys : Bool → List Text → Batcher A → Batcher A × List (Text × List A)
  unfolding flush
  flush_keys stopped [] b = (b, [])
  flush_keys stopped (key ∷ keys) b =
      let (b', calls) = flush stopped b key in
      let (b'', more) = flush_keys stopped keys b' in (b'', calls ++ more)

  -- `FlushAll`, with nothing else between its flushes and their calls
  unfoldable pub flush_all : Bool → Batcher A → Batcher A × List (Text × List A)
  unfolding flush_keys
  flush_all stopped b = flush_keys stopped (map (λ e. e.0) b.items) b

-- A batcher with the flushes that have released the lock and have yet to call `onFlush`.
pub record Running (A : Type 0) : Type 0 where
  pub batcher : Batcher A
  pub in_flight : List (Text × List A)

-- What can happen to a batcher: a call of `Add`; a flush, by hand or by a timer whose callback runs, up
-- to `Unlock`; and the call of `onFlush` by one of the flushes that are in flight, in any order.
-- `FlushAll` is a sequence of flushes, between which other events may come.
pub data Event (A : Type 0) : Type 0 where
  added : Text → A → Event A
  flushed : Bool → Text → Event A
  fired : Bool → ℕ → Event A
  called : ℕ → Event A

-- The element at a place, if there is one, and the others.
unfoldable pub pick_call : {B : Type 0} → ℕ → List B → List B × List B
pick_call n [] = ([], [])
pick_call zero (x ∷ xs) = (x ∷ [], xs)
pick_call (suc n) (x ∷ xs) = let (got, rest) = pick_call n xs in (got, x ∷ rest)

module _ {A : Type 0} where
  -- `Flush` up to `Unlock`: its call of `onFlush` is in flight
  unfoldable pub start_flush : Bool → Batcher A → Text → List (Text × List A) → Running A
  unfolding flush
  start_flush stopped b key in_flight =
      let (b', calls) = flush stopped b key in
      record { batcher = b'; in_flight = in_flight ++ calls }

  -- The state after an event, with the call of `onFlush` that is made.
  unfoldable pub step : Event A → Running A → Running A × List (Text × List A)
  unfolding add start_flush without awaits pick_call
  step (added key item) r = (record r { batcher = add r.batcher key item }, [])
  step (flushed stopped key) r = (start_flush stopped r.batcher key r.in_flight, [])
  step (fired stopped t) r =
      let b = r.batcher in
      if awaits t b.callbacks
      then (
        start_flush stopped (record b { callbacks = without t b.callbacks }) (b.owner t)
            r.in_flight,
        [],
      )
      else (r, [])
  step (called n) r =
      let (calls, rest) = pick_call n r.in_flight in (record r { in_flight = rest }, calls)

  unfoldable pub run : List (Event A) → Running A → Running A × List (Text × List A)
  unfolding step
  run [] r = (r, [])
  run (e ∷ events) r =
      let (r', calls) = step e r in let (r'', more) = run events r' in (r'', calls ++ more)
