-- ===== src/Cache/Reads.antt =====
-- What a caller of server/cache.go can read after a call, and after any sequence of calls.
use mattermost_plugin_matrix.Prelude.{
  ℕ, suc, ◌+◌, ◌-◌, ◌≤◌, ◌<◌, ◌≡◌, ◌≢◌, refl, ap, sym, ◌∙◌, false, none, some, List, [], ◌∷◌,
  length, length-keep, if◌then◌else◌, arith, Text, ◌==◌, eq_iff, eq_refl,
}
use mattermost_plugin_matrix.Prelude.Int.{ℤ, is_nonpos, room}
use mattermost_plugin_matrix.Cache.{
  Cache, Entry, remove_element, make_room, push_front, refresh, get, set, delete, evict_expired,
  clear, new_cache, stats, len,
}
use mattermost_plugin_matrix.Cache.Invariant.{
  IsValid, get-IsValid, set-IsValid, delete-IsValid, evict_expired-IsValid, clear-IsValid,
  new_cache-IsValid,
}
use mattermost_plugin_matrix.Cache.Spec.{view, find, drop_key, get_spec, set_spec, is_live}
use mattermost_plugin_matrix.Cache.Entries.{take_all, length-map}
use mattermost_plugin_matrix.Cache.Refine.{get-get_spec, set-set_spec, positive_room}
use mattermost_plugin_matrix.Cache.Evict.{evict_expired-is_live, tally-map, capacity-evict_expired}

find-drop_key :
    (k j : Text) (l : List Entry) → find j (drop_key k l) ≡ (if k == j then none else find j l)
unfolding find drop_key
find-drop_key k j [] = ground arith
find-drop_key k j (x ∷ l) =
    ground (arith, eq_iff x.key k, eq_iff x.key j, eq_iff k j, find-drop_key k j l)

-- A value that was set is read back until its time to live is over, if the capacity is positive.
pub get-set_self :
    (now later : ℕ) (c : Cache) (k v : Text)
    → IsValid c
    → is_nonpos c.capacity ≡ false
    → later ≤ now + c.ttl
    → (get later (set now c k v) k).1 ≡ some v
get-set_self now later c k v valid on soon =
    let (n, p) = positive_room c.capacity on in
    (get-get_spec later (set now c k v) k (set-IsValid now c k v valid)).1
    ∙ rw (set-set_spec now c k v valid, p)
        (unfold get_spec set_spec find in ground (arith, eq_refl k))

-- After that it is gone.
pub get-set_late :
    (now later : ℕ) (c : Cache) (k v : Text)
    → IsValid c
    → is_nonpos c.capacity ≡ false
    → now + c.ttl < later
    → (get later (set now c k v) k).1 ≡ none
get-set_late now later c k v valid on late =
    let (n, p) = positive_room c.capacity on in
    (get-get_spec later (set now c k v) k (set-IsValid now c k v valid)).1
    ∙ rw (set-set_spec now c k v valid, p)
        (unfold get_spec set_spec find in ground (arith, eq_refl k))

-- While the cache has room, or already holds the key, `Set` changes what `Get` returns for no
-- other key.
pub get-set_ne :
    (now later : ℕ) (c : Cache) (k j v : Text)
    → IsValid c
    → k ≢ j
    → length (drop_key k (view c)) < room c.capacity
    → (get later (set now c k v) j).1 ≡ (get later c j).1
get-set_ne now later c k j v valid other space =
    let n = room c.capacity - 1 in
    let p : room c.capacity ≡ suc n = omega (arith, space) in
    (get-get_spec later (set now c k v) j (set-IsValid now c k v valid)).1
    ∙ rw (set-set_spec now c k v valid) (
        unfold get_spec set_spec find in
        ground (
          arith,
          p,
          eq_iff k j,
          take_all n (drop_key k (view c)) (omega (arith, space, p)),
          find-drop_key k j (view c),
        ))
    ∙ sym (get-get_spec later c j valid).1

-- The entries that `Stats` counts as expired are those that `EvictExpired` would remove.
pub stats-evict_expired :
    (now : ℕ) (c : Cache)
    → ((stats now c).expired ≡ (evict_expired now c).1)
      × (len (evict_expired now c).0 + (stats now c).expired ≡ (stats now c).size)
unfolding stats len
stats-evict_expired now c =
    let gone = evict_expired-is_live now c in
    (
      tally-map now c.heap c.lru ∙ sym gone.1,
      omega (
        arith,
        tally-map now c.heap c.lru,
        length-map c.heap c.lru,
        length-keep (is_live now) (view c),
        ap length gone.0,
        length-map (evict_expired now c).0.heap (evict_expired now c).0.lru,
      ),
    )

pub data Call : Type 0 where
  read : Text → Call
  store : Text → Text → Call
  forget : Text → Call
  sweep : Call
  reset : Call

-- Calls at the times given, which need not be in order.
unfoldable pub run : List (ℕ × Call) → Cache → Cache
run [] c = c
run ((now, Call.read k) ∷ calls) c = run calls (get now c k).0
run ((now, Call.store k v) ∷ calls) c = run calls (set now c k v)
run ((now, Call.forget k) ∷ calls) c = run calls (delete c k)
run ((now, Call.sweep) ∷ calls) c = run calls (evict_expired now c).0
run ((now, Call.reset) ∷ calls) c = run calls (clear c)

run-IsValid : (calls : List (ℕ × Call)) (c : Cache) → IsValid c → IsValid (run calls c)
unfolding run
run-IsValid [] c v = v
run-IsValid ((now, Call.read k) ∷ calls) c v = run-IsValid calls _ (get-IsValid now c k v)
run-IsValid ((now, Call.store k x) ∷ calls) c v = run-IsValid calls _ (set-IsValid now c k x v)
run-IsValid ((now, Call.forget k) ∷ calls) c v = run-IsValid calls _ (delete-IsValid c k v)
run-IsValid ((now, Call.sweep) ∷ calls) c v = run-IsValid calls _ (evict_expired-IsValid now c v)
run-IsValid ((now, Call.reset) ∷ calls) c v = run-IsValid calls _ (clear-IsValid c)

capacity-get : (now : ℕ) (c : Cache) (k : Text) → (get now c k).0.capacity ≡ c.capacity
unfolding get remove_element
capacity-get now c k = ground arith

capacity-set : (now : ℕ) (c : Cache) (k v : Text) → (set now c k v).capacity ≡ c.capacity
unfolding set make_room push_front refresh remove_element
capacity-set now c k v = ground arith

capacity-delete : (c : Cache) (k : Text) → (delete c k).capacity ≡ c.capacity
unfolding delete remove_element
capacity-delete c k = ground arith

capacity-run : (calls : List (ℕ × Call)) (c : Cache) → (run calls c).capacity ≡ c.capacity
unfolding run
capacity-run [] c = refl
capacity-run ((now, Call.read k) ∷ calls) c = capacity-run calls _ ∙ capacity-get now c k
capacity-run ((now, Call.store k x) ∷ calls) c = capacity-run calls _ ∙ capacity-set now c k x
capacity-run ((now, Call.forget k) ∷ calls) c = capacity-run calls _ ∙ capacity-delete c k
capacity-run ((now, Call.sweep) ∷ calls) c = capacity-run calls _ ∙ capacity-evict_expired now c
capacity-run ((now, Call.reset) ∷ calls) c = capacity-run calls _ ∙ unfold clear in refl

-- Whatever the calls and their times, a new cache never holds more entries than its capacity,
-- and its map and its list hold the same entries.
pub run-new_cache :
    (calls : List (ℕ × Call)) (capacity : ℤ) (ttl : ℕ)
    → IsValid (run calls (new_cache capacity ttl))
      × (len (run calls (new_cache capacity ttl)) ≤ room capacity)
unfolding len new_cache
run-new_cache calls capacity ttl =
    let v = run-IsValid calls (new_cache capacity ttl) (new_cache-IsValid capacity ttl) in
    let same = capacity-run calls (new_cache capacity ttl) in
    (v, omega (arith, v.bounded, ap room same))
