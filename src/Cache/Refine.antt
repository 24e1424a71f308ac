-- ===== src/Cache/Refine.antt =====
-- server/cache.go implements its specification: each operation on pointers is the operation of
-- the specification on the list of entries.
use mattermost_plugin_matrix.Prelude.{
  ℕ, zero, suc, ◌+◌, ◌≤◌, ◌≡◌, refl, sym, true, false, none, some, List, [], ◌∷◌, length, take, map,
  eqb_iff, arith, Text, Option-cases, inl, inr, Bool-cases,
}
use mattermost_plugin_matrix.Prelude.Dict
use mattermost_plugin_matrix.Prelude.Int.{ℤ, is_nonpos, reaches, room}
use mattermost_plugin_matrix.Cache.{
  Cache, Entry, unlink, back, holds, move_to_front, write, remove_element, get, make_room,
  push_front, refresh, set, delete, expired,
}
use mattermost_plugin_matrix.Cache.Heap.{holds-unlink, length-unlink, back-none}
use mattermost_plugin_matrix.Cache.Invariant.{IsValid, make_room-IsValid, make_room_frame}
use mattermost_plugin_matrix.Cache.Spec.{view, drop_key, get_spec, set_spec}
use mattermost_plugin_matrix.Cache.Entries.{
  IsOnly, IsFree, find-hit, find-miss, drop_key-miss, map-unlink, map-unlink-back, map-write_absent,
  length-map, take_all,
}

-- The elements that a valid cache has for a key.
module _ (c : Cache) (v : IsValid c) (k : Text) where
  absent-IsFree : Dict.get k c.items ≡ none → IsFree c.heap k c.lru
  absent-IsFree absent d h = λ p. ground (arith, v.listed d h)

  found-IsOnly : (e : ℕ) → Dict.get k c.items ≡ some e → IsOnly c.heap k e c.lru
  found-IsOnly e found d h p = ground (arith, v.listed d h)

  view-remove_element :
      (e : ℕ) → Dict.get k c.items ≡ some e → view (remove_element c e) ≡ drop_key k (view c)
  unfolding remove_element
  view-remove_element e found =
      map-unlink c.heap k e c.lru (v.indexed k e found).1 (found-IsOnly e found)

  map-move_to_front :
      (heap : ℕ → Entry) (e : ℕ)
      → holds e c.lru ≡ true
      → map heap (move_to_front e c.lru) ≡ heap e ∷ map heap (unlink e c.lru)
  unfolding move_to_front
  map-move_to_front heap e h = rw h

  get_absent :
      (now : ℕ)
      → Dict.get k c.items ≡ none
      → (view (get now c k).0 ≡ (get_spec now k (view c)).0)
        × ((get now c k).1 ≡ (get_spec now k (view c)).1)
  unfolding get get_spec
  get_absent now absent = ground (arith, find-miss c.heap k c.lru (absent-IsFree absent))

  get_found :
      (now e : ℕ)
      → Dict.get k c.items ≡ some e
      → (view (get now c k).0 ≡ (get_spec now k (view c)).0)
        × ((get now c k).1 ≡ (get_spec now k (view c)).1)
  unfolding get get_spec expired
  get_found now e found = ground (
    arith,
    find-hit c.heap k e c.lru (v.indexed k e found).1 (v.indexed k e found).0
        (found-IsOnly e found),
    view-remove_element e found,
    map-move_to_front c.heap e (v.indexed k e found).0,
    map-unlink c.heap k e c.lru (v.indexed k e found).1 (found-IsOnly e found),
  )

-- On a valid cache `Get` returns what the specification returns, and leaves its list: a live entry
-- comes to the front, an expired one is gone, a missing key changes nothing.
pub get-get_spec :
    (now : ℕ) (c : Cache) (k : Text)
    → IsValid c
    → (view (get now c k).0 ≡ (get_spec now k (view c)).0)
      × ((get now c k).1 ≡ (get_spec now k (view c)).1)
get-get_spec now c k v = elim (Option-cases (Dict.get k c.items)) [
  | inl absent ↦ get_absent c v k now absent
  | inr (e, found) ↦ get_found c v k now e found
]

-- `Delete` removes the entry of its key and no other, and keeps the order.
pub delete-drop_key : (c : Cache) (k : Text) → IsValid c → view (delete c k) ≡ drop_key k (view c)
unfolding delete
delete-drop_key c k v = elim (Option-cases (Dict.get k c.items)) [
  | inl absent ↦
      rw (absent, delete) (sym (drop_key-miss c.heap k c.lru (absent-IsFree c v k absent)))
  | inr (e, found) ↦ rw (found, delete) (view-remove_element c v k e found)
]

length-drop_key-le : (k : Text) (l : List Entry) → length (drop_key k l) ≤ length l
unfolding drop_key
length-drop_key-le k [] = omega arith
length-drop_key-le k (x ∷ l) = ground (arith, length-drop_key-le k l)

view-refresh :
    (now : ℕ) (c : Cache) (k value : Text) (e : ℕ)
    → IsValid c
    → Dict.get k c.items ≡ some e
    → view (refresh now c e value)
      ≡ record { key = k; value = value; expires_at = now + c.ttl } ∷ drop_key k (view c)
unfolding refresh write
view-refresh now c k value e v found = ground (
  arith,
  map-move_to_front c v k (write c.heap e x) e (v.indexed k e found).0,
  map-write_absent c.heap e x (unlink e c.lru)
      (unfold write in ground (arith, holds-unlink e e c.lru, eqb_iff e e)),
  map-unlink c.heap k e c.lru (v.indexed k e found).1 (found-IsOnly c v k e found),
  v.indexed k e found,
  eqb_iff e e,
)
  where
    x : Entry
    x = record (c.heap e) { value = value; expires_at = now + c.ttl }

-- A valid cache that holds a key has room for its entry.
refresh_fits :
    (c : Cache) (k : Text) (e : ℕ)
    → IsValid c
    → Dict.get k c.items ≡ some e
    → length (drop_key k (view c)) + 1 ≤ room c.capacity
refresh_fits c k e v found =
    rw (← map-unlink c.heap k e c.lru (v.indexed k e found).1 (found-IsOnly c v k e found)) (
      omega (
        arith,
        length-map c.heap (unlink e c.lru),
        length-unlink e c.lru v.chain (v.indexed k e found).0,
        v.bounded,
      ))

view-make_room :
    (c : Cache) (n : ℕ)
    → IsValid c
    → is_nonpos c.capacity ≡ false
    → room c.capacity ≡ suc n
    → map c.heap (make_room c).lru ≡ take n (view c)
unfolding make_room remove_element
view-make_room c n v on p = elim (Bool-cases (reaches (length c.lru) c.capacity)) [
  | inr loose ↦ rw loose (sym (take_all n (view c) (ground (arith, length-map c.heap c.lru))))
  | inl full ↦ elim (Option-cases (back c.lru)) [
    | inl empty ↦ absurd (ground (arith, back-none c.lru))
    | inr (e, last) ↦
        rw (full, last, make_room)
          (map-unlink-back c.heap c.lru e n last v.chain (ground (arith, v.bounded)))
  ]
]

view-push_front :
    (now : ℕ) (c : Cache) (k value : Text)
    → holds c.next c.lru ≡ false
    → view (push_front now c k value)
      ≡ record { key = k; value = value; expires_at = now + c.ttl } ∷ view c
unfolding push_front write
view-push_front now c k value free = ground (
  arith,
  eqb_iff c.next c.next,
  map-write_absent c.heap c.next (record { key = k; value = value; expires_at = now + c.ttl }) c.lru
      free,
)

next_free : (c : Cache) → IsValid c → holds c.next c.lru ≡ false
next_free c v = elim (Bool-cases (holds c.next c.lru)) [
  | inl listed ↦ absurd (omega (arith, v.fresh c.next listed))
  | inr free ↦ free
]

pub positive_room : (z : ℤ) → is_nonpos z ≡ false → (n : ℕ) × (room z ≡ suc n)
positive_room (ℤ.pos zero) h = absurd (ground arith)
positive_room (ℤ.pos (suc n)) h = (n, refl)
positive_room (ℤ.negsuc n) h = absurd (ground arith)

empty_view :
    (c : Cache) → IsValid c → is_nonpos c.capacity ≡ true → (view c ≡ []) × (room c.capacity ≡ 0)
empty_view c v off = go c.lru c.capacity off v.bounded
  where
    go :
        (l : List ℕ) (z : ℤ)
        → is_nonpos z ≡ true
        → length l ≤ room z
        → (map c.heap l ≡ []) × (room z ≡ 0)
    go [] (ℤ.pos n) h b = ground arith
    go [] (ℤ.negsuc n) h b = (refl, refl)
    go (d ∷ l) (ℤ.pos n) h b = absurd (ground arith)
    go (d ∷ l) (ℤ.negsuc n) h b = absurd (omega arith)

set_found :
    (now : ℕ) (c : Cache) (k value : Text) (e n : ℕ)
    → IsValid c
    → room c.capacity ≡ suc n
    → Dict.get k c.items ≡ some e
    → view (refresh now c e value) ≡ set_spec (room c.capacity) now c.ttl k value (view c)
unfolding set_spec
set_found now c k value e n v p found = ground (
  arith,
  view-refresh now c k value e v found,
  take_all n (drop_key k (view c)) (omega (arith, refresh_fits c k e v found)),
)

set_absent :
    (now : ℕ) (c : Cache) (k value : Text) (n : ℕ)
    → IsValid c
    → is_nonpos c.capacity ≡ false
    → room c.capacity ≡ suc n
    → Dict.get k c.items ≡ none
    → view (push_front now (make_room c) k value)
      ≡ set_spec (room c.capacity) now c.ttl k value (view c)
unfolding set_spec
set_absent now c k value n v on p absent =
    let (_, heap, _, ttl, _) = make_room_frame c k in
    ground (
      arith,
      heap,
      ttl,
      view-push_front now (make_room c) k value (next_free (make_room c) (make_room-IsValid c v)),
      view-make_room c n v on p,
      drop_key-miss c.heap k c.lru (absent-IsFree c v k absent),
    )

-- On a valid cache `Set` puts the entry in front with its new expiry, keeps the others in order,
-- and forgets what lies beyond the capacity: at most the least recently used entry. With a
-- capacity of zero or less it stores nothing.
pub set-set_spec :
    (now : ℕ) (c : Cache) (k value : Text)
    → IsValid c
    → view (set now c k value) ≡ set_spec (room c.capacity) now c.ttl k value (view c)
unfolding set set_spec
set-set_spec now c k value v = elim (Bool-cases (is_nonpos c.capacity)) [
  | inl off ↦ ground (arith, empty_view c v off)
  | inr on ↦
      let (n, p) = positive_room c.capacity on in
      elim (Option-cases (Dict.get k c.items)) [
        | inr (e, found) ↦
            rw (on, found, set) (unfold set_spec in set_found now c k value e n v p found)
        | inl absent ↦
            rw (on, absent, set) (unfold set_spec in set_absent now c k value n v on p absent)
      ]
]
