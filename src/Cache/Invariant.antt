-- ===== src/Cache/Invariant.antt =====
-- The invariant of server/cache.go, kept by every operation: the map and the linked list hold the
-- same elements, and the list is no longer than the capacity.
use mattermost_plugin_matrix.Prelude.{
  ℕ, ◌+◌, ◌≤◌, ◌<◌, ◌≡◌, refl, true, false, none, some, List, [], ◌∷◌, length, eqb_iff, arith, Text,
  eq_iff, Option-cases, inl, inr, Bool-cases,
}
use mattermost_plugin_matrix.Prelude.Dict
use mattermost_plugin_matrix.Prelude.Dict.{get-put, get-remove}
use mattermost_plugin_matrix.Prelude.Int.{ℤ, is_nonpos, reaches, room}
use mattermost_plugin_matrix.Cache.{
  Cache, Entry, back, holds, move_to_front, write, remove_element, get, make_room, push_front,
  refresh, set, delete, evict_loop, evict_expired, new_cache, clear, expired,
}
use mattermost_plugin_matrix.Cache.Heap.{
  IsChain, holds-unlink, unlink-IsChain, length-unlink, length-unlink-le, holds-back, back-none,
}

pub record IsValid (c : Cache) : Type 0 where
  pub chain : IsChain c.lru
  pub bounded : length c.lru ≤ room c.capacity
  pub indexed :
      (k : Text) (e : ℕ)
      → Dict.get k c.items ≡ some e
      → (holds e c.lru ≡ true) × ((c.heap e).key ≡ k)
  pub listed : (e : ℕ) → holds e c.lru ≡ true → Dict.get (c.heap e).key c.items ≡ some e
  pub fresh : (e : ℕ) → holds e c.lru ≡ true → e < c.next

pub new_cache-IsValid : (capacity : ℤ) (ttl : ℕ) → IsValid (new_cache capacity ttl)
unfolding new_cache Dict.get holds
new_cache-IsValid capacity ttl = record {
  chain = tt;
  bounded = omega arith;
  indexed = λ k e h. ground arith;
  listed = λ e h. ground arith;
  fresh = λ e h. ground arith;
}

pub clear-IsValid : (c : Cache) → IsValid (clear c)
unfolding clear Dict.get holds
clear-IsValid c = record {
  chain = tt;
  bounded = omega arith;
  indexed = λ k e h. ground arith;
  listed = λ e h. ground arith;
  fresh = λ e h. ground arith;
}

-- Two listed elements with one key are one element.
pub listed_once :
    (c : Cache)
    → IsValid c
    → (e d : ℕ) → holds e c.lru ≡ true
    → holds d c.lru ≡ true
    → (c.heap d).key ≡ (c.heap e).key
    → d ≡ e
listed_once c v e d he hd p = ground (arith, v.listed e he, v.listed d hd)

pub remove_element-IsValid :
    (c : Cache) (e : ℕ) → IsValid c → holds e c.lru ≡ true → IsValid (remove_element c e)
unfolding remove_element
remove_element-IsValid c e v h = record {
  chain = unlink-IsChain e c.lru v.chain;
  bounded = omega (arith, length-unlink-le e c.lru, v.bounded);
  indexed = λ k d p. ground (
    arith,
    get-remove (c.heap e).key k c.items,
    eq_iff (c.heap e).key k,
    v.indexed k d,
    holds-unlink e d c.lru,
  );
  listed = λ d p. ground (
    arith,
    get-remove (c.heap e).key (c.heap d).key c.items,
    eq_iff (c.heap e).key (c.heap d).key,
    v.listed d,
    v.listed e h,
    holds-unlink e d c.lru,
  );
  fresh = λ d p. ground (arith, holds-unlink e d c.lru, v.fresh d);
}

-- Moving a listed element to the front changes the order only.
pub holds-move_to_front :
    (e d : ℕ) (l : List ℕ) → holds e l ≡ true → holds d (move_to_front e l) ≡ holds d l
unfolding move_to_front holds
holds-move_to_front e d l h = ground (arith, holds-unlink e d l)

move_to_front-IsChain : (e : ℕ) (l : List ℕ) → IsChain l → IsChain (move_to_front e l)
unfolding move_to_front
move_to_front-IsChain e l h = ground (arith, holds-unlink e e l, unlink-IsChain e l h)

length-move_to_front : (e : ℕ) (l : List ℕ) → IsChain l → length (move_to_front e l) ≡ length l
unfolding move_to_front
length-move_to_front e l h = ground (arith, length-unlink e l h)

pub touch-IsValid :
    (c : Cache) (e : ℕ)
    → IsValid c
    → holds e c.lru ≡ true
    → IsValid (record c { lru = move_to_front e c.lru })
touch-IsValid c e v h = record {
  chain = move_to_front-IsChain e c.lru v.chain;
  bounded = omega (arith, length-move_to_front e c.lru v.chain, v.bounded);
  indexed = λ k d p. ground (arith, holds-move_to_front e d c.lru h, v.indexed k d);
  listed = λ d p. ground (arith, holds-move_to_front e d c.lru h, v.listed d);
  fresh = λ d p. ground (arith, holds-move_to_front e d c.lru h, v.fresh d);
}

pub get-IsValid : (now : ℕ) (c : Cache) (k : Text) → IsValid c → IsValid (get now c k).0
unfolding get
get-IsValid now c k v = elim (Option-cases (Dict.get k c.items)) [
  | inl absent ↦ rw (absent, get) v
  | inr (e, found) ↦ elim (Bool-cases (expired now (c.heap e))) [
    | inl old ↦ rw (found, get, old) (remove_element-IsValid c e v (v.indexed k e found).0)
    | inr live ↦ rw (found, get, live) (touch-IsValid c e v (v.indexed k e found).0)
  ]
]

pub delete-IsValid : (c : Cache) (k : Text) → IsValid c → IsValid (delete c k)
unfolding delete
delete-IsValid c k v = elim (Option-cases (Dict.get k c.items)) [
  | inl absent ↦ rw (absent, delete) v
  | inr (e, found) ↦ rw (found, delete) (remove_element-IsValid c e v (v.indexed k e found).0)
]

pub make_room-IsValid : (c : Cache) → IsValid c → IsValid (make_room c)
unfolding make_room
make_room-IsValid c v = elim (Bool-cases (reaches (length c.lru) c.capacity)) [
  | inr loose ↦ rw loose v
  | inl full ↦ elim (Option-cases (back c.lru)) [
    | inl empty ↦ rw (full, empty, make_room) v
    | inr (e, last) ↦
        rw (full, last, make_room) (remove_element-IsValid c e v (holds-back c.lru e last))
  ]
]

-- A positive capacity leaves room for one entry after the eviction.
pub make_room_lem :
    (c : Cache)
    → IsValid c
    → is_nonpos c.capacity ≡ false
    → length (make_room c).lru + 1 ≤ room c.capacity
unfolding make_room remove_element
make_room_lem c v h = elim (Option-cases (back c.lru)) [
  | inl empty ↦ ground (arith, v.bounded, back-none c.lru)
  | inr (e, last) ↦ ground (arith, v.bounded, holds-back c.lru e, length-unlink e c.lru v.chain)
]

-- What an eviction leaves alone.
pub make_room_frame :
    (c : Cache) (k : Text)
    → ((make_room c).next ≡ c.next)
      × ((make_room c).heap ≡ c.heap)
      × ((make_room c).capacity ≡ c.capacity)
      × ((make_room c).ttl ≡ c.ttl)
      × (Dict.get k c.items ≡ none → Dict.get k (make_room c).items ≡ none)
unfolding make_room remove_element
make_room_frame c k = elim (Option-cases (back c.lru)) [
  | inl empty ↦ ground arith
  | inr (e, last) ↦ ground (arith, get-remove (c.heap e).key k c.items)
]

pub push_front-IsValid :
    (now : ℕ) (c : Cache) (k value : Text)
    → IsValid c
    → Dict.get k c.items ≡ none
    → length c.lru + 1 ≤ room c.capacity
    → IsValid (push_front now c k value)
unfolding push_front write holds
push_front-IsValid now c k value v absent fits = record {
  chain = (unlisted, v.chain);
  bounded = omega (arith, fits);
  indexed = λ j d p.
      ground
        (arith, get-put k j c.next c.items, eq_iff k j, v.indexed j d, eqb_iff c.next d, unlisted);
  listed = λ d p. ground (
    arith,
    get-put k (c.heap d).key c.next c.items,
    get-put k k c.next c.items,
    eq_iff k (c.heap d).key,
    eq_iff k k,
    v.listed d,
    eqb_iff c.next d,
  );
  fresh = λ d p. ground (arith, v.fresh d, eqb_iff c.next d);
}
  where
    unlisted : holds c.next c.lru ≡ false
    unlisted = elim (Bool-cases (holds c.next c.lru)) [
      | inl listed ↦ absurd (omega (arith, v.fresh c.next listed))
      | inr fresh ↦ fresh
    ]

rewrite-IsValid :
    (c : Cache) (e : ℕ) (x : Entry)
    → IsValid c
    → x.key ≡ (c.heap e).key
    → IsValid (record c { heap = write c.heap e x })
unfolding write
rewrite-IsValid c e x v same = record {
  chain = v.chain;
  bounded = v.bounded;
  indexed = λ k d p. ground (arith, v.indexed k d, eqb_iff e d);
  listed = λ d p. ground (arith, v.listed d, eqb_iff e d);
  fresh = v.fresh;
}

pub refresh-IsValid :
    (now : ℕ) (c : Cache) (e : ℕ) (value : Text)
    → IsValid c
    → holds e c.lru ≡ true
    → IsValid (refresh now c e value)
unfolding refresh
refresh-IsValid now c e value v h =
    let x : Entry = record (c.heap e) { value = value; expires_at = now + c.ttl } in
    touch-IsValid (record c { heap = write c.heap e x }) e (rewrite-IsValid c e x v refl) h

pub set-IsValid : (now : ℕ) (c : Cache) (k value : Text) → IsValid c → IsValid (set now c k value)
unfolding set
set-IsValid now c k value v = elim (Bool-cases (is_nonpos c.capacity)) [
  | inl off ↦ rw off v
  | inr on ↦ elim (Option-cases (Dict.get k c.items)) [
    | inr (e, found) ↦ rw (on, found, set) (refresh-IsValid now c e value v (v.indexed k e found).0)
    | inl absent ↦
        let (_, _, same, _, still) = make_room_frame c k in
        rw (on, absent, set)
          (push_front-IsValid now (make_room c) k value (make_room-IsValid c v) (still absent)
            (rw same (make_room_lem c v on)))
  ]
]

pub evict_loop-IsValid :
    (now : ℕ) (l : List ℕ) (c : Cache) (n : ℕ)
    → IsValid c
    → IsChain l
    → ((d : ℕ) → holds d l ≡ true → holds d c.lru ≡ true)
    → IsValid (evict_loop now l c n).0
unfolding evict_loop
evict_loop-IsValid now [] c n v u sub = v
evict_loop-IsValid now (e ∷ l) c n v u sub = elim (Bool-cases (expired now (c.heap e))) [
  | inl old ↦
      rw (old, evict_loop)
        (evict_loop-IsValid now l (remove_element c e) (n + 1) (remove_element-IsValid c e v listed)
          u.1
          (λ d h.
            unfold remove_element holds in
            ground (arith, holds-unlink e d c.lru, sub d, u.0, eqb_iff e d)))
  | inr live ↦
      rw (live, evict_loop)
        (evict_loop-IsValid now l c n v u.1 (λ d h. unfold holds in ground (arith, sub d)))
]
  where
    listed : holds e c.lru ≡ true
    listed = unfold holds in ground (arith, sub e)

pub evict_expired-IsValid : (now : ℕ) (c : Cache) → IsValid c → IsValid (evict_expired now c).0
unfolding evict_expired
evict_expired-IsValid now c v = evict_loop-IsValid now c.lru c 0 v v.chain (λ d h. h)
