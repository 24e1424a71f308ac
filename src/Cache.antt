-- ===== src/Cache.antt =====
-- server/cache.go: the LRU cache with expiry. `list.Element` pointers are numbers, `heap` gives
-- the entry that an element points to, and `lru` is the linked list, most recent first. `now` is
-- the value of `time.Now()` in the call. The proofs stand in the modules below.
pub mod Heap
pub mod Invariant
pub mod Spec
mod Entries
pub mod Refine
pub mod Evict
pub mod Reads
mod Tests
use mattermost_plugin_matrix.Prelude.{
  ℕ, suc, ◌+◌, Bool, true, false, Option, none, some, List, [], ◌∷◌, length, ltb, eqb, tally,
  if◌then◌else◌, Text,
}
use mattermost_plugin_matrix.Prelude.Dict
use mattermost_plugin_matrix.Prelude.Dict.{Dict}
use mattermost_plugin_matrix.Prelude.Int.{ℤ, is_nonpos, reaches}

-- `cacheEntry`
pub record Entry : Type 0 where
  pub key : Text
  pub value : Text
  pub expires_at : ℕ

-- `Cache`; `next` is the next unused pointer
pub record Cache : Type 0 where
  pub capacity : ℤ
  pub ttl : ℕ
  pub items : Dict ℕ
  pub lru : List ℕ
  pub heap : ℕ → Entry
  pub next : ℕ

-- `list.Remove` on the element `e`
unfoldable pub unlink : ℕ → List ℕ → List ℕ
unlink e [] = []
unlink e (d ∷ l) = let rest = unlink e l in if eqb d e then rest else d ∷ rest

-- `list.Back`
unfoldable pub back : List ℕ → Option ℕ
back [] = none
back (d ∷ []) = some d
back (d ∷ c ∷ l) = back (c ∷ l)

-- The list holds the element.
unfoldable pub holds : ℕ → List ℕ → Bool
holds e [] = false
holds e (d ∷ l) = if eqb d e then true else holds e l

-- `list.MoveToFront`: an element of another list stays where it is
unfoldable pub move_to_front : ℕ → List ℕ → List ℕ
unfolding holds unlink
move_to_front e l = if holds e l then e ∷ unlink e l else l

unfoldable pub write : (ℕ → Entry) → ℕ → Entry → ℕ → Entry
write heap e x d = if eqb e d then x else heap d

-- `now.After(entry.expiresAt)`
unfoldable pub expired : ℕ → Entry → Bool
expired now entry = ltb entry.expires_at now

abbrev blank : Entry
blank = record { key = []; value = []; expires_at = 0 }

-- `NewCache`
unfoldable pub new_cache : ℤ → ℕ → Cache
new_cache capacity ttl = record {
  capacity = capacity;
  ttl = ttl;
  items = [];
  lru = [];
  heap = λ _. blank;
  next = 0;
}

-- `removeElement`
unfoldable pub remove_element : Cache → ℕ → Cache
unfolding unlink Dict.remove
remove_element c e = record c { items = Dict.remove (c.heap e).key c.items; lru = unlink e c.lru }

-- `Get`
unfoldable pub get : ℕ → Cache → Text → Cache × Option Text
unfolding remove_element expired move_to_front Dict.get
get now c key = elim (Dict.get key c.items) [
  | none ↦ (c, none)
  | some e ↦
      if expired now (c.heap e)
      then (remove_element c e, none)
      else (record c { lru = move_to_front e c.lru }, some (c.heap e).value)
]

-- the eviction in `Set`
unfoldable pub make_room : Cache → Cache
unfolding remove_element back
make_room c =
    if reaches (length c.lru) c.capacity
    then elim (back c.lru) [ none ↦ c | some oldest ↦ remove_element c oldest ]
    else c

-- the end of `Set`: a new entry at the front
unfoldable pub push_front : ℕ → Cache → Text → Text → Cache
unfolding write Dict.put
push_front now c key value = record c {
  items = Dict.put key c.next c.items;
  lru = c.next ∷ c.lru;
  heap = write c.heap c.next (record { key = key; value = value; expires_at = now + c.ttl });
  next = suc c.next;
}

-- the update of an existing entry in `Set`
unfoldable pub refresh : ℕ → Cache → ℕ → Text → Cache
unfolding write move_to_front
refresh now c e value = record c {
  heap = write c.heap e (record (c.heap e) { value = value; expires_at = now + c.ttl });
  lru = move_to_front e c.lru;
}

-- `Set`
unfoldable pub set : ℕ → Cache → Text → Text → Cache
unfolding make_room push_front refresh Dict.get
set now c key value = if is_nonpos c.capacity then c else elim (Dict.get key c.items) [
  | some e ↦ refresh now c e value
  | none ↦ push_front now (make_room c) key value
]

-- `Delete`
unfoldable pub delete : Cache → Text → Cache
unfolding remove_element Dict.get
delete c key = elim (Dict.get key c.items) [ none ↦ c | some e ↦ remove_element c e ]

-- `Clear`
unfoldable pub clear : Cache → Cache
clear c = record c { items = []; lru = [] }

-- `Len`
unfoldable pub len : Cache → ℕ
len c = length c.lru

-- the loop of `EvictExpired`, which reads the next element before it removes this one
unfoldable pub evict_loop : ℕ → List ℕ → Cache → ℕ → Cache × ℕ
unfolding remove_element expired
evict_loop now [] c evicted = (c, evicted)
evict_loop now (e ∷ rest) c evicted =
    let gone = expired now (c.heap e) in
    evict_loop now rest (if gone then remove_element c e else c)
      (if gone then evicted + 1 else evicted)

-- `EvictExpired`
unfoldable pub evict_expired : ℕ → Cache → Cache × ℕ
unfolding evict_loop
evict_expired now c = evict_loop now c.lru c 0

-- `CacheStats`
pub record CacheStats : Type 0 where
  pub size : ℕ
  pub capacity : ℤ
  pub expired : ℕ

-- `Stats`
unfoldable pub stats : ℕ → Cache → CacheStats
unfolding expired
stats now c = record {
  size = length c.lru;
  capacity = c.capacity;
  expired = tally (λ e. expired now (c.heap e)) c.lru;
}
