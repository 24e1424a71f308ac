-- ===== src/Cache/Tests.antt =====
-- Runs of server/cache.go on small inputs, and its theorems at concrete values.
use mattermost_plugin_matrix.Prelude.{
  ℕ, ◌≤◌, ◌≡◌, ◌≢◌, refl, none, some, List, [], ◌∷◌, arith, ◌==◌, lit,
}
use mattermost_plugin_matrix.Prelude.Dict
use mattermost_plugin_matrix.Prelude.Int.{ℤ, room}
use mattermost_plugin_matrix.Cache.{
  Cache, get, set, delete, evict_expired, new_cache, stats, len, holds,
}
use mattermost_plugin_matrix.Cache.Invariant.{IsValid, set-IsValid, new_cache-IsValid}
use mattermost_plugin_matrix.Cache.Spec.{view, find, drop_key, get_spec, set_spec, is_live}
use mattermost_plugin_matrix.Cache.Refine.{get-get_spec, set-set_spec, delete-drop_key}
use mattermost_plugin_matrix.Cache.Reads.{Call, run, run-new_cache}

program : Unit {0}
unfolding get set delete evict_expired new_cache stats len ◌==◌ Dict.get holds find drop_key
    get_spec set_spec is_live run
program = tt

abbrev empty : Cache
empty = new_cache (ℤ.pos 2) 10

abbrev two : Cache
two = set 1 (set 0 empty (lit "a") (lit "1")) (lit "b") (lit "2")

two-IsValid : IsValid two
two-IsValid =
    set-IsValid 1 (set 0 empty (lit "a") (lit "1")) (lit "b") (lit "2")
      (set-IsValid 0 empty (lit "a") (lit "1") (new_cache-IsValid (ℤ.pos 2) 10))

-- the least recently used entry makes room
evicts : (get 3 (set 2 two (lit "c") (lit "3")) (lit "a")).1 ≡ none
unfolding program
evicts = refl

-- a read protects an entry
protects : (get 3 (set 2 (get 2 two (lit "a")).0 (lit "c") (lit "3")) (lit "a")).1 ≡ some (lit "1")
unfolding program
protects = refl

expires : (get 11 two (lit "a")).1 ≡ none
unfolding program
expires = refl

get-get_spec_example :
    (view (get 5 two (lit "a")).0 ≡ (get_spec 5 (lit "a") (view two)).0)
    × ((get 5 two (lit "a")).1 ≡ (get_spec 5 (lit "a") (view two)).1)
get-get_spec_example = get-get_spec 5 two (lit "a") two-IsValid

set-set_spec_example :
    view (set 2 two (lit "c") (lit "3"))
    ≡ set_spec (room two.capacity) 2 two.ttl (lit "c") (lit "3") (view two)
set-set_spec_example = set-set_spec 2 two (lit "c") (lit "3") two-IsValid

delete-drop_key_example : view (delete two (lit "a")) ≡ drop_key (lit "a") (view two)
delete-drop_key_example = delete-drop_key two (lit "a") two-IsValid

a_not_b : lit "a" ≢ lit "b"
a_not_b h = ground (arith, h)

abbrev calls : List (ℕ × Call)
calls =
    (1, Call.store (lit "a") (lit "1"))
    ∷ (2, Call.store (lit "b") (lit "2"))
    ∷ (3, Call.store (lit "c") (lit "3"))
    ∷ (4, Call.read (lit "a"))
    ∷ (20, Call.sweep)
    ∷ []

run-new_cache_example :
    IsValid (run calls (new_cache (ℤ.pos 2) 10))
    × (len (run calls (new_cache (ℤ.pos 2) 10)) ≤ room (ℤ.pos 2))
run-new_cache_example = run-new_cache calls (ℤ.pos 2) 10
