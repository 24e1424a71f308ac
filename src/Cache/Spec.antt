-- ===== src/Cache/Spec.antt =====
-- What server/cache.go promises, with the pointers gone: a list of entries, the most recently
-- used first.
use mattermost_plugin_matrix.Prelude.{
  ℕ, ◌+◌, Bool, Option, none, some, List, [], ◌∷◌, take, map, if◌then◌else◌, Text, ◌==◌, ltb, not,
}
use mattermost_plugin_matrix.Cache.{Cache, Entry}

abbrev pub view : Cache → List Entry
view c = map c.heap c.lru

-- The entry of a key.
unfoldable pub find : Text → List Entry → Option Entry
find k [] = none
find k (x ∷ l) = if x.key == k then some x else find k l

-- All entries but those of a key.
unfoldable pub drop_key : Text → List Entry → List Entry
drop_key k [] = []
drop_key k (x ∷ l) = let rest = drop_key k l in if x.key == k then rest else x ∷ rest

-- A live entry is returned and becomes the most recent; an expired one is dropped.
unfoldable pub get_spec : ℕ → Text → List Entry → List Entry × Option Text
unfolding find drop_key
get_spec now k l = elim (find k l) [
  | none ↦ (l, none)
  | some x ↦ if ltb x.expires_at now then (drop_key k l, none) else (x ∷ drop_key k l, some x.value)
]

-- The new entry stands in front, and only the `n` most recent entries stay.
unfoldable pub set_spec : ℕ → ℕ → ℕ → Text → Text → List Entry → List Entry
unfolding drop_key
set_spec n now ttl k v l =
    take n (record { key = k; value = v; expires_at = now + ttl } ∷ drop_key k l)

unfoldable pub is_live : ℕ → Entry → Bool
is_live now x = not (ltb x.expires_at now)
