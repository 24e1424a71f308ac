-- ===== src/Mapping/Cached.antt =====
-- What the caches of a bridge (server/bridge_utils.go over server/cache.go) still give for a key, when
-- they are read and written.
use mattermost_plugin_matrix.Prelude.{
  ℕ, ◌≡◌, refl, sym, ◌∙◌, ap, subst, ◌⊎◌, inl, inr, Option, none, some, Option-cases, Bool-cases,
  Text, eq_refl, arith,
}
use mattermost_plugin_matrix.Prelude.Int.{is_nonpos}
use mattermost_plugin_matrix.Prelude.Dict
use mattermost_plugin_matrix.Prelude.Dict.{get-remove}
use mattermost_plugin_matrix.Cache
use mattermost_plugin_matrix.Cache.{
  Cache, expired, move_to_front, remove_element, back, make_room, push_front, refresh,
}
use mattermost_plugin_matrix.Cache.Invariant.{IsValid, get-IsValid, set-IsValid}
use mattermost_plugin_matrix.Store.{KvStore, IsKvStore, IsReliable, build_channel_mapping_key}
use mattermost_plugin_matrix.Mapping.{Bridge, cache_room, look_up, get_matrix_room_id}
use mattermost_plugin_matrix.Mapping.RoundTrip.{IsReady, look_up-cache_room}

-- At any time the cache gives the value for the key, or nothing.
abbrev pub Agrees : Text → Text → Option Cache → Type 0
Agrees key value cache =
    (t : ℕ) → ((look_up t key cache).1 ≡ none) ⊎ ((look_up t key cache).1 ≡ some value)

-- What the second of two reads can find.
abbrev Reads : ℕ → Text → Cache → Cache → Type 0
Reads later k c after =
    ((Cache.get later after k).1 ≡ none) ⊎ ((Cache.get later after k).1 ≡ (Cache.get later c k).1)

touched :
    (later e : ℕ) (c : Cache) (k : Text)
    → Dict.get k c.items ≡ some e
    → (Cache.get later (record c { lru = move_to_front e c.lru }) k).1 ≡ (Cache.get later c k).1
unfolding Cache.get
touched later e c k found =
    rw (found, Cache.get)
      (elim (Bool-cases (expired later (c.heap e))) [
        | inl old ↦ rw old refl
        | inr live ↦ rw live refl
      ])

removed :
    (later e : ℕ) (c : Cache) (k : Text)
    → IsValid c
    → Dict.get k c.items ≡ some e
    → (Cache.get later (remove_element c e) k).1 ≡ none
unfolding Cache.get remove_element
removed later e c k v found =
    let gone : Dict.get k (Dict.remove (c.heap e).key c.items) ≡ none =
      get-remove (c.heap e).key k c.items ∙ rw ((v.indexed k e found).1, eq_refl k) refl in
    rw (gone, Cache.get) refl

get-get : (now later : ℕ) (c : Cache) (k : Text) → IsValid c → Reads later k c (Cache.get now c k).0
get-get now later c k v = elim (Option-cases (Dict.get k c.items)) [
  | inl absent ↦
      let same : (Cache.get now c k).0 ≡ c = unfold Cache.get in rw (absent, Cache.get) refl in
      subst (Reads later k c) (sym same) (inr refl)
  | inr (e, found) ↦ elim (Bool-cases (expired now (c.heap e))) [
    | inl old ↦
        let same : (Cache.get now c k).0 ≡ remove_element c e =
          unfold Cache.get in rw (found, Cache.get, old) refl in
        subst (Reads later k c) (sym same) (inl (removed later e c k v found))
    | inr live ↦
        let same : (Cache.get now c k).0 ≡ record c { lru = move_to_front e c.lru } =
          unfold Cache.get in rw (found, Cache.get, live) refl in
        subst (Reads later k c) (sym same) (inr (touched later e c k found))
  ]
]

get-capacity : (now : ℕ) (c : Cache) (k : Text) → (Cache.get now c k).0.capacity ≡ c.capacity
unfolding Cache.get remove_element
get-capacity now c k = elim (Option-cases (Dict.get k c.items)) [
  | inl absent ↦ rw (absent, Cache.get) refl
  | inr (e, found) ↦ elim (Bool-cases (expired now (c.heap e))) [
    | inl old ↦ rw (found, Cache.get, old) refl
    | inr live ↦ rw (found, Cache.get, live) refl
  ]
]

make_room-capacity : (c : Cache) → (make_room c).capacity ≡ c.capacity
unfolding make_room remove_element
make_room-capacity c = ground arith

set-capacity :
    (now : ℕ) (c : Cache) (k value : Text) → (Cache.set now c k value).capacity ≡ c.capacity
unfolding Cache.set refresh push_front
set-capacity now c k value = ground (arith, make_room-capacity c)

pub look_up-IsReady :
    (now : ℕ) (key : Text) (cache : Option Cache)
    → IsReady cache
    → IsReady (look_up now key cache).0
unfolding look_up
look_up-IsReady now key none ready = tt
look_up-IsReady now key (some c) (valid, positive) =
    (get-IsValid now c key valid, ap is_nonpos (get-capacity now c key) ∙ positive)

pub cache_room-IsReady :
    (now : ℕ) (key value : Text) (cache : Option Cache)
    → IsReady cache
    → IsReady (cache_room now key value cache)
unfolding cache_room
cache_room-IsReady now key value none ready = tt
cache_room-IsReady now key value (some c) (valid, positive) =
    (set-IsValid now c key value valid, ap is_nonpos (set-capacity now c key value) ∙ positive)

-- A cache that is read gives nothing new.
pub look_up-Agrees :
    (now : ℕ) (key value : Text) (cache : Option Cache)
    → IsReady cache
    → Agrees key value cache
    → Agrees key value (look_up now key cache).0
unfolding look_up
look_up-Agrees now key value none ready agrees later = inl refl
look_up-Agrees now key value (some c) (valid, positive) agrees later =
    elim (get-get now later c key valid) [
      | inl missed ↦ inl missed
      | inr same ↦ elim (agrees later) [
        | inl missed ↦ inl (same ∙ missed)
        | inr hit ↦ inr (same ∙ hit)
      ]
    ]

module _ {S : Type 0} (kv : KvStore S) (stored : IsKvStore kv)
    (reliable : IsReliable kv stored.contents) where
  -- The store has a room for a channel, and the cache of rooms, if there is one, has room for entries
  -- and agrees with it.
  pub record IsCached (channel id : Text) (b : Bridge S) : Type 0 where
    pub ready : IsReady b.room_mapping_cache
    pub agrees : Agrees (build_channel_mapping_key channel) id b.room_mapping_cache
    pub entry : stored.contents (build_channel_mapping_key channel) b.store ≡ id

  -- `GetMatrixRoomID` returns that room, and it stays so.
  pub get_matrix_room_id-IsCached :
      (now : ℕ) (channel id : Text) (b : Bridge S)
      → IsCached channel id b
      → ((get_matrix_room_id kv now channel b).1 ≡ id)
        × IsCached channel id (get_matrix_room_id kv now channel b).0
  unfolding get_matrix_room_id
  get_matrix_room_id-IsCached now channel id b c =
      let key = build_channel_mapping_key channel in
      let looked = (look_up now key b.room_mapping_cache).0 in
      let ready = look_up-IsReady now key b.room_mapping_cache c.ready in
      elim (c.agrees now) [
        | inr hit ↦
            rw (hit, get_matrix_room_id)
              (
                refl,
                record {
                  ready = ready;
                  agrees = look_up-Agrees now key id b.room_mapping_cache c.ready c.agrees;
                  entry = c.entry;
                },
              )
        | inl missed ↦
            rw (missed, get_matrix_room_id)
              (rw (reliable.reads key b.store ∙ ap some c.entry, get_matrix_room_id)
                (
                  refl,
                  record {
                    ready = cache_room-IsReady now key id looked ready;
                    agrees = λ t. look_up-cache_room kv stored now t key id looked ready;
                    entry = c.entry;
                  },
                ))
      ]
