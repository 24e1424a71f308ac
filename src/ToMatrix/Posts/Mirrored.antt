-- ===== src/ToMatrix/Posts/Mirrored.antt =====
-- Posts in mirror mode (server/sync_to_matrix.go): `GetMatrixUserID` finds who sends a post,
-- `getGhostUser` who deletes it.
use mattermost_plugin_matrix.Prelude.{
  ℕ, ◌≡◌, refl, ◌∙◌, ap, true, false, ◌&&◌, not, none, some, Option-cases, Bool-cases, inl, inr, [],
  Text, ◌==◌, lit,
}
use mattermost_plugin_matrix.Event.{or_empty}
use mattermost_plugin_matrix.Store.{
  KvStore, IsKvStore, or_same, build_ghost_user_key, key_prefix_ghost_user,
}
use mattermost_plugin_matrix.Store.Keys.{diverges, eq-diverges}
use mattermost_plugin_matrix.Mapping.{MatrixClient, look_up, get_matrix_room_id, resolve_room_alias}
use mattermost_plugin_matrix.Mattermost.{MattermostServer, User, Post}
use mattermost_plugin_matrix.ToMattermost.Lookups.{get_matrix_room_id-store}
use mattermost_plugin_matrix.ToMatrix.{
  MatrixServer, MatrixBridge, MatrixSettings, event_id_of, RoomOf, unmapped, unresolved, room,
  room_of,
}
use mattermost_plugin_matrix.ToMatrix.Users.{
  get_ghost_user, mirror_user_key, register_mirror_user, get_matrix_user_id,
}
use mattermost_plugin_matrix.ToMatrix.Posts.{delete_in_room, delete_post_from_matrix}

-- A Matrix server whose registration of users leaves what the plugin stores.
pub record LeavesStore {S : Type 0} (mx : MatrixServer S) (contents : Text → S → Text)
    : Type 0 where
  pub registers :
      (name password key : Text) (s : S)
      → contents key (mx.register_user name password s) ≡ contents key s
  pub names :
      (user name key : Text) (s : S)
      → contents key (mx.set_user_display_name user name s) ≡ contents key s

-- There is no ghost user for a user in the store, and at a time none in the cache.
record HasNoGhost {S : Type 0} (contents : Text → S → Text) (at : ℕ) (user : Text)
    (b : MatrixBridge S) : Type 0 where
  pub uncached : (look_up at (build_ghost_user_key user) b.ghost_user_cache).1 ≡ none
  pub missing : contents (build_ghost_user_key user) b.bridge.store ≡ []

mirror-ghost : (x y : Text) → (mirror_user_key x == build_ghost_user_key y) ≡ false
unfolding mirror_user_key build_ghost_user_key diverges
mirror-ghost x y = eq-diverges (lit "mirror_user_") key_prefix_ghost_user x y refl

module _ {S : Type 0} (kv : KvStore S) (stored : IsKvStore kv) (mm : MattermostServer S)
    (mx : MatrixServer S) (leaves : LeavesStore mx stored.contents) (rooms : MatrixClient)
    (settings : MatrixSettings) where
  write_mirror-contents :
      (id other value : Text) (s : S)
      → stored.contents
          (build_ghost_user_key other)
          (or_same s (kv.set (mirror_user_key id) value s))
        ≡ stored.contents (build_ghost_user_key other) s
  write_mirror-contents id other value s =
      elim (Option-cases (kv.set (mirror_user_key id) value s)) [
        | inl e ↦ rw e refl
        | inr (after, e) ↦ rw e (
            stored.contents-set (mirror_user_key id) (build_ghost_user_key other) value s after e
            ∙ rw (mirror-ghost id other) refl)
      ]

  register_mirror_user-contents :
      (id other : Text) (user : User) (s : S)
      → stored.contents
          (build_ghost_user_key other)
          (register_mirror_user kv mm mx settings id user s)
        ≡ stored.contents (build_ghost_user_key other) s
  unfolding register_mirror_user
  register_mirror_user-contents id other user s =
      let key = build_ghost_user_key other in
      elim (Bool-cases (settings.sync_user_profiles && not (settings.display_name_of user == []))) [
        | inl e ↦ rw e (
            write_mirror-contents id other _ _
            ∙ leaves.names _ _ key _
            ∙ leaves.registers _ _ key s)
        | inr e ↦ rw e (write_mirror-contents id other _ _ ∙ leaves.registers _ _ key s)
      ]

  get_matrix_user_id-HasNoGhost :
      (now later : ℕ) (user other : Text) (b : MatrixBridge S)
      → settings.enable_mirror_mode ≡ true
      → HasNoGhost stored.contents later other b
      → HasNoGhost stored.contents later other (get_matrix_user_id kv mm mx settings now user b).0
  unfolding get_matrix_user_id
  get_matrix_user_id-HasNoGhost now later user other b mirror free =
      rw mirror (elim (Option-cases (mm.get_user user b.bridge.store)) [
        | inl e ↦ rw (e, get_matrix_user_id) free
        | inr (found, e) ↦
            rw (e, get_matrix_user_id)
              (elim (Bool-cases (or_empty (kv.get (mirror_user_key user) b.bridge.store) == [])) [
                | inr f ↦ rw f free
                | inl f ↦ rw f (record {
                  uncached = free.uncached;
                  missing =
                      register_mirror_user-contents user other found b.bridge.store ∙ free.missing;
                })
              ])
      ])

  room_of_lem :
      (now : ℕ) (channel : Text) (b : MatrixBridge S)
      → (room_of kv rooms now channel b).0
        ≡ record b { bridge = (get_matrix_room_id kv now channel b.bridge).0 }
  unfolding room_of
  room_of_lem now channel b =
      let identifier = (get_matrix_room_id kv now channel b.bridge).1 in
      elim (Bool-cases (identifier == [])) [
        | inl e ↦ rw e refl
        | inr e ↦ rw e (elim (Option-cases (resolve_room_alias rooms identifier)) [
          | inl f ↦ rw (f, room_of) refl
          | inr (id, f) ↦ rw (f, room_of) refl
        ])
      ]

  room_of-store :
      (now : ℕ) (channel : Text) (b : MatrixBridge S)
      → (room_of kv rooms now channel b).0.bridge.store ≡ b.bridge.store
  room_of-store now channel b =
      ap (λ x. x.bridge.store) (room_of_lem now channel b)
      ∙ get_matrix_room_id-store kv now channel b.bridge

  room_of-HasNoGhost :
      (now : ℕ) (channel other : Text) (b : MatrixBridge S)
      → HasNoGhost stored.contents now other b
      → HasNoGhost stored.contents now other (room_of kv rooms now channel b).0
  room_of-HasNoGhost now channel other b free = record {
    uncached =
        ap (λ x. (look_up now (build_ghost_user_key other) x.ghost_user_cache).1)
          (room_of_lem now channel b)
        ∙ free.uncached;
    missing =
        ap (stored.contents (build_ghost_user_key other)) (room_of-store now channel b)
        ∙ free.missing;
  }

  get_ghost_user_missing :
      (now : ℕ) (user : Text) (b : MatrixBridge S)
      → HasNoGhost stored.contents now user b
      → get_ghost_user kv mm mx settings now user b ≡ (
        record b {
          ghost_user_cache = (look_up now (build_ghost_user_key user) b.ghost_user_cache).0;
        },
        none,
      )
  unfolding get_ghost_user ◌==◌
  get_ghost_user_missing now user b free =
      let key = build_ghost_user_key user in
      let empty : or_empty (kv.get key b.bridge.store) ≡ [] =
        elim (Option-cases (kv.get key b.bridge.store)) [
          | inl e ↦ rw e refl
          | inr (value, e) ↦ rw e (stored.contents-get key value b.bridge.store e ∙ free.missing)
        ] in
      rw (free.uncached, get_ghost_user) (rw empty refl)

  delete_in_room_missing :
      (now : ℕ) (post : Post) (user : User) (b : MatrixBridge S) (at : RoomOf)
      → mm.get_user post.user_id b.bridge.store ≡ some user
      → HasNoGhost stored.contents now user.id b
      → (delete_in_room kv mm mx rooms settings now post b at).0.bridge.store ≡ b.bridge.store
  unfolding delete_in_room
  delete_in_room_missing now post user b unmapped got free = refl
  delete_in_room_missing now post user b unresolved got free = refl
  delete_in_room_missing now post user b (room id) got free =
      elim (Bool-cases (event_id_of settings.hostname post == [])) [
        | inl e ↦ rw e refl
        | inr e ↦
            rw (e, got, delete_in_room)
              (let missed = get_ghost_user_missing now user.id b free in
                rw (missed, delete_in_room) (ap (λ x. x.0.bridge.store) missed))
      ]

  -- In mirror mode, if the user of a post has no ghost user in the store, nor at the time of the deletion
  -- in the cache of ghost users, then once the Matrix user of that user was found, as it is for sending
  -- the post, the deletion of the post by that user changes nothing on any server: its message stays in
  -- the room. The registration of Matrix users is taken to leave the store of the plugin as it is.
  pub delete_post_from_matrix-get_matrix_user_id :
      (now later : ℕ) (post : Post) (user : User) (channel : Text) (b : MatrixBridge S)
      → settings.enable_mirror_mode ≡ true
      → (look_up later (build_ghost_user_key user.id) b.ghost_user_cache).1 ≡ none
      → stored.contents (build_ghost_user_key user.id) b.bridge.store ≡ []
      → mm.get_user post.user_id (get_matrix_user_id kv mm mx settings now user.id b).0.bridge.store
        ≡ some user
      → (delete_post_from_matrix kv mm mx rooms settings later post channel
          (get_matrix_user_id kv mm mx settings now user.id b).0).0.bridge.store
        ≡ (get_matrix_user_id kv mm mx settings now user.id b).0.bridge.store
  unfolding delete_post_from_matrix
  delete_post_from_matrix-get_matrix_user_id now later post user channel b mirror uncached missing
        got =
      let sent = (get_matrix_user_id kv mm mx settings now user.id b).0 in
      let free =
        get_matrix_user_id-HasNoGhost now later user.id user.id b mirror
          (record { uncached = uncached; missing = missing }) in
      let (found, at) = room_of kv rooms later channel sent in
      delete_in_room_missing later post user found at
        (ap (mm.get_user post.user_id) (room_of-store later channel sent) ∙ got)
        (room_of-HasNoGhost later channel user.id sent free)
      ∙ room_of-store later channel sent
