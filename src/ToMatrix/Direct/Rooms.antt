-- ===== src/ToMatrix/Direct/Rooms.antt =====
-- The search for the Matrix users of a direct channel (server/sync_to_matrix.go) leaves the cache of
-- rooms as it is.
use mattermost_plugin_matrix.Prelude.{
  ℕ, ◌≡◌, refl, ◌∙◌, Option, Option-cases, Bool-cases, inl, inr, List, [], ◌∷◌, Text, ◌==◌,
}
use mattermost_plugin_matrix.Event.{or_empty}
use mattermost_plugin_matrix.Store.{KvStore, build_ghost_user_key}
use mattermost_plugin_matrix.Cache.{Cache}
use mattermost_plugin_matrix.Mapping.{MatrixClient, look_up}
use mattermost_plugin_matrix.Mattermost.{MattermostServer}
use mattermost_plugin_matrix.ToMatrix.{MatrixServer, MatrixBridge, MatrixSettings}
use mattermost_plugin_matrix.ToMatrix.Users.{
  get_ghost_user, keep_ghost_user, create_ghost, create_or_get_ghost_user,
}
use mattermost_plugin_matrix.ToMatrix.Reactions.{is_remote}
use mattermost_plugin_matrix.ToMatrix.Direct.{dm_user, dm_users}

-- The cache of rooms.
abbrev pub rooms_of : {S : Type 0} → MatrixBridge S → Option Cache
rooms_of b = b.bridge.room_mapping_cache

module _ {S : Type 0} (kv : KvStore S) (mm : MattermostServer S) (mx : MatrixServer S)
    (rooms : MatrixClient) (settings : MatrixSettings) where
  get_ghost_user-rooms_of :
      (now : ℕ) (user : Text) (b : MatrixBridge S)
      → rooms_of (get_ghost_user kv mm mx settings now user b).0 ≡ rooms_of b
  unfolding get_ghost_user
  get_ghost_user-rooms_of now user b =
      let key = build_ghost_user_key user in
      elim (Option-cases (look_up now key b.ghost_user_cache).1) [
        | inr (ghost, e) ↦ rw (e, get_ghost_user) refl
        | inl e ↦
            rw (e, get_ghost_user)
              (elim (Bool-cases (or_empty (kv.get key b.bridge.store) == [])) [
                | inl f ↦ rw f refl
                | inr f ↦ rw f refl
              ])
      ]

  create_ghost-rooms_of :
      (now : ℕ) (user : Text) (b : MatrixBridge S)
      → rooms_of (create_ghost kv mm mx settings now user b).0 ≡ rooms_of b
  unfolding create_ghost keep_ghost_user
  create_ghost-rooms_of now user b = elim (Option-cases (mm.get_user user b.bridge.store)) [
    | inl e ↦ rw (e, create_ghost) refl
    | inr (found, e) ↦
        let made =
          mx.create_ghost_user user (settings.display_name_of found)
            (mm.get_profile_image user b.bridge.store) b.bridge.store in
        rw (e, create_ghost)
          (elim (Option-cases made.1) [
            | inl f ↦ rw (f, create_ghost) refl
            | inr (id, f) ↦ rw (f, create_ghost) refl
          ])
  ]

  create_or_get_ghost_user-rooms_of :
      (now : ℕ) (user : Text) (b : MatrixBridge S)
      → rooms_of (create_or_get_ghost_user kv mm mx settings now user b).0 ≡ rooms_of b
  unfolding create_or_get_ghost_user
  create_or_get_ghost_user-rooms_of now user b =
      let looked = get_ghost_user kv mm mx settings now user b in
      elim (Option-cases looked.1) [
        | inl e ↦
            rw (e, create_or_get_ghost_user)
              (create_ghost-rooms_of now user looked.0 ∙ get_ghost_user-rooms_of now user b)
        | inr (id, e) ↦ rw (e, create_or_get_ghost_user) (get_ghost_user-rooms_of now user b)
      ]

  dm_user-rooms_of :
      (now : ℕ) (user : Text) (b : MatrixBridge S)
      → rooms_of (dm_user kv mm mx rooms settings now user b).0 ≡ rooms_of b
  unfolding dm_user
  dm_user-rooms_of now user b = elim (Option-cases (mm.get_user user b.bridge.store)) [
    | inl e ↦ rw (e, dm_user) refl
    | inr (found, e) ↦
        rw (e, dm_user)
          (elim (Bool-cases (is_remote found)) [
            | inl f ↦ rw f refl
            | inr f ↦ rw f (create_or_get_ghost_user-rooms_of now user b)
          ])
  ]

  pub dm_users-rooms_of :
      (now : ℕ) (users : List Text) (b : MatrixBridge S)
      → rooms_of (dm_users kv mm mx rooms settings now users b).0 ≡ rooms_of b
  unfolding dm_users
  dm_users-rooms_of now [] b = refl
  dm_users-rooms_of now (user ∷ users) b =
      dm_users-rooms_of now users (dm_user kv mm mx rooms settings now user b).0
      ∙ dm_user-rooms_of now user b
