-- ===== src/ToMatrix/Users.antt =====
-- server/sync_to_matrix.go: the Matrix users that stand for Mattermost users, as ghost users or, in
-- mirror mode, as users of their own.
pub mod Again
use mattermost_plugin_matrix.Prelude.{
  ℕ, ◌≡◌, Bool, true, false, ◌&&◌, not, Option, none, some, List, [], ◌∷◌, ◌++◌, take,
  if◌then◌else◌, Text, ◌==◌, lit, has_prefix, trim_prefix, index_byte,
}
use mattermost_plugin_matrix.Event.{or_empty}
use mattermost_plugin_matrix.Ghost.{ghost_user_prefix}
use mattermost_plugin_matrix.Store.{
  KvStore, or_same, build_ghost_user_key, build_ghost_room_key, build_mattermost_user_key,
}
use mattermost_plugin_matrix.Mapping.{Bridge, cache_room, look_up}
use mattermost_plugin_matrix.Mattermost.{MattermostServer, User}
use mattermost_plugin_matrix.ToMattermost.{Outcome, done, failed}
use mattermost_plugin_matrix.ToMattermost.Names.{get_matrix_username_prefix}
use mattermost_plugin_matrix.ToMatrix.{MatrixServer, MatrixBridge, MatrixSettings}

-- The state with another store.
abbrev pub with_store : {S : Type 0} → S → MatrixBridge S → MatrixBridge S
with_store s b = record b { bridge = record b.bridge { store = s } }

-- the text in front of the first slash
unfoldable pub without_path : Text → Text
without_path s = elim (index_byte s 47) [ none ↦ s | some i ↦ take i s ]

-- `reconstructMatrixUserIDFromUsername` (server/bridge_utils.go)
unfoldable pub reconstruct_matrix_user_id_from_username : MatrixSettings → Text → Text
reconstruct_matrix_user_id_from_username settings username =
    let prefix = get_matrix_username_prefix settings.username_prefix ++ lit ":" in
    if not (has_prefix username prefix)
    then []
    else if trim_prefix username prefix == []
    then []
    else lit "@"
      ++ trim_prefix username prefix
      ++ lit ":"
      ++ without_path
          (trim_prefix (trim_prefix settings.server_url (lit "https://")) (lit "http://"))

-- the key of a mirrored user
unfoldable pub mirror_user_key : Text → Text
mirror_user_key user_id = lit "mirror_user_" ++ user_id

module _ {S : Type 0} (kv : KvStore S) (mm : MattermostServer S) (mx : MatrixServer S)
    (settings : MatrixSettings) where
  -- `getGhostUser`
  unfoldable pub get_ghost_user : ℕ → Text → MatrixBridge S → MatrixBridge S × Option Text
  get_ghost_user now user_id b =
      let key = build_ghost_user_key user_id in
      let (cache, found) = look_up now key b.ghost_user_cache in
      elim found [
        | some ghost ↦ (record b { ghost_user_cache = cache }, some ghost)
        | none ↦
            let stored = or_empty (kv.get key b.bridge.store) in
            if stored == []
            then (record b { ghost_user_cache = cache }, none)
            else (record b { ghost_user_cache = cache_room now key stored cache }, some stored)
      ]

  -- the end of `CreateOrGetGhostUser`: both caches of a ghost user that was created
  unfoldable pub keep_ghost_user : ℕ → Text → Text → MatrixBridge S → MatrixBridge S
  keep_ghost_user now user_id ghost b =
      let key = build_ghost_user_key user_id in
      record (with_store (or_same b.bridge.store (kv.set key ghost b.bridge.store)) b) {
        ghost_user_cache = cache_room now key ghost b.ghost_user_cache;
      }

  -- the rest of it, for a user that has no ghost user
  unfoldable pub create_ghost : ℕ → Text → MatrixBridge S → MatrixBridge S × Option Text
  create_ghost now user_id b = elim (mm.get_user user_id b.bridge.store) [
    | none ↦ (b, none)
    | some user ↦
        let avatar = mm.get_profile_image user_id b.bridge.store in
        let (created, ghost) =
          mx.create_ghost_user user_id (settings.display_name_of user) avatar b.bridge.store in
        elim ghost [
          | none ↦ (with_store created b, none)
          | some id ↦ (keep_ghost_user now user_id id (with_store created b), some id)
        ]
  ]

  -- `CreateOrGetGhostUser`
  unfoldable pub create_or_get_ghost_user : ℕ → Text → MatrixBridge S → MatrixBridge S × Option Text
  create_or_get_ghost_user now user_id b =
      let (looked, ghost) = get_ghost_user now user_id b in
      elim ghost [ some id ↦ (looked, some id) | none ↦ create_ghost now user_id looked ]

  -- `matrixUserID` of a mirrored user
  unfoldable pub mirror_user_id : User → Text
  mirror_user_id user =
      lit "@"
      ++ user.username
      ++ lit ":"
      ++ (if settings.matrix_server_domain == []
          then lit "synapse"
          else settings.matrix_server_domain)

  -- the registration of a mirrored user; its errors are only logged
  unfoldable pub register_mirror_user : Text → User → S → S
  register_mirror_user user_id user s =
      let password =
        (if settings.mirror_mode_password == []
          then lit "mattermost-mirror-" ++ user_id
          else settings.mirror_mode_password) in
      let registered = mx.register_user user.username password s in
      let name = settings.display_name_of user in
      let named =
        (if settings.sync_user_profiles && not (name == [])
          then mx.set_user_display_name (mirror_user_id user) name registered
          else registered) in
      or_same named (kv.set (mirror_user_key user_id) (mirror_user_id user) named)

  -- `GetMatrixUserID`
  unfoldable pub get_matrix_user_id : ℕ → Text → MatrixBridge S → MatrixBridge S × Option Text
  get_matrix_user_id now user_id b =
      if settings.enable_mirror_mode
      then elim (mm.get_user user_id b.bridge.store) [
        | none ↦ (b, none)
        | some user ↦
            if not (or_empty (kv.get (mirror_user_key user_id) b.bridge.store) == [])
            then (b, some (mirror_user_id user))
            else (
              with_store (register_mirror_user user_id user b.bridge.store) b,
              some (mirror_user_id user),
            )
      ]
      else create_or_get_ghost_user now user_id b

  -- `ensureGhostUserInRoom`
  unfoldable pub ensure_ghost_user_in_room :
      ℕ → Text → Text → Text → MatrixBridge S → MatrixBridge S × Outcome
  ensure_ghost_user_in_room now ghost room_id user_id b =
      let key = build_ghost_room_key user_id room_id in
      let (cache, found) = look_up now key b.room_membership_cache in
      let looked = record b { room_membership_cache = cache } in
      let kept = record b { room_membership_cache = cache_room now key (lit "joined") cache } in
      if or_empty found == lit "joined"
      then (looked, done)
      else if or_empty (kv.get key b.bridge.store) == lit "joined"
      then (kept, done)
      else elim (mx.invite_and_join room_id ghost b.bridge.store) [
        | none ↦ (looked, failed)
        | some joined ↦ (with_store (or_same joined (kv.set key (lit "joined") joined)) kept, done)
      ]

  -- the avatar of `SyncUserToMatrix`; errors are only logged
  unfoldable pub sync_avatar : Text → Text → S → S
  sync_avatar user_id ghost s =
      let image = or_empty (mm.get_profile_image user_id s) in
      if image == [] then s else elim (mx.upload_avatar image s) [
        | none ↦ s
        | some (uploaded, uri) ↦ mx.set_avatar_url ghost uri uploaded
      ]

  -- `SyncUserToMatrix`, which returns no error
  unfoldable pub sync_user_to_matrix : ℕ → User → MatrixBridge S → MatrixBridge S
  sync_user_to_matrix now user b =
      let (looked, ghost) = get_ghost_user now user.id b in
      elim ghost [
        | none ↦ looked
        | some id ↦
            if not (has_prefix id ghost_user_prefix)
            then looked
            else let name = settings.display_name_of user in
              let named =
                (if name == []
                  then looked.bridge.store
                  else mx.set_display_name id name looked.bridge.store) in
              with_store (sync_avatar user.id id named) looked
      ]

  -- `GetMatrixUserIDFromMattermostUser`
  unfoldable pub get_matrix_user_id_from_mattermost_user : Text → S → Option Text
  get_matrix_user_id_from_mattermost_user user_id s =
      let stored = or_empty (kv.get (build_mattermost_user_key user_id) s) in
      if not (stored == []) then some stored else elim (mm.get_user user_id s) [
        | none ↦ none
        | some user ↦
            let id = reconstruct_matrix_user_id_from_username settings user.username in
            if id == [] then none else some id
      ]
