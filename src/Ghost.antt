-- ===== src/Ghost.antt =====
-- server/bridge_utils.go and server/matrix_webhook.go: the Matrix users that stand for Mattermost users.
use mattermost_plugin_matrix.Prelude.{
  Bool, false, ◌&&◌, ◌||◌, not, Option, none, some, [], ◌∷◌, ◌++◌, length, drop, take,
  if◌then◌else◌, Text, ◌==◌, lit, has_prefix, index_byte,
}

-- `strings.HasSuffix`
unfoldable pub has_suffix : Text → Text → Bool
unfolding ◌==◌
has_suffix [] suffix = suffix == []
has_suffix (c ∷ s) suffix = let rest = has_suffix s suffix in (c ∷ s) == suffix || rest

abbrev pub ghost_user_prefix : Text
ghost_user_prefix = lit "@_mattermost_"

-- `isGhostUser` of the plugin; `server` is the hostname of the configured URL, none if there is none
unfoldable pub is_ghost_user : Option Text → Text → Bool
unfolding has_suffix
is_ghost_user none user_id = false
is_ghost_user (some server) user_id =
    has_prefix user_id ghost_user_prefix && has_suffix user_id (lit ":" ++ server)

-- `extractMattermostUserIDFromGhost` (server/bridge_utils.go)
unfoldable pub extract_mattermost_user_id_from_ghost : Text → Text
extract_mattermost_user_id_from_ghost ghost_user_id =
    if not (has_prefix ghost_user_id ghost_user_prefix)
    then []
    else let without_prefix = drop (length ghost_user_prefix) ghost_user_id in
      elim (index_byte without_prefix 58) [ none ↦ [] | some i ↦ take i without_prefix ]
