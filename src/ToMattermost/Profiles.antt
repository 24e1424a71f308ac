-- ===== src/ToMattermost/Profiles.antt =====
-- server/sync_to_mattermost.go: the profile of a Mattermost user that stands for a Matrix user, brought
-- up to date from an event or from what the Matrix server has.
pub mod Current
use mattermost_plugin_matrix.Prelude.{
  ◌≡◌, Bool, true, false, ◌||◌, not, Option, none, some, [], Text, ◌==◌, if◌then◌else◌,
}
use mattermost_plugin_matrix.Store.{or_same}
use mattermost_plugin_matrix.Mattermost.{MattermostServer, User}
use mattermost_plugin_matrix.ToMattermost.{SyncClient, UserProfile}
use mattermost_plugin_matrix.ToMattermost.Names.{parse_display_name}

-- The user with the names of the profile, and the user itself if the profile has none.
unfoldable pub with_names : UserProfile → User → User
with_names profile user = if profile.display_name == [] then user else record user {
  nickname = profile.display_name;
  first_name = (parse_display_name profile.display_name).0;
  last_name = (parse_display_name profile.display_name).1;
}

-- `needsUpdate`: if any of the names differs
unfoldable pub needs_update : User → User → Bool
needs_update user updated =
    not (user.nickname == updated.nickname)
    || not (user.first_name == updated.first_name)
    || not (user.last_name == updated.last_name)

-- `compareImageData`; a missing image, of which nothing is compared, differs from all
unfoldable pub compare_image_data : Option Text → Text → Bool
compare_image_data none new_data = false
compare_image_data (some current_data) new_data = current_data == new_data

module _ {S : Type 0} (mm : MattermostServer S) (client : Option SyncClient) where
  -- `downloadMatrixAvatar`
  unfoldable pub download_matrix_avatar : Text → Option Text
  download_matrix_avatar url = elim client [ none ↦ none | some c ↦ c.download_avatar url ]

  -- `updateMattermostUserAvatar`
  unfoldable pub update_mattermost_user_avatar : User → Text → S → S
  update_mattermost_user_avatar user url s = elim (download_matrix_avatar url) [
    | none ↦ s
    | some image ↦
        if compare_image_data (mm.get_profile_image user.id s) image
        then s
        else or_same s (mm.set_profile_image user.id image s)
  ]

  -- `updateMattermostUserProfile`, once the profile is known
  unfoldable pub apply_profile : User → UserProfile → S → S
  apply_profile user profile s =
      let updated = with_names profile user in
      let named = (if needs_update user updated then or_same s (mm.update_user updated s) else s) in
      if profile.avatar_url == []
      then named
      else update_mattermost_user_avatar user profile.avatar_url named

  -- `updateMattermostUserProfile`, with the profile of an event or, without one, the one that the
  -- Matrix server has
  unfoldable pub update_mattermost_user_profile : User → Text → Option UserProfile → S → S
  update_mattermost_user_profile user matrix_user_id given s = elim client [
    | none ↦ s
    | some c ↦ elim given [
      | some profile ↦ apply_profile user profile s
      | none ↦ elim (c.get_user_profile matrix_user_id) [
        | none ↦ s
        | some profile ↦ apply_profile user profile s
      ]
    ]
  ]

  -- `updateExistingUserProfile`
  unfoldable pub update_existing_user_profile : Text → Text → UserProfile → S → S
  update_existing_user_profile user_id matrix_user_id profile s = elim (mm.get_user user_id s) [
    | none ↦ s
    | some user ↦ update_mattermost_user_profile user matrix_user_id (some profile) s
  ]
