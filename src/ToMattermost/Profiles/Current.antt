-- ===== src/ToMattermost/Profiles/Current.antt =====
-- A profile that is up to date is not written again (server/sync_to_mattermost.go).
use mattermost_plugin_matrix.Prelude.{
  ◌≡◌, refl, false, Option, some, Bool-cases, inl, inr, [], Text, ◌==◌, eq_refl, arith,
}
use mattermost_plugin_matrix.Mattermost.{MattermostServer, User}
use mattermost_plugin_matrix.ToMattermost.{SyncClient, UserProfile}
use mattermost_plugin_matrix.ToMattermost.Names.{parse_display_name}
use mattermost_plugin_matrix.ToMattermost.Profiles.{
  with_names, needs_update, compare_image_data, download_matrix_avatar,
  update_mattermost_user_avatar, apply_profile,
}

with_names-with_names :
    (profile : UserProfile) (user : User)
    → needs_update (with_names profile user) (with_names profile (with_names profile user)) ≡ false
unfolding needs_update with_names
with_names-with_names profile user = elim (Bool-cases (profile.display_name == [])) [
  | inl e ↦
      rw e (ground (arith, eq_refl user.nickname, eq_refl user.first_name, eq_refl user.last_name))
  | inr e ↦ rw e (
      ground (
        arith,
        eq_refl profile.display_name,
        eq_refl (parse_display_name profile.display_name).0,
        eq_refl (parse_display_name profile.display_name).1,
      ))
]

module _ {S : Type 0} (mm : MattermostServer S) (client : Option SyncClient) where
  -- A user that has the names of a profile, and its avatar as the image, is left as it is by that
  -- profile: neither the user nor the image is written.
  pub apply_profile_current :
      (user : User) (profile : UserProfile) (image : Text) (s : S)
      → download_matrix_avatar mm client profile.avatar_url ≡ some image
      → mm.get_profile_image (with_names profile user).id s ≡ some image
      → apply_profile mm client (with_names profile user) profile s ≡ s
  unfolding apply_profile update_mattermost_user_avatar compare_image_data
  apply_profile_current user profile image s downloaded current =
      rw (with_names-with_names profile user) (elim (Bool-cases (profile.avatar_url == [])) [
        | inl e ↦ rw e refl
        | inr e ↦
            rw e (
              rw (downloaded, update_mattermost_user_avatar) (rw current (rw (eq_refl image) refl)))
      ])
