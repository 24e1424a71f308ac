-- ===== src/ToMattermost/Members.antt =====
-- server/sync_to_mattermost.go: the member events of Matrix, which move users into and out of Mattermost
-- channels and bring their profiles up to date.
pub mod Leaving
mod Tests
use mattermost_plugin_matrix.Prelude.{
  ℕ, ◌≡◌, Bool, true, false, ◌||◌, not, Option, none, some, List, [], ◌∷◌, if◌then◌else◌, Text,
  ◌==◌, lit, has_prefix,
}
use mattermost_plugin_matrix.Event.{MatrixEvent, text_at, or_empty}
use mattermost_plugin_matrix.Ghost.{ghost_user_prefix}
use mattermost_plugin_matrix.Store.{KvStore, build_matrix_user_key}
use mattermost_plugin_matrix.Mattermost.{MattermostServer, is_some}
use mattermost_plugin_matrix.ToMattermost.{SyncClient, UserProfile, Settings, Outcome, done, failed}
use mattermost_plugin_matrix.ToMattermost.Profiles.{update_existing_user_profile}
use mattermost_plugin_matrix.ToMattermost.Users.{
  add_user_to_channel_team, get_or_create_mattermost_user,
}

-- `isGhostUser` of the bridges (server/bridge_utils.go), which does not look at the server
unfoldable pub is_any_ghost_user : Text → Bool
is_any_ghost_user matrix_user_id = has_prefix matrix_user_id ghost_user_prefix

-- the profile that a member event has, if it has any of it
unfoldable pub profile_in : MatrixEvent → Option UserProfile
profile_in event =
    let display_name = text_at (lit "displayname") event.content in
    let avatar_url = text_at (lit "avatar_url") event.content in
    if is_some display_name || is_some avatar_url
    then some (record { display_name = or_empty display_name; avatar_url = or_empty avatar_url })
    else none

module _ {S : Type 0} (kv : KvStore S) (mm : MattermostServer S) (client : Option SyncClient)
    (settings : Settings) where
  -- `addUserToChannel`
  unfoldable pub add_user_to_channel : Text → Text → S → S × Outcome
  add_user_to_channel user_id channel_id s =
      let (joined, outcome) = add_user_to_channel_team kv mm client settings user_id channel_id s in
      elim outcome [
        | failed ↦ (joined, failed)
        | done ↦ elim (mm.add_channel_member channel_id user_id joined) [
          | none ↦ (joined, failed)
          | some after ↦ (after, done)
        ]
      ]

  -- `ensureUserInChannel`
  unfoldable pub ensure_user_in_channel : Text → Text → S → S × Outcome
  ensure_user_in_channel user_id channel_id s =
      if mm.has_channel_member channel_id user_id s
      then (s, done)
      else add_user_to_channel user_id channel_id s

  -- `removeUserFromChannel`
  unfoldable pub remove_user_from_channel : Text → Text → S → S × Outcome
  remove_user_from_channel user_id channel_id s =
      elim (mm.delete_channel_member channel_id user_id s) [
        | none ↦ (s, failed)
        | some after ↦ (after, done)
      ]

  -- `handleMatrixMemberJoin`; the empty text stands for no existing user
  unfoldable pub handle_matrix_member_join : MatrixEvent → Text → Text → S → S × Outcome
  handle_matrix_member_join event channel existing s =
      if not (existing == [])
      then (let (ensured, outcome) = ensure_user_in_channel existing channel s in
          elim (profile_in event) [
            | none ↦ (ensured, done)
            | some profile ↦
                (update_existing_user_profile mm client existing event.sender profile ensured, done)
          ])
      else (let (ready, user) =
            get_or_create_mattermost_user kv mm client settings event.sender channel s in
          elim user [
            | none ↦ (ready, failed)
            | some user_id ↦ add_user_to_channel user_id channel ready
          ])

  -- `handleMatrixMemberLeave`
  unfoldable pub handle_matrix_member_leave : Text → Text → S → S × Outcome
  handle_matrix_member_leave channel existing s =
      if existing == [] then (s, done) else remove_user_from_channel existing channel s

  -- `syncMatrixMemberEventToMattermost`
  unfoldable pub sync_matrix_member_event_to_mattermost : MatrixEvent → Text → S → S × Outcome
  sync_matrix_member_event_to_mattermost event channel s =
      if is_any_ghost_user event.sender
      then (s, done)
      else elim (text_at (lit "membership") event.content) [
        | none ↦ (s, done)
        | some membership ↦
            let existing = or_empty (kv.get (build_matrix_user_key event.sender) s) in
            if membership == lit "join"
            then handle_matrix_member_join event channel existing s
            else if membership == lit "leave" || membership == lit "ban"
            then handle_matrix_member_leave channel existing s
            else (s, done)
      ]
