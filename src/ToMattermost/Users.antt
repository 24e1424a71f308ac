-- ===== src/ToMattermost/Users.antt =====
-- server/sync_to_mattermost.go: the Mattermost user of a Matrix user, found by the mapping of the
-- key-value store or created.
pub mod Keeps
mod Tests
pub mod Again
use mattermost_plugin_matrix.Prelude.{
  ◌≡◌, Bool, true, false, Option, none, some, [], ◌++◌, Text, ◌==◌, lit, if◌then◌else◌,
}
use mattermost_plugin_matrix.Store.{
  KvStore, or_same, build_matrix_user_key, build_mattermost_user_key,
}
use mattermost_plugin_matrix.Event.{or_empty}
use mattermost_plugin_matrix.Mattermost.{
  MattermostServer, User, Channel, ChannelType, open_channel, private_channel, direct_channel,
  group_channel,
}
use mattermost_plugin_matrix.ToMattermost.{
  SyncClient, UserProfile, Settings, Outcome, done, failed, replace_byte,
}
use mattermost_plugin_matrix.ToMattermost.Names.{
  extract_username_from_matrix_user_id, generate_mattermost_username, parse_display_name,
}
use mattermost_plugin_matrix.ToMattermost.Profiles.{
  download_matrix_avatar, update_mattermost_user_profile,
}

-- What `getOrCreateMattermostUser` takes from a profile for a new user: the nickname, the first and
-- the last name, and the avatar, which is empty if there is none.
pub record NewProfile : Type 0 where
  pub nickname : Text
  pub names : Text × Text
  pub avatar : Text

-- direct and group channels, and channels without a team
unfoldable pub has_no_team : Channel → Bool
has_no_team channel = elim channel.kind [
  | direct_channel ↦ true
  | group_channel ↦ true
  | open_channel ↦ channel.team_id == []
  | private_channel ↦ channel.team_id == []
]

module _ {S : Type 0} (kv : KvStore S) (mm : MattermostServer S) (client : Option SyncClient)
    (settings : Settings) where
  -- `addUserToChannelTeam`
  unfoldable pub add_user_to_channel_team : Text → Text → S → S × Outcome
  add_user_to_channel_team user_id channel_id s = elim (mm.get_channel channel_id s) [
    | none ↦ (s, failed)
    | some channel ↦
        if has_no_team channel
        then (s, done)
        else if mm.has_team_member channel.team_id user_id s
        then (s, done)
        else elim (mm.create_team_member channel.team_id user_id s) [
          | none ↦ (s, failed)
          | some after ↦ (after, done)
        ]
  ]

  -- the team of the channel, if one is given; an error is only logged
  unfoldable pub join_team : Text → Text → S → S
  join_team user_id channel_id s =
      if channel_id == [] then s else (add_user_to_channel_team user_id channel_id s).0

  -- the first part of `getOrCreateMattermostUser`: the user that the store has, if it still exists;
  -- the mapping of one that does not is removed
  unfoldable pub existing_user : Text → Text → S → S × Option Text
  existing_user matrix_user_id channel_id s =
      let user_id = or_empty (kv.get (build_matrix_user_key matrix_user_id) s) in
      if user_id == [] then (s, none) else elim (mm.get_user user_id s) [
        | none ↦ (or_same s (kv.delete (build_matrix_user_key matrix_user_id) s), none)
        | some user ↦ (
          update_mattermost_user_profile mm client user matrix_user_id none
              (join_team user_id channel_id s),
          some user_id,
        )
      ]

  -- the profile for a new user, with its username where the Matrix server has no name
  unfoldable pub new_profile : Text → Text → NewProfile
  new_profile matrix_user_id username =
      let unnamed : NewProfile = record { nickname = username; names = ([], []); avatar = [] } in
      elim client [
        | none ↦ unnamed
        | some c ↦ elim (c.get_user_profile matrix_user_id) [
          | none ↦ unnamed
          | some profile ↦
              let avatar =
                (if profile.avatar_url == []
                  then []
                  else or_empty (download_matrix_avatar mm (some c) profile.avatar_url)) in
              if profile.display_name == [] then record unnamed { avatar = avatar } else record {
                nickname = profile.display_name;
                names = parse_display_name profile.display_name;
                avatar = avatar;
              }
        ]
      ]

  -- the user that is created; the password is random
  unfoldable pub new_user : Text → NewProfile → User
  new_user mattermost_username profile = record {
    id = [];
    username = mattermost_username;
    email = replace_byte 58 95 mattermost_username ++ lit "@matrix.bridge";
    nickname = profile.nickname;
    first_name = profile.names.0;
    last_name = profile.names.1;
    remote_id = settings.remote_id;
  }

  -- the end of `getOrCreateMattermostUser`, for a user that was created; errors are only logged
  unfoldable pub settle_user : Text → Text → Text → Text → S → S
  settle_user matrix_user_id channel_id id avatar s =
      let pictured = (if avatar == [] then s else or_same s (mm.set_profile_image id avatar s)) in
      let joined = join_team id channel_id pictured in
      let mapped = or_same joined (kv.set (build_matrix_user_key matrix_user_id) id joined) in
      or_same mapped (kv.set (build_mattermost_user_key id) matrix_user_id mapped)

  -- the second part of `getOrCreateMattermostUser`; none is an error
  unfoldable pub create_mattermost_user : Text → Text → S → S × Option Text
  create_mattermost_user matrix_user_id channel_id s =
      let username = extract_username_from_matrix_user_id matrix_user_id in
      if username == []
      then (s, none)
      else let name = generate_mattermost_username mm settings.username_prefix username s in
        let profile = new_profile matrix_user_id username in
        elim (mm.create_user (new_user name profile) s) [
          | none ↦ (s, none)
          | some (created, id) ↦
              (settle_user matrix_user_id channel_id id profile.avatar created, some id)
        ]

  -- `getOrCreateMattermostUser`
  unfoldable pub get_or_create_mattermost_user : Text → Text → S → S × Option Text
  get_or_create_mattermost_user matrix_user_id channel_id s =
      let (checked, user) = existing_user matrix_user_id channel_id s in
      elim user [
        | some user_id ↦ (checked, some user_id)
        | none ↦ create_mattermost_user matrix_user_id channel_id checked
      ]
