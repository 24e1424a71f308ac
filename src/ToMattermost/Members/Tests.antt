-- ===== src/ToMattermost/Members/Tests.antt =====
-- Member events (server/sync_to_mattermost.go) at fixed inputs.
use mattermost_plugin_matrix.Prelude.{
  ◌≡◌, refl, true, false, some, ◌==◌, lit, has_prefix, index_byte,
}
use mattermost_plugin_matrix.Prelude.Dict
use mattermost_plugin_matrix.Event.{find, text_at, end, entry, string, MatrixEvent}
use mattermost_plugin_matrix.Store.{build_matrix_user_key, build_mattermost_user_key}
use mattermost_plugin_matrix.Store.Memory.{value_of}
use mattermost_plugin_matrix.Mattermost.{open_channel}
use mattermost_plugin_matrix.Mattermost.InMemory.{
  Server, server, server_kv, server_kv-IsKvStore, server-IsMattermost,
}
use mattermost_plugin_matrix.ToMattermost.Sample.{client, settings, start, event_with}
use mattermost_plugin_matrix.ToMattermost.Names.{extract_username_from_matrix_user_id}
use mattermost_plugin_matrix.ToMattermost.Users.{
  has_no_team, existing_user, join_team, add_user_to_channel_team, new_profile, new_user,
  settle_user, create_mattermost_user, get_or_create_mattermost_user,
}
use mattermost_plugin_matrix.ToMattermost.Members.{
  is_any_ghost_user, add_user_to_channel, remove_user_from_channel, handle_matrix_member_join,
  handle_matrix_member_leave, sync_matrix_member_event_to_mattermost,
}
use mattermost_plugin_matrix.ToMattermost.Members.Leaving.{sync_matrix_member_event_bans}

program : Unit {0}
unfolding Dict.get Dict.put ◌==◌ has_prefix index_byte find text_at build_matrix_user_key
    build_mattermost_user_key value_of extract_username_from_matrix_user_id has_no_team
    existing_user join_team add_user_to_channel_team new_profile new_user settle_user
    create_mattermost_user get_or_create_mattermost_user is_any_ghost_user add_user_to_channel
    remove_user_from_channel handle_matrix_member_join handle_matrix_member_leave
    sync_matrix_member_event_to_mattermost
program = tt

-- The server with an open channel.
abbrev town : Server
town = record start { channels = λ id. some (record { kind = open_channel; team_id = lit "t" }) }

abbrev join : MatrixEvent
join = event_with (lit "@b:hs") (lit "$4") (entry (lit "membership") (string (lit "join")) end)

abbrev joined : Server
joined =
    (sync_matrix_member_event_to_mattermost server_kv server (some client) settings join (lit "c")
      town).0

-- The moderator @a:hs bans @z:hs.
abbrev ban : MatrixEvent
ban =
    record (event_with (lit "@a:hs") (lit "$5")
      (entry (lit "membership") (string (lit "ban")) end)) { state_key = some (lit "@z:hs") }

abbrev everyone : Server
everyone = record town { members = λ channel user. true }

abbrev banned : Server
banned =
    (sync_matrix_member_event_to_mattermost server_kv server (some client) settings ban (lit "c")
      everyone).0

sync_matrix_member_event_bans_example : banned.members (lit "c") (lit "u") ≡ false
unfolding program
sync_matrix_member_event_bans_example =
    sync_matrix_member_event_bans server_kv server_kv-IsKvStore server server-IsMattermost
      (some client) settings ban (lit "c") everyone banned refl refl refl refl
