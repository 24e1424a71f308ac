-- ===== src/ToMattermost/Reactions/Tests.antt =====
-- A reaction and its removal (server/sync_to_mattermost.go) at fixed inputs.
use mattermost_plugin_matrix.Prelude.{◌≡◌, refl, true, false, ◌&&◌, if◌then◌else◌, Text, ◌==◌, lit}
use mattermost_plugin_matrix.Prelude.Dict
use mattermost_plugin_matrix.Event.{find, text_at, end, entry, string, Fields}
use mattermost_plugin_matrix.Store.{build_matrix_reaction_key}
use mattermost_plugin_matrix.Store.Memory.{value_of}
use mattermost_plugin_matrix.Mapping.{Bridge}
use mattermost_plugin_matrix.Mattermost.InMemory.{
  Server, server, server_kv, server_kv-IsKvStore, server-IsMattermost,
}
use mattermost_plugin_matrix.ToMattermost.Sample.{
  server_kv-IsReliable, client, settings, codec, same_name, bridge, hello,
}
use mattermost_plugin_matrix.ToMattermost.Reactions.{
  ReactionInfo, reaction_of, removal_of, add_and_store, remove_stored, handle_reaction_deletion,
}
use mattermost_plugin_matrix.ToMattermost.Reactions.RoundTrip.{
  handle_reaction_deletion-add_and_store,
}

program : Unit {0}
unfolding Dict.get Dict.put Dict.remove ◌==◌ find text_at build_matrix_reaction_key value_of
    reaction_of removal_of add_and_store remove_stored handle_reaction_deletion
program = tt

abbrev smile : ReactionInfo
smile = record { post_id = lit "p"; user_id = lit "u"; emoji_name = lit "smile" }

abbrev redacted : Fields
redacted = entry (lit "event_id") (string (lit "$1")) end

abbrev reacted : Bridge Server
reacted = (add_and_store server_kv server client settings codec same_name hello smile bridge).0

abbrev gone : Bridge Server
gone =
    (handle_reaction_deletion server_kv server client settings codec same_name redacted reacted).0

handle_reaction_deletion-add_and_store_example :
    (server-IsMattermost.has_reaction (lit "p") (lit "u") (lit "smile") reacted.store ≡ true)
    × ((post user emoji : Text)
        → server-IsMattermost.has_reaction post user emoji gone.store ≡ (
            if post == lit "p" && user == lit "u" && emoji == lit "smile"
            then false
            else server-IsMattermost.has_reaction post user emoji reacted.store))
unfolding program
handle_reaction_deletion-add_and_store_example =
    handle_reaction_deletion-add_and_store server_kv server_kv-IsKvStore server server-IsMattermost
      server_kv-IsReliable client settings codec same_name hello smile redacted bridge reacted gone
      refl refl refl
