-- ===== src/ToMattermost/Tests.antt =====
-- Runs of server/sync_to_mattermost.go at fixed inputs, and its theorems on messages applied to them.
use mattermost_plugin_matrix.Prelude.{
  ℕ, ◌≡◌, refl, inr, ◌∷◌, none, some, ◌==◌, lit, has_prefix, index_byte,
}
use mattermost_plugin_matrix.Prelude.Dict
use mattermost_plugin_matrix.Event.{MatrixEvent, find, text_at, object_at, end, entry, string}
use mattermost_plugin_matrix.Ghost.{extract_mattermost_user_id_from_ghost}
use mattermost_plugin_matrix.Store.{
  build_matrix_user_key, build_mattermost_user_key, build_matrix_event_post_key,
  build_matrix_reaction_key, build_channel_mapping_key,
}
use mattermost_plugin_matrix.Store.Memory.{value_of}
use mattermost_plugin_matrix.Mapping.{Bridge, get_matrix_room_id, look_up, resolve_room_alias}
use mattermost_plugin_matrix.Mattermost.{Post}
use mattermost_plugin_matrix.Mattermost.InMemory.{
  Server, server, server_kv, server_kv-IsKvStore, server-IsMattermost,
}
use mattermost_plugin_matrix.Content.{
  is_edit, is_html_content, body_of, text_of, extract_matrix_message_content,
}
use mattermost_plugin_matrix.Content.Html.{is_html}
use mattermost_plugin_matrix.ToMattermost.{
  get_post_id_from_matrix_event, event_of_channel, room_of_channel, get_thread_root_from_post_id,
  extract_mattermost_metadata, store_matrix_event_post_mapping, extract_server_domain, SyncClient,
  primary_event, post_id_in_metadata, get_post_id_from_related_matrix_event,
}
use mattermost_plugin_matrix.ToMattermost.Sample.{
  server_kv-IsReliable, client, settings, converter, codec, same_name, bridge, hello, edit,
  event_with, edit_relation,
}
use mattermost_plugin_matrix.ToMattermost.Users.{
  get_or_create_mattermost_user, existing_user, join_team, add_user_to_channel_team,
}
use mattermost_plugin_matrix.ToMattermost.Profiles.{update_mattermost_user_profile}
use mattermost_plugin_matrix.ToMattermost.Messages.{
  sync_matrix_message_to_mattermost, sync_new_message, create_and_map, thread_root, post_of,
  props_of, handle_matrix_message_edit, edit_post, is_our_own, is_file,
  convert_matrix_to_mattermost,
}
use mattermost_plugin_matrix.ToMattermost.Messages.Mapped.{
  handle_matrix_message_edit-sync_new_message,
}
use mattermost_plugin_matrix.ToMattermost.Messages.Redacted.{
  sync_matrix_redaction_to_mattermost-sync_new_message,
}
use mattermost_plugin_matrix.ToMattermost.Redactions.{
  handle_post_deletion, redact, sync_matrix_redaction_to_mattermost,
}

program : Unit {0}
unfolding Dict.get Dict.put Dict.remove ◌==◌ has_prefix index_byte find text_at object_at
    extract_mattermost_user_id_from_ghost build_matrix_user_key build_mattermost_user_key
    build_matrix_event_post_key build_matrix_reaction_key build_channel_mapping_key value_of
    get_matrix_room_id look_up is_edit is_html_content body_of text_of
    extract_matrix_message_content is_html get_post_id_from_matrix_event event_of_channel
    room_of_channel get_thread_root_from_post_id extract_mattermost_metadata
    store_matrix_event_post_mapping extract_server_domain primary_event post_id_in_metadata
    get_post_id_from_related_matrix_event get_or_create_mattermost_user existing_user join_team
    add_user_to_channel_team update_mattermost_user_profile sync_matrix_message_to_mattermost
    sync_new_message create_and_map thread_root post_of props_of handle_matrix_message_edit
    edit_post is_our_own is_file convert_matrix_to_mattermost handle_post_deletion redact
    sync_matrix_redaction_to_mattermost resolve_room_alias
program = tt

abbrev sent : Bridge Server
sent = (sync_new_message server_kv server client settings converter 0 hello (lit "c") bridge).0

-- the whole handler does the same
whole :
    (sync_matrix_message_to_mattermost server_kv server client settings converter 0 hello
      (lit "c")
      bridge).0.store.count
    ≡ sent.store.count
unfolding program
whole = refl

-- The channel d has a room, and the Matrix server knows the message.
abbrev knowing : SyncClient
knowing = record client {
  get_event = λ room id. some (entry (lit "type") (string (lit "m.room.message")) end);
}

abbrev roomy : Bridge Server
roomy = record bridge {
  store = record bridge.store {
    stored = (lit "channel_mapping_d", lit "!r") ∷ bridge.store.stored;
  };
}

abbrev redaction : MatrixEvent
redaction = event_with (lit "@b:hs") (lit "$3") (entry (lit "redacts") (string (lit "$1")) end)

abbrev posted : Bridge Server
posted = (sync_new_message server_kv server knowing settings converter 0 hello (lit "c") roomy).0

abbrev gone : Bridge Server
gone =
    (sync_matrix_redaction_to_mattermost server_kv server knowing settings codec same_name 1
      redaction (lit "d") posted).0

abbrev edited : Bridge Server
edited =
    (handle_matrix_message_edit server_kv server client settings converter 1 edit (lit "d") sent).0

sync_matrix_redaction_to_mattermost-sync_new_message_example :
    (post : Post) × (server.get_post post.id posted.store ≡ some post)
    × (post.message
        ≡ extract_matrix_message_content server_kv server converter hello.content roomy.store)
    × (post.channel_id ≡ lit "c")
    × (server.get_post post.id gone.store ≡ none)
unfolding program
sync_matrix_redaction_to_mattermost-sync_new_message_example =
    sync_matrix_redaction_to_mattermost-sync_new_message server_kv server_kv-IsKvStore server
      server-IsMattermost server_kv-IsReliable knowing settings converter codec same_name 0 1 hello
      redaction (lit "c") (lit "d") (lit "!r") roomy posted gone refl refl refl refl
      (inr (entry (lit "type") (string (lit "m.room.message")) end, refl, refl)) refl

handle_matrix_message_edit-sync_new_message_example :
    (post : Post) × (server.get_post post.id sent.store ≡ some post)
    × (post.message
        ≡ extract_matrix_message_content server_kv server converter hello.content bridge.store)
    × (post.channel_id ≡ lit "c")
    × (time : ℕ) × (server.get_post post.id edited.store
        ≡ some (record post {
          message =
              extract_matrix_message_content server_kv server converter edit.content sent.store;
          edit_at = time;
        }))
unfolding program
handle_matrix_message_edit-sync_new_message_example =
    handle_matrix_message_edit-sync_new_message server_kv server_kv-IsKvStore server
      server-IsMattermost server_kv-IsReliable client settings converter 0 1 hello edit
      edit_relation (lit "c") (lit "d") bridge sent edited refl refl refl refl refl
