-- ===== src/ToMattermost/Messages/Tests.antt =====
-- The theorems on errors and threads of server/sync_to_mattermost.go applied at fixed inputs.
use mattermost_plugin_matrix.Prelude.{
  ◌≡◌, refl, none, some, [], ◌∷◌, ◌==◌, lit, has_prefix, index_byte, if◌then◌else◌,
}
use mattermost_plugin_matrix.Prelude.Dict
use mattermost_plugin_matrix.Event.{
  find, text_at, object_at, end, entry, string, object, MatrixEvent, Fields,
}
use mattermost_plugin_matrix.Store.{build_matrix_user_key, build_matrix_event_post_key}
use mattermost_plugin_matrix.Store.Memory.{value_of}
use mattermost_plugin_matrix.Mapping.{Bridge}
use mattermost_plugin_matrix.Mattermost.{Post, KeepsPosts}
use mattermost_plugin_matrix.Mattermost.InMemory.{
  Server, nobody, server, server_kv, server_kv-IsKvStore, server-IsMattermost,
}
use mattermost_plugin_matrix.Content.{
  is_edit, is_html_content, body_of, text_of, extract_matrix_message_content,
}
use mattermost_plugin_matrix.Content.Html.{is_html}
use mattermost_plugin_matrix.ToMattermost.{extract_mattermost_metadata}
use mattermost_plugin_matrix.ToMattermost.Sample.{
  server_kv-IsReliable, client, settings, converter, bridge, event_with,
}
use mattermost_plugin_matrix.ToMattermost.Names.{extract_username_from_matrix_user_id}
use mattermost_plugin_matrix.ToMattermost.Users.{
  existing_user, create_mattermost_user, get_or_create_mattermost_user,
}
use mattermost_plugin_matrix.ToMattermost.Messages.{
  sync_matrix_message_to_mattermost, sync_new_message, is_our_own, is_file, replied_to, thread_root,
  file_root,
}
use mattermost_plugin_matrix.ToMattermost.Messages.Mapped.{IsPostOf}
use mattermost_plugin_matrix.ToMattermost.Messages.Errors.{
  sync_matrix_message_to_mattermost-Harmless,
}
use mattermost_plugin_matrix.ToMattermost.Messages.Roots.{thread_root-file_root}

program : Unit {0}
unfolding Dict.get ◌==◌ has_prefix index_byte find text_at object_at build_matrix_user_key
    build_matrix_event_post_key value_of is_edit is_html_content body_of text_of
    extract_matrix_message_content is_html extract_mattermost_metadata
    extract_username_from_matrix_user_id existing_user create_mattermost_user
    get_or_create_mattermost_user sync_matrix_message_to_mattermost sync_new_message is_our_own
    is_file replied_to
program = tt

-- The sender is no Matrix user, so that no Mattermost user can be created.
abbrev nameless : MatrixEvent
nameless = event_with (lit "b") (lit "$3") (entry (lit "body") (string (lit "hello")) end)

sync_matrix_message_to_mattermost-Harmless_example :
    KeepsPosts server bridge.store
      (sync_matrix_message_to_mattermost server_kv server client settings converter 0 nameless
        (lit "c")
        bridge).0.store
unfolding program
sync_matrix_message_to_mattermost-Harmless_example =
    sync_matrix_message_to_mattermost-Harmless server_kv server_kv-IsKvStore server
      server-IsMattermost client settings converter 0 nameless (lit "c") bridge refl

-- A reply in the thread of the post r.
abbrev nested : Post
nested = record {
  id = lit "p";
  user_id = lit "u";
  channel_id = lit "c";
  message = lit "hello";
  create_at = 1;
  edit_at = 0;
  root_id = lit "r";
  remote_id = [];
  file_ids = [];
  props = [];
}

abbrev threads : Bridge Server
threads = record {
  store = record nobody {
    stored = (lit "matrix_event_post_$1", lit "p") ∷ [];
    posts = λ id. if id == lit "p" then some nested else none;
  };
  room_mapping_cache = none;
}

nested-IsPostOf : IsPostOf server_kv server_kv-IsKvStore server (lit "$1") nested threads.store
unfolding program
nested-IsPostOf = record { named = refl; mapping = refl; there = refl }

abbrev relation : Fields
relation = entry (lit "m.in_reply_to") (object (entry (lit "event_id") (string (lit "$1")) end)) end

abbrev reply : Fields
reply = entry (lit "m.relates_to") (object relation) end

thread_root-file_root_example :
    ((thread_root server_kv server client settings converter 0 reply (lit "c") threads).1 ≡ lit "r")
    × ((file_root server_kv server client settings converter 0 reply (lit "c") threads).1 ≡ lit "p")
unfolding program
thread_root-file_root_example =
    thread_root-file_root server_kv server_kv-IsKvStore server server-IsMattermost
      server_kv-IsReliable client settings converter 0 reply relation (lit "$1") (lit "c") nested
      threads refl refl nested-IsPostOf refl
