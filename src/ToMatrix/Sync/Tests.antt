-- ===== src/ToMatrix/Sync/Tests.antt =====
-- Runs of server/sync_to_matrix.go on posts at fixed inputs, and its theorems on them applied.
use mattermost_plugin_matrix.Prelude.{
  ℕ, Text, ◌≡◌, refl, false, none, some, [], ◌∷◌, ◌==◌, lit, has_prefix, index_byte, if◌then◌else◌,
}
use mattermost_plugin_matrix.Prelude.Int.{ℤ}
use mattermost_plugin_matrix.Prelude.Dict
use mattermost_plugin_matrix.Event.{Fields, end, entry, string}
use mattermost_plugin_matrix.Tracker.Posts
use mattermost_plugin_matrix.Tracker.Posts.{
  new_post_tracker, default_max_entries, is_full, add_entry, is_recent, put, delete,
}
use mattermost_plugin_matrix.Tracker.Posts.Bounds.{new_post_tracker-IsValid}
use mattermost_plugin_matrix.Tracker.Files.{new_file_tracker}
use mattermost_plugin_matrix.Mattermost.{Post}
use mattermost_plugin_matrix.Mattermost.InMemory.{Server, server, server_kv}
use mattermost_plugin_matrix.ToMattermost.{done, extract_server_domain}
use mattermost_plugin_matrix.ToMattermost.Sample
use mattermost_plugin_matrix.ToMatrix.{MatrixServer, event_id_of}
use mattermost_plugin_matrix.ToMatrix.Users.{with_store}
use mattermost_plugin_matrix.ToMatrix.Sample.{matrix, settings, start, author, post}
use mattermost_plugin_matrix.ToMatrix.Mentions.{
  names_in, name_at, replace_all, mentions_at, expand, group_at,
}
use mattermost_plugin_matrix.ToMatrix.Attachments.{FileAttachment, attachment_in}
use mattermost_plugin_matrix.ToMatrix.Sending.{MessageRequest, file_content}
use mattermost_plugin_matrix.ToMatrix.Sending.Attached.{message_event, attachment_in-file_content}
use mattermost_plugin_matrix.ToMatrix.Sync.{
  PostServer, Sync, keep_event_id, sync_post_to_matrix_with_resolved_room,
}
use mattermost_plugin_matrix.ToMatrix.Sync.Remote.{sync_post_to_matrix_with_resolved_room_remote}
use mattermost_plugin_matrix.ToMatrix.Reactions.{is_remote}
use mattermost_plugin_matrix.ToMatrix.Sync.Redundant.{with_event, sync_post-keep_event_id}

-- Names of mentions end with a word, and an address has none.
names : names_in false (lit "hi @al.b:c., a@b @here") ≡ lit "al.b:c" ∷ lit "here" ∷ []
unfolding names_in name_at ◌==◌
names = refl

replaced :
    replace_all 0 false (lit "al") (lit "<AL>") (lit "@al, @ali x@al @al")
    ≡ lit "<AL>, @ali x@al <AL>"
unfolding replace_all mentions_at ◌==◌ has_prefix
replaced = refl

-- A dollar in a name is taken for a group.
lost_price :
    expand (λ s. if has_prefix s (lit "5") then 1 else 0) 0 (lit "@al") (lit "Al $5!") ≡ lit "Al !"
unfolding expand group_at ◌==◌ has_prefix
lost_price = refl

abbrev file : FileAttachment
file = record {
  filename = lit "a.png";
  mxc_uri = lit "mxc://a";
  mime_type = lit "image/png";
  size = ℤ.pos 3;
}

abbrev request : MessageRequest
request = record {
  room_id = lit "!r";
  ghost_user_id = lit "@g:hs";
  message = lit "hello";
  html_message = [];
  thread_event_id = [];
  post_id = lit "p";
  files = file ∷ [];
  mentions = [];
}

attachment_in-file_content_example :
    attachment_in (lit "$1") (message_event (file_content (lit "matrix") request file (lit "$1")))
    ≡ (if request.thread_event_id == [] then some file else none)
unfolding ◌==◌
attachment_in-file_content_example =
    attachment_in-file_content (lit "matrix") (lit "$1") request file refl

-- The room has the file of the request.
abbrev attached : MatrixServer Server
attached = record matrix {
  get_relations = λ room event user s.
      some (message_event (file_content (lit "matrix") request file (lit "$1")) ∷ []);
}

abbrev hello_event : Fields
hello_event = message_event (entry (lit "body") (string (lit "hello")) end)

abbrev posts : PostServer Server
posts = record {
  get_file_info = λ id s. some file;
  update_at = λ id s. 4000000;
  get_channel_members = λ c p n s. none;
}

abbrev name_length : Text → ℕ
name_length s = 0

abbrev sync : Sync Server
sync = record {
  matrix = start;
  file_tracker = new_file_tracker;
  post_tracker = new_post_tracker default_max_entries;
}

abbrev new_post : Post
new_post = record post { props = [] }

abbrev updated : Server
updated =
    elim (server.update_post
        (with_event server_kv server posts matrix Sample.rooms settings (lit "matrix") name_length
          new_post (lit "$1"))
        start.bridge.store)
      as (λ x. Server) [ none ↦ start.bridge.store | some s ↦ s ]

sync_post-keep_event_id_example :
    sync_post_to_matrix_with_resolved_room server_kv server posts matrix Sample.rooms settings
      (lit "matrix")
      name_length
      false
      4000000
      4000001
      (with_event server_kv server posts matrix Sample.rooms settings
        (lit "matrix")
        name_length
        new_post
        (lit "$1"))
      (lit "c")
      (lit "!r")
      (keep_event_id server_kv server posts matrix Sample.rooms settings
        (lit "matrix")
        name_length
        4000000
        new_post
        (lit "$1")
        sync)
    ≡ (
      record sync {
        matrix = with_store updated start;
        post_tracker =
            Posts.delete (Posts.put 4000000 sync.post_tracker (lit "p") 4000000).0 (lit "p");
      },
      done,
    )
unfolding Posts.put is_full add_entry is_recent new_post_tracker event_id_of extract_server_domain
    Dict.get Dict.put index_byte ◌==◌
sync_post-keep_event_id_example =
    sync_post-keep_event_id server_kv server posts matrix Sample.rooms settings (lit "matrix")
      name_length 4000000 4000001 new_post (lit "c") (lit "!r") (lit "$1") author updated sync
      (new_post_tracker-IsValid default_max_entries) refl refl refl refl refl refl

-- The author came from Matrix.
sync_post_to_matrix_with_resolved_room_remote_example :
    ((sync_post_to_matrix_with_resolved_room server_kv server posts matrix Sample.rooms settings
        (lit "matrix")
        name_length
        false
        5
        6
        post
        (lit "c")
        (lit "!r")
        sync).1
      ≡ done)
    × ((sync_post_to_matrix_with_resolved_room server_kv server posts matrix Sample.rooms settings
          (lit "matrix")
          name_length
          false
          5
          6
          post
          (lit "c")
          (lit "!r")
          sync).0.matrix
        ≡ sync.matrix)
unfolding is_remote ◌==◌
sync_post_to_matrix_with_resolved_room_remote_example =
    sync_post_to_matrix_with_resolved_room_remote server_kv server posts matrix Sample.rooms
      settings (lit "matrix") name_length 5 6 post (lit "c") (lit "!r") author sync refl refl
