-- ===== src/ToMatrix/Sample.antt =====
-- A Matrix server at fixed values, for the runs of server/sync_to_matrix.go: it counts its requests and
-- knows two reactions to one event.
use mattermost_plugin_matrix.Prelude.{
  true, false, none, some, List, [], ◌∷◌, ◌++◌, suc, replicate, Text, lit,
}
use mattermost_plugin_matrix.Event.{Fields, end, entry, string, object}
use mattermost_plugin_matrix.Mattermost.{User, Post}
use mattermost_plugin_matrix.Mattermost.InMemory.{Server}
use mattermost_plugin_matrix.ToMattermost.Sample
use mattermost_plugin_matrix.ToMatrix.{MatrixServer, MatrixBridge, MatrixSettings}

abbrev pub reaction_event : Text → Text → Text → Fields
reaction_event id sender key = entry (lit "type") (string (lit "m.reaction")) (
    entry (lit "event_id") (string id) (
      entry (lit "sender") (string sender) (
        entry (lit "content")
          (object (entry (lit "m.relates_to") (object (entry (lit "key") (string key) end)) end))
          end)))

abbrev pub relations : List Fields
relations =
    reaction_event (lit "$1") (lit "@a:hs") (lit "+")
    ∷ reaction_event (lit "$2") (lit "@b:hs") (lit "+")
    ∷ []

abbrev pub counted : Server → Server
counted s = record s { count = suc s.count }

abbrev pub matrix : MatrixServer Server
matrix = record {
  create_ghost_user = λ user name avatar s. (counted s, some (lit "@_mattermost_" ++ user));
  register_user = λ name password s. counted s;
  set_user_display_name = λ user name s. s;
  set_display_name = λ user name s. s;
  upload_avatar = λ image s. none;
  set_avatar_url = λ user uri s. s;
  invite_and_join = λ room user s. some s;
  send_reaction = λ room event key user s. some (counted s);
  redact = λ room event user s. some (counted s);
  get_relations = λ room event user s. some relations;
  ready = λ s. true;
  send_event = λ room content user s. some (counted s, 36 ∷ replicate s.count 49);
  get_event = λ room event s. none;
  create_direct_room = λ users name s. some (counted s, lit "!dm");
}

abbrev pub settings : MatrixSettings
settings = record {
  hostname = some (lit "hs");
  server_url = lit "https://hs";
  username_prefix = [];
  enable_mirror_mode = false;
  matrix_server_domain = lit "hs";
  mirror_mode_password = [];
  sync_user_profiles = false;
  display_name_of = λ user. user.username;
}

abbrev pub start : MatrixBridge Server
start = record { bridge = Sample.bridge; ghost_user_cache = none; room_membership_cache = none }

abbrev pub author : User
author = record {
  id = lit "u";
  username = lit "matrix:a";
  email = [];
  nickname = lit "a";
  first_name = [];
  last_name = [];
  remote_id = lit "matrix";
}

-- A post that was sent as the event $9.
abbrev pub post : Post
post = record {
  id = lit "p";
  user_id = lit "u";
  channel_id = lit "c";
  message = lit "hello";
  create_at = 1;
  edit_at = 0;
  root_id = [];
  remote_id = [];
  file_ids = [];
  props = (lit "matrix_event_id_hs", string (lit "$9")) ∷ [];
}
