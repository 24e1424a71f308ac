-- ===== src/ToMattermost/Sample.antt =====
-- A bridge at fixed values, for the runs of server/sync_to_mattermost.go: a Mattermost server in memory,
-- a Matrix server that has two profiles and no events, and a coding of reactions.
use mattermost_plugin_matrix.Prelude.{
  ◌≡◌, refl, ap, true, Option, none, some, [], ◌∷◌, ◌++◌, length, take, drop, Text, lit,
  if◌then◌else◌, ◌==◌, drop-length-append,
}
use mattermost_plugin_matrix.Event.{MatrixEvent, Fields, end, entry, string, object}
use mattermost_plugin_matrix.Store.{IsReliable}
use mattermost_plugin_matrix.Mapping.{MatrixClient, Bridge}
use mattermost_plugin_matrix.Mattermost.InMemory.{Server, nobody, server_kv, server_contents}
use mattermost_plugin_matrix.ToMattermost.{SyncClient, Settings}
use mattermost_plugin_matrix.ToMattermost.Reactions.{ReactionInfo, Codec}

abbrev pub server_kv-IsReliable : IsReliable server_kv server_contents
server_kv-IsReliable = record { reads = λ k s. refl; writes = λ k v s. (_, refl) }

abbrev pub rooms : MatrixClient
rooms = record {
  configured = true;
  directory = λ room_alias. none;
  channel_in_state = λ room. none;
  removes_channel = λ room. true;
}

abbrev pub client : SyncClient
client = record {
  rooms = rooms;
  get_event = λ room event. none;
  get_user_profile = λ user. none;
  download_avatar = λ url. none;
  download_file = λ url. none;
}

abbrev pub settings : Settings
settings = record { remote_id = lit "matrix"; hostname = some (lit "hs"); username_prefix = [] }

-- No message of the runs is HTML.
abbrev pub converter : Text → Option Text
converter html = none

abbrev pub same_name : Text → Text
same_name key = key

abbrev pub user_part : ReactionInfo → Text
user_part info = length info.user_id ∷ (info.user_id ++ info.emoji_name)

abbrev pub marshal : ReactionInfo → Text
marshal info = length info.post_id ∷ (info.post_id ++ user_part info)

abbrev pub second_of : Text → Text → Option ReactionInfo
second_of post [] = none
second_of post (n ∷ s) = some (record { post_id = post; user_id = take n s; emoji_name = drop n s })

abbrev pub unmarshal : Text → Option ReactionInfo
unmarshal [] = none
unmarshal (n ∷ s) = second_of (take n s) (drop n s)

take-length-append : (xs ys : Text) → take (length xs) (xs ++ ys) ≡ xs
take-length-append [] ys = refl
take-length-append (x ∷ xs) ys = ap (◌∷◌ x) (take-length-append xs ys)

pub unmarshal-marshal_law : (info : ReactionInfo) → unmarshal (marshal info) ≡ some info
unmarshal-marshal_law info =
    rw
      (
        take-length-append info.post_id (user_part info),
        drop-length-append info.post_id (user_part info),
      )
      (rw
        (
          take-length-append info.user_id info.emoji_name,
          drop-length-append info.user_id info.emoji_name,
        )
        refl)

abbrev pub codec : Codec
codec = record {
  marshal = marshal;
  unmarshal = unmarshal;
  unmarshal-marshal = unmarshal-marshal_law;
}

-- A server with one user, under the store's mapping for @a:hs, a member of no channel.
abbrev pub start : Server
start = record nobody {
  stored = (lit "matrix_user_@a:hs", lit "u") ∷ [];
  users = λ id.
      if id == lit "u"
      then some (record {
        id = lit "u";
        username = lit "matrix:a";
        email = [];
        nickname = lit "a";
        first_name = [];
        last_name = [];
        remote_id = lit "matrix";
      })
      else none;
}

abbrev pub bridge : Bridge Server
bridge = record { store = start; room_mapping_cache = none }

abbrev pub event_with : Text → Text → Fields → MatrixEvent
event_with sender id content = record {
  kind = lit "m.room.message";
  event_id = id;
  sender = sender;
  room_id = lit "!r";
  content = content;
  state_key = none;
  timestamp = 7;
}

abbrev pub hello : MatrixEvent
hello = event_with (lit "@a:hs") (lit "$1") (entry (lit "body") (string (lit "hello")) end)

abbrev pub edit_relation : Fields
edit_relation =
    entry (lit "rel_type") (string (lit "m.replace"))
      (entry (lit "event_id") (string (lit "$1")) end)

abbrev pub edit_content : Fields
edit_content =
    entry (lit "m.relates_to") (object edit_relation)
      (entry (lit "m.new_content") (object (entry (lit "body") (string (lit "bye")) end)) end)

-- An edit of the first message by another sender.
abbrev pub edit : MatrixEvent
edit = event_with (lit "@b:hs") (lit "$2") edit_content
