-- ===== src/Dispatch/Tests.antt =====
-- A transaction of events at fixed inputs, from the webhook (server/matrix_webhook.go) to its handlers.
use mattermost_plugin_matrix.Prelude.{
  Option, none, [], ◌∷◌, Text, ◌==◌, lit, has_prefix, index_byte,
}
use mattermost_plugin_matrix.Prelude.Dict
use mattermost_plugin_matrix.Event.{find, text_at, object_at, MatrixEvent}
use mattermost_plugin_matrix.Ghost.{is_ghost_user, has_suffix}
use mattermost_plugin_matrix.Store.{build_room_mapping_key}
use mattermost_plugin_matrix.Store.Memory.{value_of}
use mattermost_plugin_matrix.Mapping.{Bridge, get_channel_id_from_matrix_room}
use mattermost_plugin_matrix.Mattermost.InMemory.{Server}
use mattermost_plugin_matrix.ToMattermost.Sample.{start, hello, event_with}

program : Unit {0}
unfolding Dict.get ◌==◌ has_prefix index_byte find text_at object_at is_ghost_user has_suffix
    build_room_mapping_key value_of get_channel_id_from_matrix_room
program = tt

abbrev no_channel : Text → Text → Server → Option (Server × Text)
no_channel one two s = none

abbrev mapped : Bridge Server
mapped = record {
  store = record start { stored = (lit "room_mapping_!r", lit "c") ∷ [] };
  room_mapping_cache = none;
}

abbrev echo : MatrixEvent
echo = event_with (lit "@_mattermost_u1:hs") (lit "$9") hello.content

-- Between two messages, after which there are two posts; a message in a room without a channel.
abbrev other_room : MatrixEvent
other_room = record echo { room_id = lit "!s" }
