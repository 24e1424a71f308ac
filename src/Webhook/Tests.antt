-- ===== src/Webhook/Tests.antt =====
-- Runs of server/matrix_webhook.go at fixed inputs, and its theorems applied to them.
use mattermost_plugin_matrix.Prelude.{
  ◌+◌, ◌-◌, ◌≡◌, refl, true, not, Option, none, some, List, [], ◌∷◌, length, ltb, if◌then◌else◌,
  Text, ◌==◌, lit, has_prefix, trim_prefix, index_byte,
}
use mattermost_plugin_matrix.Prelude.Int.{ℤ}
use mattermost_plugin_matrix.Prelude.Dict
use mattermost_plugin_matrix.Prelude.Dict.{Dict}
use mattermost_plugin_matrix.Queue
use mattermost_plugin_matrix.Queue.{EventQueue, enqueue}
use mattermost_plugin_matrix.Store.{
  build_ghost_user_key, build_room_mapping_key, build_channel_mapping_key,
}
use mattermost_plugin_matrix.Store.Memory.{memory, value_of}
use mattermost_plugin_matrix.Mapping.{
  MatrixClient, set_channel_room_mapping, get_channel_id_from_matrix_room, set_alias, resolved,
  resolve_room_alias, cache_room,
}
use mattermost_plugin_matrix.Event.{MatrixEvent, end, text_at, find}
use mattermost_plugin_matrix.Ghost.{
  is_ghost_user, has_suffix, extract_mattermost_user_id_from_ghost,
}
use mattermost_plugin_matrix.Webhook.{
  MattermostApi, handled, message, create_dm_channel_for_ghost_user, handle_matrix_member_dm,
  handle_matrix_initiated_dm, route_of, route_event, route_created, process_matrix_event, Request,
  Webhook, hour, cleanup_old_transactions, hand_over, handle_matrix_transaction,
  max_request_body_size,
}
use mattermost_plugin_matrix.Webhook.Transactions.{
  cleanup_old_transactions_lem, handle_matrix_transaction_once,
}

program : Unit {0}
unfolding Dict.get Dict.put Dict.retain ◌==◌ has_prefix trim_prefix index_byte value_of
    build_ghost_user_key build_room_mapping_key build_channel_mapping_key set_channel_room_mapping
    get_channel_id_from_matrix_room set_alias resolved resolve_room_alias cache_room Queue.start
    enqueue text_at find is_ghost_user has_suffix extract_mattermost_user_id_from_ghost
    create_dm_channel_for_ghost_user handle_matrix_member_dm handle_matrix_initiated_dm route_of
    route_event route_created process_matrix_event cleanup_old_transactions hand_over
    handle_matrix_transaction max_request_body_size
program = tt

abbrev server : Option Text
server = some (lit "hs")

abbrev client : Option MatrixClient
client = some (record {
  configured = true;
  directory = λ room_alias. none;
  channel_in_state = λ room. none;
  removes_channel = λ room. true;
})

abbrev api : MattermostApi (Dict Text)
api = record {
  has_user = λ user s. true;
  get_or_create_user = λ user s. (s, some (lit "m2"));
  get_direct_channel = λ one two s. some (s, lit "dm");
}

abbrev ghost : Text
ghost = lit "@_mattermost_u1:hs"

abbrev store : Dict Text
store = (lit "ghost_user_u1", ghost) ∷ (lit "room_mapping_!r", lit "c") ∷ []

abbrev text_from : Text → MatrixEvent
text_from sender = record {
  kind = lit "m.room.message";
  event_id = lit "$1";
  sender = sender;
  room_id = lit "!r";
  content = end;
  state_key = none;
  timestamp = 0;
}

routes :
    (process_matrix_event memory server client api 0 (text_from (lit "@a:hs")) store).1
    ≡ handled message (lit "c")
unfolding program
routes = refl

-- an invitation of a ghost user makes a direct channel
invites :
    (create_dm_channel_for_ghost_user memory server client api 0
      (lit "!new")
      ghost
      (lit "@a:hs")
      store).1
    ≡ some (lit "dm")
unfolding program
invites = refl

-- A queue with room for one event.
abbrev fresh : Webhook
fresh = record {
  processed_transactions = [];
  event_queue = Queue.start (ℤ.pos 1) (ℤ.pos 1);
  synchronous = [];
}

abbrev two_events : List MatrixEvent
two_events = text_from (lit "@a:hs") ∷ text_from (lit "@b:hs") ∷ []

abbrev parse : Text → Option (List MatrixEvent)
parse body = if body == [] then none else some two_events

abbrev push : Text → Request
push body = record { method = lit "PUT"; txn_id = lit "t"; body = body; readable = true }

abbrev pushed : Webhook
pushed = (handle_matrix_transaction parse none 5 (push (lit "x")) fresh).0

one_queued : length pushed.event_queue.task_chan + length pushed.synchronous ≡ 2
unfolding program
one_queued = refl

cleanup_old_transactions_lem_example :
    Dict.get
      (lit "t")
      (cleanup_old_transactions 7
        (record fresh { processed_transactions = (lit "t", 5) ∷ [] })).processed_transactions
    ≡ Dict.filtered (λ at. not (ltb at (7 - hour))) (Dict.get (lit "t") ((lit "t", 5) ∷ []))
unfolding Dict.get
cleanup_old_transactions_lem_example =
    cleanup_old_transactions_lem 7 (record fresh { processed_transactions = (lit "t", 5) ∷ [] })
      (lit "t") (refl, tt)

handle_matrix_transaction_once_example :
    (handle_matrix_transaction parse none 6 (push []) pushed).0 ≡ pushed
unfolding program
handle_matrix_transaction_once_example =
    handle_matrix_transaction_once parse none 5 6 (push (lit "x")) (push []) fresh tt refl refl
