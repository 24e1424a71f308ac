-- ===== src/Webhook.antt =====
-- server/matrix_webhook.go: the transactions that the Matrix server pushes, and where their events
-- go. A task of the queue is the event itself. The JSON parser, the hostname of the configured
-- server and the answers of the Mattermost server are parameters.
pub mod Routing
pub mod Transactions
mod Tests
use mattermost_plugin_matrix.Prelude.{
  ℕ, zero, suc, ◌+◌, ◌-◌, ◌*◌, ◌%◌, ◌^◌, ◌≡◌, Bool, true, false, ◌&&◌, ◌||◌, not, Option, none,
  some, List, [], ◌∷◌, ◌++◌, length, drop, take, ltb, eqb, if◌then◌else◌, Text, ◌==◌, lit,
  has_prefix, index_byte,
}
use mattermost_plugin_matrix.Prelude.Dict
use mattermost_plugin_matrix.Prelude.Dict.{Dict}
use mattermost_plugin_matrix.Queue.{EventQueue, enqueue}
use mattermost_plugin_matrix.Store.{KvStore, build_ghost_user_key}
use mattermost_plugin_matrix.Event.{MatrixEvent, text_at}
use mattermost_plugin_matrix.Ghost.{
  ghost_user_prefix, is_ghost_user, extract_mattermost_user_id_from_ghost,
}
use mattermost_plugin_matrix.Mapping.{
  MatrixClient, Bridge, set_channel_room_mapping, get_channel_id_from_matrix_room,
}

-- What the Mattermost server answers, which makes a direct channel where there is none, and `getOrCreateMattermostUser` of the synchronisation, which
-- may write to the store.
pub record MattermostApi (S : Type 0) : Type 0 where
  pub has_user : Text → S → Bool
  pub get_or_create_user : Text → S → S × Option Text
  pub get_direct_channel : Text → Text → S → Option (S × Text)

-- The handlers that events are routed to.
pub data Handler : Type 0 where
  message reaction member redaction : Handler

-- What becomes of an event: nothing, or a handler with the channel of its room.
pub data Route : Type 0 where
  ignored : Route
  handled : Handler → Text → Route

module _ {S : Type 0} (kv : KvStore S) (server : Option Text) (client : Option MatrixClient)
    (api : MattermostApi S) where
  -- `createDMChannelForGhostUser`: none for an error, the empty text for a ghost user that is not
  -- ours. Without a Matrix client the source would panic where it stores the mapping; that is an error.
  unfoldable pub create_dm_channel_for_ghost_user : ℕ → Text → Text → Text → S → S × Option Text
  create_dm_channel_for_ghost_user now room_id ghost_user_id matrix_user_id s =
      let mattermost_user_id = extract_mattermost_user_id_from_ghost ghost_user_id in
      if mattermost_user_id == []
      then (s, none)
      else elim (kv.get (build_ghost_user_key mattermost_user_id) s) [
        | none ↦ (s, some [])
        | some stored ↦
            if stored == [] || not (stored == ghost_user_id)
            then (s, some [])
            else if not (api.has_user mattermost_user_id s)
            then (s, none)
            else let (known, user) = api.get_or_create_user matrix_user_id s in
              elim user [
                | none ↦ (known, none)
                | some user_id ↦ elim (api.get_direct_channel mattermost_user_id user_id known) [
                  | none ↦ (known, none)
                  | some (opened, channel) ↦ elim client [
                    | none ↦ (opened, none)
                    | some c ↦
                        let (b, ok) =
                          set_channel_room_mapping kv c now channel room_id
                            (record { store = opened; room_mapping_cache = none }) in
                        (b.store, if ok then some channel else none)
                  ]
                ]
              ]
      ]

  -- `handleMatrixMemberDM`
  unfoldable pub handle_matrix_member_dm : ℕ → MatrixEvent → S → S × Option Text
  handle_matrix_member_dm now event s = elim (text_at (lit "membership") event.content) [
    | none ↦ (s, some [])
    | some membership ↦
        if not (membership == lit "join" || membership == lit "invite")
        then (s, some [])
        else elim event.state_key [
          | none ↦ (s, some [])
          | some target ↦
              if is_ghost_user server target
              then create_dm_channel_for_ghost_user now event.room_id target event.sender s
              else if is_ghost_user server event.sender
              then create_dm_channel_for_ghost_user now event.room_id event.sender target s
              else (s, some [])
        ]
  ]

  -- `handleMatrixInitiatedDM`; `handleMatrixMessageDM` finds nothing
  unfoldable pub handle_matrix_initiated_dm : ℕ → MatrixEvent → S → S × Option Text
  handle_matrix_initiated_dm now event s =
      if event.kind == lit "m.room.member"
      then handle_matrix_member_dm now event s
      else (s, some [])

  -- the switch at the end of `processMatrixEvent`
  unfoldable pub route_of : Text → Text → Route
  route_of kind channel =
      if kind == lit "m.room.message"
      then handled message channel
      else if kind == lit "m.reaction"
      then handled reaction channel
      else if kind == lit "m.room.member"
      then handled member channel
      else if kind == lit "m.room.redaction"
      then handled redaction channel
      else ignored

  -- `processMatrixEvent` after the channel is known
  unfoldable pub route_event : MatrixEvent → Text → Route
  route_event event channel =
      if channel == []
      then ignored
      else if is_ghost_user server event.sender
      then ignored
      else route_of event.kind channel

  -- An error is only logged, and without a channel the event is ignored.
  unfoldable pub route_created : MatrixEvent → Option Text → Route
  route_created event none = ignored
  route_created event (some channel) = route_event event channel

  -- `processMatrixEvent`: the store after it, and where the event goes. A handler gets the channel.
  unfoldable pub process_matrix_event : ℕ → MatrixEvent → S → S × Route
  process_matrix_event now event s =
      let channel = get_channel_id_from_matrix_room kv client event.room_id s in
      if not (channel == [])
      then (s, route_event event channel)
      else if event.kind == lit "m.room.member" || event.kind == lit "m.room.message"
      then (let (after, created) = handle_matrix_initiated_dm now event s in
          (after, route_created event created))
      else (s, ignored)

-- A request, as far as `handleMatrixTransaction` reads it.
pub record Request : Type 0 where
  pub method : Text
  pub txn_id : Text
  pub body : Text
  pub readable : Bool

-- The transactions that were processed, the queue, and the events that were processed at once since
-- the queue was full.
pub record Webhook : Type 0 where
  pub processed_transactions : Dict ℕ
  pub event_queue : EventQueue MatrixEvent
  pub synchronous : List MatrixEvent

abbrev pub hour : ℕ
hour = 3600000000000

-- `cleanupOldTransactions`; both of its passes use one cutoff
unfoldable pub cleanup_old_transactions : ℕ → Webhook → Webhook
cleanup_old_transactions now w = record w {
  processed_transactions = Dict.retain (λ at. not (ltb at (now - hour))) w.processed_transactions;
}

-- the loop of `handleMatrixTransaction` over the events
unfoldable pub hand_over : List MatrixEvent → Webhook → Webhook
hand_over [] w = w
hand_over (event ∷ events) w =
    let (queue, ok) = enqueue w.event_queue event in
    hand_over events (
      if ok
      then record w { event_queue = queue }
      else record w { synchronous = w.synchronous ++ event ∷ [] })

-- `maxRequestBodySize`
unfoldable pub max_request_body_size : Option ℕ → ℕ
max_request_body_size none = 10 * 2 ^ 20
max_request_body_size (some size) = size

-- `handleMatrixTransaction`, with the parser of the body and `MaxFileSize`: the state, and the
-- status of the response. The periodic cleanup of the other goroutine runs before the events are
-- handed over, which does not matter to them.
unfoldable pub handle_matrix_transaction :
    (Text → Option (List MatrixEvent)) → Option ℕ → ℕ → Request → Webhook → Webhook × ℕ
handle_matrix_transaction parse max_file_size now r w =
    if not (r.method == lit "PUT")
    then (w, 405)
    else if r.txn_id == []
    then (w, 400)
    else elim (Dict.get r.txn_id w.processed_transactions) [
      | some at ↦ (w, 200)
      | none ↦
          if not r.readable || ltb (max_request_body_size max_file_size) (length r.body)
          then (w, 400)
          else elim (parse r.body) [
            | none ↦ (w, 400)
            | some events ↦
                let marked = record w {
                  processed_transactions = Dict.put r.txn_id now w.processed_transactions;
                } in
                let cleaned =
                  (if eqb (length marked.processed_transactions % 100) 0
                    then cleanup_old_transactions now marked
                    else marked) in
                (hand_over events cleaned, 200)
          ]
    ]
