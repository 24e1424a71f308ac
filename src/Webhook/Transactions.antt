-- ===== src/Webhook/Transactions.antt =====
-- `handleMatrixTransaction` and `cleanupOldTransactions` of server/matrix_webhook.go.
use mathlib.Core.List.{append-nil, append_assoc}
use mattermost_plugin_matrix.Prelude.{
  ℕ, zero, suc, ◌-◌, ◌≡◌, ◌≢◌, ◌⊎◌, refl, ◌∙◌, ap, sym, true, false, not, Option, some,
  Option-cases, Bool-cases, inl, inr, List, [], ◌∷◌, ◌++◌, length, length-append, take, drop, ltb,
  Text, arith,
}
use mattermost_plugin_matrix.Prelude.Dict
use mattermost_plugin_matrix.Prelude.Dict.{
  IsDict, get-put, get-put_self, get-retain, put-IsDict, retain-IsDict,
}
use mattermost_plugin_matrix.Queue.{enqueue}
use mattermost_plugin_matrix.Event.{MatrixEvent}
use mattermost_plugin_matrix.Webhook.{
  Request, Webhook, hour, cleanup_old_transactions, hand_over, handle_matrix_transaction,
}

-- `cleanupOldTransactions` forgets exactly the transactions that are more than an hour old.
pub cleanup_old_transactions_lem :
    (now : ℕ) (w : Webhook) (txn : Text)
    → IsDict w.processed_transactions
    → Dict.get txn (cleanup_old_transactions now w).processed_transactions
      ≡ Dict.filtered (λ at. not (ltb at (now - hour))) (Dict.get txn w.processed_transactions)
unfolding cleanup_old_transactions
cleanup_old_transactions_lem now w txn d =
    get-retain (λ at. not (ltb at (now - hour))) txn w.processed_transactions d

-- The loop over the events leaves the processed transactions alone.
hand_over_keeps :
    (events : List MatrixEvent) (w : Webhook)
    → (hand_over events w).processed_transactions ≡ w.processed_transactions
unfolding hand_over
hand_over_keeps [] w = refl
hand_over_keeps (event ∷ events) w = elim (Bool-cases (enqueue w.event_queue event).1) [
  | inl ok ↦
      rw (ok, hand_over)
        (hand_over_keeps events (record w { event_queue = (enqueue w.event_queue event).0 }))
  | inr full ↦
      rw (full, hand_over)
        (hand_over_keeps events (record w { synchronous = w.synchronous ++ event ∷ [] }))
]

-- The loop, by the room that the queue has left.
handed :
    (room : ℕ) (events : List MatrixEvent) (w : Webhook)
    → w.event_queue.buffer_size - length w.event_queue.task_chan ≡ room
    → ((hand_over events w).event_queue.task_chan ≡ w.event_queue.task_chan ++ take room events)
      × ((hand_over events w).synchronous ≡ w.synchronous ++ drop room events)
unfolding hand_over enqueue
handed zero [] w e = (sym (append-nil w.event_queue.task_chan), sym (append-nil w.synchronous))
handed (suc room) [] w e =
    (sym (append-nil w.event_queue.task_chan), sym (append-nil w.synchronous))
handed zero (event ∷ events) w e =
    let full : ltb (length w.event_queue.task_chan) w.event_queue.buffer_size ≡ false =
      ground (arith, e) in
    let rest = handed zero events (record w { synchronous = w.synchronous ++ event ∷ [] }) e in
    rw (full, hand_over) (rest.0, rest.1 ∙ append_assoc w.synchronous (event ∷ []) events)
handed (suc room) (event ∷ events) w e =
    let ok : ltb (length w.event_queue.task_chan) w.event_queue.buffer_size ≡ true =
      ground (arith, e) in
    let queue = record w.event_queue { task_chan = w.event_queue.task_chan ++ event ∷ [] } in
    let rest =
      handed room events (record w { event_queue = queue })
        (omega (arith, e, length-append w.event_queue.task_chan (event ∷ []))) in
    rw (ok, hand_over)
      (rest.0 ∙ append_assoc w.event_queue.task_chan (event ∷ []) (take room events), rest.1)

-- The events go, in order, to the end of the queue while it has room, and the others are processed
-- at once, in order: none is lost, and none is handed over twice.
pub hand_over_lem :
    (events : List MatrixEvent) (w : Webhook)
    → let room = w.event_queue.buffer_size - length w.event_queue.task_chan in
      ((hand_over events w).event_queue.task_chan ≡ w.event_queue.task_chan ++ take room events)
      × ((hand_over events w).synchronous ≡ w.synchronous ++ drop room events)
hand_over_lem events w =
    handed (w.event_queue.buffer_size - length w.event_queue.task_chan) events w refl

-- A transaction that was marked at a time is remembered after the cleanup at that time.
cleanup_keeps :
    (now : ℕ) (w : Webhook) (txn : Text)
    → IsDict w.processed_transactions
    → Dict.get txn w.processed_transactions ≡ some now
    → Dict.get txn (cleanup_old_transactions now w).processed_transactions ≡ some now
cleanup_keeps now w txn d marked =
    cleanup_old_transactions_lem now w txn d ∙ rw marked (ground arith)

remembered :
    (parse : Text → Option (List MatrixEvent)) (max_file_size : Option ℕ) (now : ℕ) (r : Request)
    (w : Webhook)
    → IsDict w.processed_transactions
    → (handle_matrix_transaction parse max_file_size now r w).1 ≡ 200
    → (at : ℕ) × (Dict.get r.txn_id
          (handle_matrix_transaction parse max_file_size now r w).0.processed_transactions
        ≡ some at)
unfolding handle_matrix_transaction
remembered parse max_file_size now r w d ok =
    elim (Option-cases (Dict.get r.txn_id w.processed_transactions)) [
      | inl fresh ↦ elim (Option-cases (parse r.body)) [
        | inl invalid ↦ absurd (ground arith)
        | inr (events, parsed) ↦
            let marked = record w {
              processed_transactions = Dict.put r.txn_id now w.processed_transactions;
            } in
            let there = get-put_self r.txn_id now w.processed_transactions in
            let distinct = put-IsDict r.txn_id now w.processed_transactions d in
            (
              now,
              ground (
                arith,
                there,
                cleanup_keeps now marked r.txn_id distinct there,
                hand_over_keeps events marked,
                hand_over_keeps events (cleanup_old_transactions now marked),
              ),
            )
      ]
      | inr (at, seen) ↦ (at, ground arith)
    ]

repeated :
    (parse : Text → Option (List MatrixEvent)) (max_file_size : Option ℕ) (now at : ℕ) (r : Request)
    (w : Webhook)
    → Dict.get r.txn_id w.processed_transactions ≡ some at
    → ((handle_matrix_transaction parse max_file_size now r w).0 ≡ w)
unfolding handle_matrix_transaction
repeated parse max_file_size now at r w seen = ground arith

-- If no transaction was marked twice, then after a request that was answered by 200, a request
-- with the same transaction that comes next changes nothing, at any time and whatever its body:
-- the events are handed over once.
pub handle_matrix_transaction_once :
    (parse : Text → Option (List MatrixEvent)) (max_file_size : Option ℕ) (now later : ℕ)
    (r again : Request) (w : Webhook)
    → IsDict w.processed_transactions
    → (handle_matrix_transaction parse max_file_size now r w).1 ≡ 200
    → again.txn_id ≡ r.txn_id
    → (handle_matrix_transaction parse max_file_size later again
        (handle_matrix_transaction parse max_file_size now r w).0).0
      ≡ (handle_matrix_transaction parse max_file_size now r w).0
handle_matrix_transaction_once parse max_file_size now later r again w d ok same =
    let (at, seen) = remembered parse max_file_size now r w d ok in
    let after = (handle_matrix_transaction parse max_file_size now r w).0 in
    repeated parse max_file_size later at again after
      (ap (λ txn. Dict.get txn after.processed_transactions) same ∙ seen)

-- A request that is not answered by 200 is answered by 400 or 405, and changes nothing.
pub handle_matrix_transaction_rejects :
    (parse : Text → Option (List MatrixEvent)) (max_file_size : Option ℕ) (now : ℕ) (r : Request)
    (w : Webhook)
    → (handle_matrix_transaction parse max_file_size now r w).1 ≢ 200
    → ((handle_matrix_transaction parse max_file_size now r w).0 ≡ w)
      × (((handle_matrix_transaction parse max_file_size now r w).1 ≡ 400)
          ⊎ ((handle_matrix_transaction parse max_file_size now r w).1 ≡ 405))
unfolding handle_matrix_transaction
handle_matrix_transaction_rejects parse max_file_size now r w failed =
    elim (Option-cases (Dict.get r.txn_id w.processed_transactions)) [
      | inl fresh ↦ elim (Option-cases (parse r.body)) [
        | inl invalid ↦ ground arith
        | inr (events, parsed) ↦ ground arith
      ]
      | inr (at, seen) ↦ ground arith
    ]
