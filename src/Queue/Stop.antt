-- ===== src/Queue/Stop.antt =====
-- `Stop` of server/queue.go can always end: the workers finish the tasks they are running.
use mattermost_plugin_matrix.Prelude.{
  ◌≡◌, refl, sym, ap, ◌∙◌, true, false, some, List, [], ◌∷◌, ◌++◌, length,
}
use mathlib.Core.List.{append-nil, append_assoc}
use mattermost_plugin_matrix.Queue.{
  Worker, waiting, busy, returned, EventQueue, worker_at, with_worker, process, finish, quit, Run,
  here, next,
}

-- Every worker has returned.
abbrev pub AllReturned : {T : Type 0} → List (Worker T) → Type 0
AllReturned [] = Unit
AllReturned (w ∷ ws) = (w ≡ returned) × AllReturned ws

module _ {T : Type 0} where
  worker_at-append :
      (done : List (Worker T)) (w : Worker T) (rest : List (Worker T))
      → worker_at (done ++ w ∷ rest) (length done) ≡ some w
  worker_at-append [] w rest = refl
  worker_at-append (v ∷ done) w rest = worker_at-append done w rest

  with_worker-append :
      (done : List (Worker T)) (w x : Worker T) (rest : List (Worker T))
      → with_worker (done ++ w ∷ rest) (length done) x ≡ done ++ x ∷ rest
  with_worker-append [] w x rest = refl
  with_worker-append (v ∷ done) w x rest = ap (◌∷◌ v) (with_worker-append done w x rest)

  AllReturned-snoc :
      (done : List (Worker T)) → AllReturned done → AllReturned (done ++ returned ∷ [])
  AllReturned-snoc [] h = (refl, tt)
  AllReturned-snoc (w ∷ done) h = (h.0, AllReturned-snoc done h.1)

  -- A queue whose workers have all returned, reached with no task taken in or up.
  abbrev pub Drained : EventQueue T → Type 0
  Drained q =
      (r : EventQueue T) × Run q [] [] r × AllReturned r.workers × (r.task_chan ≡ q.task_chan)

  module _ (q : EventQueue T) where
    drain_from :
        (done rest : List (Worker T)) (r : EventQueue T)
        → Run q [] [] r
        → r.workers ≡ done ++ rest
        → AllReturned done
        → r.stopped ≡ true
        → r.task_chan ≡ q.task_chan
        → Drained q
    drain_from done [] r run ws all off chan = (r, run, rw (ws, append-nil done) all, chan)
    drain_from done (returned ∷ rest) r run ws all off chan =
        drain_from (done ++ returned ∷ []) rest r run
          (ws ∙ sym (append_assoc done (returned ∷ []) rest)) (AllReturned-snoc done all) off chan
    drain_from done (waiting ∷ rest) r run ws all off chan =
        let i = length done in
        drain_from (done ++ returned ∷ []) rest
          (record r { workers = with_worker r.workers i returned })
          (next run (quit i off (rw ws (worker_at-append done waiting rest))))
          (ap (λ l. with_worker l i returned) ws
            ∙ with_worker-append done waiting returned rest
            ∙ sym (append_assoc done (returned ∷ []) rest))
          (AllReturned-snoc done all) off chan
    drain_from done (busy t ∷ rest) r run ws all off chan =
        let i = length done in
        let r' = process r i t false in
        let idle : r'.workers ≡ done ++ waiting ∷ rest =
          unfold process in
          ap (λ l. with_worker l i waiting) ws ∙ with_worker-append done (busy t) waiting rest in
        drain_from (done ++ returned ∷ []) rest
          (record r' { workers = with_worker r'.workers i returned })
          (next (next run (finish t i false (rw ws (worker_at-append done (busy t) rest))))
            (quit i (unfold process in off) (rw idle (worker_at-append done waiting rest))))
          (ap (λ l. with_worker l i returned) idle
            ∙ with_worker-append done waiting returned rest
            ∙ sym (append_assoc done (returned ∷ []) rest))
          (AllReturned-snoc done all) (unfold process in off) (unfold process in chan)

-- Once the queue is stopped, its workers can all return after at most the tasks that they are
-- running, with no further task taken up: what is in the channel stays there.
pub stop_ends : {T : Type 0} (q : EventQueue T) → q.stopped ≡ true → Drained q
stop_ends q off = drain_from q [] q.workers q here refl tt off refl
