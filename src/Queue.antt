-- ===== src/Queue.antt =====
-- server/queue.go: a bounded channel of tasks and a pool of workers. Each `select` and each
-- channel operation is one step. `Task.Execute` and the callbacks belong to the caller: a task is
-- any type here, and a step that ends one says whether it failed.
pub mod Fifo
pub mod Stop
mod Tests
use mattermost_plugin_matrix.Prelude.{
  ℕ, zero, suc, ◌≤◌, ◌<◌, ◌≡◌, Bool, true, false, Option, none, some, List, [], ◌∷◌, ◌++◌, length,
  ltb, leb, if◌then◌else◌, replicate,
}
use mattermost_plugin_matrix.Prelude.Int.{ℤ, pos, negsuc, is_nonpos}

-- A worker waits at its `select`, runs a task, or has returned.
pub data Worker (T : Type 0) : Type 0 where
  waiting : Worker T
  busy : T → Worker T
  returned : Worker T

-- `EventQueue`: `task_chan` and its capacity, `stop_chan` closed or not, the workers. `failed` are
-- the tasks that `OnFinalFailure` was called with, `completed` all tasks that were run to an end.
pub record EventQueue (T : Type 0) : Type 0 where
  pub task_chan : List T
  pub buffer_size : ℕ
  pub stopped : Bool
  pub workers : List (Worker T)
  pub completed : List T
  pub failed : List T

-- `workerCount <= 0` and `bufferSize < 0` in `NewEventQueue`
unfoldable pub worker_count : ℤ → ℕ
worker_count (pos zero) = 1
worker_count (pos n) = n
worker_count (negsuc n) = 1

unfoldable pub buffer_count : ℤ → ℕ
buffer_count (pos n) = n
buffer_count (negsuc n) = 100

module _ {T : Type 0} where
  -- `NewEventQueue` and `Start`: every worker waits
  unfoldable pub start : ℤ → ℤ → EventQueue T
  unfolding worker_count buffer_count
  start workers size = record {
    task_chan = [];
    buffer_size = buffer_count size;
    stopped = false;
    workers = replicate (worker_count workers) waiting;
    completed = [];
    failed = [];
  }

  -- `Enqueue` when no worker stands ready at an unbuffered channel: the state and whether the
  -- task was taken in
  unfoldable pub enqueue : EventQueue T → T → EventQueue T × Bool
  enqueue q task =
      if ltb (length q.task_chan) q.buffer_size
      then (record q { task_chan = q.task_chan ++ task ∷ [] }, true)
      else (q, false)

  -- the worker `i`, and the workers with another in its place
  abbrev pub worker_at : List (Worker T) → ℕ → Option (Worker T)
  worker_at [] i = none
  worker_at (w ∷ ws) zero = some w
  worker_at (w ∷ ws) (suc i) = worker_at ws i

  abbrev pub with_worker : List (Worker T) → ℕ → Worker T → List (Worker T)
  with_worker [] i w = []
  with_worker (v ∷ ws) zero w = w ∷ ws
  with_worker (v ∷ ws) (suc i) w = v ∷ with_worker ws i w

  -- the end of `processTask`: the worker goes back to its `select`
  unfoldable pub process : EventQueue T → ℕ → T → Bool → EventQueue T
  process q i t err = record q {
    workers = with_worker q.workers i waiting;
    completed = q.completed ++ t ∷ [];
    failed = if err then q.failed ++ t ∷ [] else q.failed;
  }

-- What a step shows: a task that `Enqueue` took in or refused, or that a worker took up.
pub data Event (T : Type 0) : Type 0 where
  accepted : T → Event T
  refused : T → Event T
  handed : T → Event T
  started : T → Event T
  silent : Event T

-- The steps of the queue. A worker that waits may take a task although the queue is stopped:
-- `select` chooses among the channels that are ready.
pub data Step {T : Type 0} (q : EventQueue T) : Event T → EventQueue T → Type 0 where
  submit : (t : T) → (enqueue q t).1 ≡ true → Step q (accepted t) (enqueue q t).0
  refuse : (t : T) → (enqueue q t).1 ≡ false → Step q (refused t) (enqueue q t).0
  -- a send that meets a worker at its receive
  hand :
      (t : T) (i : ℕ)
      → q.task_chan ≡ []
      → worker_at q.workers i ≡ some waiting
      → Step q (handed t) (record q { workers = with_worker q.workers i (busy t) })
  take :
      (t : T) (rest : List T) (i : ℕ)
      → q.task_chan ≡ t ∷ rest
      → worker_at q.workers i ≡ some waiting
      → Step q
          (started t)
          (record q { task_chan = rest; workers = with_worker q.workers i (busy t) })
  finish :
      (t : T) (i : ℕ) (err : Bool)
      → worker_at q.workers i ≡ some (busy t)
      → Step q silent (process q i t err)
  -- `Stop` closes `stop_chan`; to close it twice is a panic
  stop : q.stopped ≡ false → Step q silent (record q { stopped = true })
  quit :
      (i : ℕ)
      → q.stopped ≡ true
      → worker_at q.workers i ≡ some waiting
      → Step q silent (record q { workers = with_worker q.workers i returned })

module _ {T : Type 0} where
  -- the tasks that the queue has taken in, in order
  abbrev pub taken_in : List T → Event T → List T
  taken_in ts (accepted t) = ts ++ t ∷ []
  taken_in ts (handed t) = ts ++ t ∷ []
  taken_in ts e = ts

  -- the tasks that a worker has taken up, in order
  abbrev pub taken_up : List T → Event T → List T
  taken_up ts (started t) = ts ++ t ∷ []
  taken_up ts (handed t) = ts ++ t ∷ []
  taken_up ts e = ts

-- A run of the queue from `q`, with the tasks taken in and the tasks taken up on the way.
pub data Run {T : Type 0} (q : EventQueue T) : List T → List T → EventQueue T → Type 0 where
  here : Run q [] [] q
  next :
      {ins ups : List T} {e : Event T} {r s : EventQueue T}
      → Run q ins ups r
      → Step r e s
      → Run q (taken_in ins e) (taken_up ups e) s
