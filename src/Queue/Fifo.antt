-- ===== src/Queue/Fifo.antt =====
-- server/queue.go starts tasks in the order in which it accepted them, and loses none.
use mattermost_plugin_matrix.Prelude.{
  ℕ, zero, suc, ◌+◌, ◌≤◌, ◌≡◌, refl, sym, ap, ◌∙◌, Bool, some, List, [], ◌∷◌, ◌++◌, length, ltb,
  if◌then◌else◌, tally, arith, length-append, replicate, Bool-cases, inl, inr,
}
use mathlib.Core.List.{append-nil, append_assoc}
use mattermost_plugin_matrix.Prelude.Int.{ℤ}
use mattermost_plugin_matrix.Queue.{
  Worker, waiting, busy, returned, EventQueue, start, enqueue, worker_at, with_worker, process,
  Event, Step, submit, refuse, hand, take, finish, stop, quit, Run, here, next, taken_in, taken_up,
  worker_count,
}

module _ {T : Type 0} where
  -- The tasks that workers are running, counted by a test.
  abbrev pub running : (T → Bool) → List (Worker T) → ℕ
  running p [] = 0
  running p (busy t ∷ ws) = let rest = running p ws in if p t then suc rest else rest
  running p (w ∷ ws) = running p ws

  abbrev pub one : (T → Bool) → T → ℕ
  one p t = if p t then 1 else 0

  running-busy :
      (p : T → Bool) (ws : List (Worker T)) (i : ℕ) (t : T)
      → worker_at ws i ≡ some waiting
      → running p (with_worker ws i (busy t)) ≡ running p ws + one p t
  running-busy p [] i t h = ground arith
  running-busy p (waiting ∷ ws) zero t h = ground arith
  running-busy p (busy u ∷ ws) zero t h = absurd (ground arith)
  running-busy p (returned ∷ ws) zero t h = absurd (ground arith)
  running-busy p (waiting ∷ ws) (suc i) t h = running-busy p ws i t h
  running-busy p (busy u ∷ ws) (suc i) t h = ground (arith, running-busy p ws i t h)
  running-busy p (returned ∷ ws) (suc i) t h = running-busy p ws i t h

  running-waiting :
      (p : T → Bool) (ws : List (Worker T)) (i : ℕ) (t : T)
      → worker_at ws i ≡ some (busy t)
      → running p (with_worker ws i waiting) + one p t ≡ running p ws
  running-waiting p [] i t h = ground arith
  running-waiting p (waiting ∷ ws) zero t h = absurd (ground arith)
  running-waiting p (busy u ∷ ws) zero t h = ground arith
  running-waiting p (returned ∷ ws) zero t h = absurd (ground arith)
  running-waiting p (waiting ∷ ws) (suc i) t h = running-waiting p ws i t h
  running-waiting p (busy u ∷ ws) (suc i) t h = ground (arith, running-waiting p ws i t h)
  running-waiting p (returned ∷ ws) (suc i) t h = running-waiting p ws i t h

  running-returned :
      (p : T → Bool) (ws : List (Worker T)) (i : ℕ)
      → worker_at ws i ≡ some waiting
      → running p (with_worker ws i returned) ≡ running p ws
  running-returned p [] i h = ground arith
  running-returned p (waiting ∷ ws) zero h = refl
  running-returned p (busy u ∷ ws) zero h = absurd (ground arith)
  running-returned p (returned ∷ ws) zero h = absurd (ground arith)
  running-returned p (waiting ∷ ws) (suc i) h = running-returned p ws i h
  running-returned p (busy u ∷ ws) (suc i) h = ground (arith, running-returned p ws i h)
  running-returned p (returned ∷ ws) (suc i) h = running-returned p ws i h

  tally-append : (p : T → Bool) (xs ys : List T) → tally p (xs ++ ys) ≡ tally p xs + tally p ys
  tally-append p [] ys = omega arith
  tally-append p (x ∷ xs) ys = ground (arith, tally-append p xs ys)

  -- The tasks taken up, then those in the channel, are the tasks taken in; the channel keeps to its
  -- size; and the tasks taken up are those completed and those running, each as often.
  pub record IsSound (ins ups : List T) (q : EventQueue T) : Type 0 where
    pub fifo : ups ++ q.task_chan ≡ ins
    pub bounded : length q.task_chan ≤ q.buffer_size
    pub counted : (p : T → Bool) → tally p ups ≡ tally p q.completed + running p q.workers

  running-replicate : (p : T → Bool) (n : ℕ) → running p (replicate n waiting) ≡ 0
  running-replicate p zero = refl
  running-replicate p (suc n) = running-replicate p n

  start-IsSound : (workers size : ℤ) → IsSound [] [] (start {T = T} workers size)
  unfolding start
  start-IsSound workers size = record {
    fifo = refl;
    bounded = omega arith;
    counted = λ p. omega (arith, running-replicate p (worker_count workers));
  }

  Step-IsSound :
      {ins ups : List T} {e : Event T} {q r : EventQueue T}
      → IsSound ins ups q
      → Step q e r
      → IsSound (taken_in ins e) (taken_up ups e) r
  unfolding enqueue process
  Step-IsSound {ins} {ups} {q = q} v (submit t h) =
      elim (Bool-cases (ltb (length q.task_chan) q.buffer_size)) [
        | inl space ↦ rw space (record {
          fifo = sym (append_assoc ups q.task_chan (t ∷ [])) ∙ ap (λ xs. xs ++ t ∷ []) v.fifo;
          bounded = ground (arith, length-append q.task_chan (t ∷ []));
          counted = v.counted;
        })
        | inr full ↦ absurd (ground arith)
      ]
  Step-IsSound {ins} {ups} {q = q} v (refuse t h) =
      elim (Bool-cases (ltb (length q.task_chan) q.buffer_size)) [
        | inl space ↦ absurd (ground arith)
        | inr full ↦ rw full v
      ]
  Step-IsSound {ins} {ups} {q = q} v (hand t i empty idle) = record {
    fifo = rw empty (append-nil (ups ++ t ∷ []) ∙ ap (λ xs. xs ++ t ∷ []) whole);
    bounded = v.bounded;
    counted = λ p.
        omega (arith, v.counted p, tally-append p ups (t ∷ []), running-busy p q.workers i t idle);
  }
    where
      whole : ups ≡ ins
      whole = sym (append-nil ups) ∙ ap (λ xs. ups ++ xs) (sym empty) ∙ v.fifo
  Step-IsSound {ins} {ups} {q = q} v (take t rest i chan idle) = record {
    fifo = append_assoc ups (t ∷ []) rest ∙ rw (← chan) v.fifo;
    bounded = omega (arith, v.bounded, ap length chan);
    counted = λ p.
        omega (arith, v.counted p, tally-append p ups (t ∷ []), running-busy p q.workers i t idle);
  }
  Step-IsSound {ins} {ups} {q = q} v (finish t i err at) = record {
    fifo = v.fifo;
    bounded = v.bounded;
    counted = λ p. omega (
      arith,
      v.counted p,
      tally-append p q.completed (t ∷ []),
      running-waiting p q.workers i t at,
    );
  }
  Step-IsSound v (stop open_chan) = record {
    fifo = v.fifo;
    bounded = v.bounded;
    counted = v.counted;
  }
  Step-IsSound {ins} {ups} {q = q} v (quit i off idle) = record {
    fifo = v.fifo;
    bounded = v.bounded;
    counted = λ p. omega (arith, v.counted p, running-returned p q.workers i idle);
  }

  -- In every run of a new queue, whatever the order of its steps: the tasks that workers have taken
  -- up, in order, followed by those in the channel, are the tasks taken in, in order; the channel
  -- holds at most its size; and each task taken up is running or was completed, once.
  pub Run-IsSound :
      (workers size : ℤ) {ins ups : List T} {q : EventQueue T}
      → Run (start workers size) ins ups q
      → IsSound ins ups q
  Run-IsSound workers size here = start-IsSound workers size
  Run-IsSound workers size (next run step) = Step-IsSound (Run-IsSound workers size run) step
