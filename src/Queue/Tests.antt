-- ===== src/Queue/Tests.antt =====
-- Runs of server/queue.go on small inputs, and its theorems at concrete values.
use mattermost_plugin_matrix.Prelude.{ℕ, ◌≡◌, refl, true, [], ◌∷◌}
use mattermost_plugin_matrix.Prelude.Int.{pos, negsuc}
use mattermost_plugin_matrix.Queue.{
  EventQueue, start, enqueue, process, waiting, Run, here, next, submit, refuse, take, finish, stop,
  worker_count,
}
use mattermost_plugin_matrix.Queue.Fifo.{IsSound, Run-IsSound}
use mattermost_plugin_matrix.Queue.Stop.{Drained, stop_ends}

program : Unit {0}
unfolding start enqueue process
program = tt

-- One worker and room for two tasks: the third is refused, the first runs, then `Stop`.
abbrev fresh : EventQueue ℕ
fresh = start (pos 0) (pos 2)

abbrev full : EventQueue ℕ
full = (enqueue (enqueue fresh 1).0 2).0

one_running : EventQueue ℕ
unfolding program
one_running = record full {
  task_chan = 2 ∷ [];
  workers = package.mattermost_plugin_matrix.Queue.busy 1 ∷ [];
}

history : Run fresh (1 ∷ 2 ∷ []) (1 ∷ []) (record one_running { stopped = true })
unfolding program one_running
history =
    next
      (next (next (next (next here (submit 1 refl)) (submit 2 refl)) (refuse 3 refl))
        (take 1 (2 ∷ []) 0 refl refl))
      (stop refl)

at_least_one_worker : worker_count (negsuc 4) ≡ 1
unfolding worker_count
at_least_one_worker = refl

Run-IsSound_example : IsSound (1 ∷ 2 ∷ []) (1 ∷ []) (record one_running { stopped = true })
Run-IsSound_example = Run-IsSound (pos 0) (pos 2) history

stop_ends_example : Drained (record one_running { stopped = true })
stop_ends_example = stop_ends (record one_running { stopped = true }) refl
