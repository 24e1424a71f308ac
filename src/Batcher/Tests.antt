-- ===== src/Batcher/Tests.antt =====
-- Runs of server/batcher.go on small inputs, and its theorems at concrete values.
use mattermost_plugin_matrix.Prelude.{
  ℕ, ◌≡◌, refl, true, false, List, [], ◌∷◌, ◌++◌, ◌==◌, lit, Text,
}
use mathlib.Core.List.{Perm}
use mattermost_plugin_matrix.Prelude.Dict
use mattermost_plugin_matrix.Batcher.{
  new_batcher, pending, flush_all, Event, added, flushed, fired, called, Running, pick_call, run,
}
use mattermost_plugin_matrix.Batcher.Invariant.{IsValid, new_batcher-IsValid, run-IsValid}
use mattermost_plugin_matrix.Batcher.Delivery.{delivered, added_items, taken, run_conserves}

program : Unit {0}
unfolding new_batcher pending flush_all run pick_call delivered added_items ◌==◌ Dict.get
program = tt

abbrev idle : Running ℕ
idle = record { batcher = new_batcher; in_flight = [] }

-- The first timer of "p" is flushed by hand, its callback runs late and takes the next batch, which
-- `onFlush` is given first.
abbrev events : List (Event ℕ)
events =
    added (lit "p") 1
    ∷ added (lit "q") 7
    ∷ added (lit "p") 2
    ∷ flushed false (lit "p")
    ∷ added (lit "p") 3
    ∷ fired true 0
    ∷ called 1
    ∷ called 0
    ∷ []

abbrev after : Running ℕ
after = (run events idle).0

calls : (run events idle).1 ≡ (lit "p", 3 ∷ []) ∷ (lit "p", 1 ∷ 2 ∷ []) ∷ []
unfolding program
calls = refl

run-IsValid_example : IsValid after.batcher
run-IsValid_example = run-IsValid events idle new_batcher-IsValid

run_conserves_example :
    Perm ((run events idle).1 ++ after.in_flight) (idle.in_flight ++ taken events idle)
    × ((k : Text)
        → delivered k (taken events idle) ++ pending k after.batcher
          ≡ pending k idle.batcher ++ added_items k events)
run_conserves_example = run_conserves events idle
