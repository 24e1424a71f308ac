-- ===== src/Matrix/RateLimit/Tests.antt =====
-- Runs of server/matrix/ratelimit.go at fixed inputs, and its theorems applied to them.
use mattermost_plugin_matrix.Prelude.{ℕ, ◌+◌, ◌-◌, ◌*◌, ◌≤◌, ◌≡◌, refl, true, [], ◌∷◌, arith, ◌==◌}
use mattermost_plugin_matrix.Matrix.RateLimit.{
  TokenBucketConfig, TokenBucket, token, new_token_bucket, is_disabled, allow, get_wait_time, wait,
}
use mattermost_plugin_matrix.Matrix.RateLimit.Config.{
  restricted, mode_text, validate_rate_limiting_mode, parse_rate_limiting_mode,
}
use mattermost_plugin_matrix.Matrix.RateLimit.Bucket.{run, end_time, run_bound}
use mattermost_plugin_matrix.Matrix.RateLimit.Modes.{parse_rate_limiting_mode-mode_text}

program : Unit {0}
unfolding new_token_bucket is_disabled allow get_wait_time wait run ◌==◌ validate_rate_limiting_mode
    parse_rate_limiting_mode mode_text
program = tt

-- One token, and one more every second.
abbrev slow : TokenBucketConfig
slow = record { rate = 100000; burst_size = 1; interval = 0 }

abbrev second : ℕ
second = 1000000000

abbrev empty_bucket : TokenBucket
empty_bucket = (allow 0 (new_token_bucket 0 slow)).0

abbrev timed : TokenBucket
timed = new_token_bucket 0 (record { rate = 0; burst_size = 0; interval = 5 })

refused_then_allowed : (run (0 ∷ 5 ∷ second ∷ []) (new_token_bucket 0 slow)).1 ≡ 2
unfolding program
refused_then_allowed = refl

full_wait : get_wait_time 5 (allow 5 empty_bucket).0 ≡ 999999995
unfolding program
full_wait = refl

run_bound_example :
    (run (0 ∷ 5 ∷ second ∷ []) (new_token_bucket 0 slow)).1 * token
    ≤ slow.burst_size * token + (end_time 0 (0 ∷ 5 ∷ second ∷ []) - 0) * slow.rate
unfolding program
run_bound_example =
    run_bound slow 0 (0 ∷ 5 ∷ second ∷ []) (refl, refl)
      (omega arith, (omega arith, (omega arith, tt)))

parse_rate_limiting_mode-mode_text_example :
    (validate_rate_limiting_mode (mode_text restricted) ≡ true)
    × (parse_rate_limiting_mode (mode_text restricted) ≡ restricted)
parse_rate_limiting_mode-mode_text_example = parse_rate_limiting_mode-mode_text restricted
