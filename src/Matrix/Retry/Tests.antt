-- ===== src/Matrix/Retry/Tests.antt =====
-- Runs of server/matrix/retry.go on small inputs, and its theorems at concrete values.
use mattermost_plugin_matrix.Prelude.{
  ℕ, zero, suc, ◌+◌, ◌^◌, ◌≤◌, ◌≡◌, refl, none, some, arith, Text, lit,
}
use mattermost_plugin_matrix.Matrix.Retry.{
  default_retry_config, disabled_retry_config, plain_backoff, calculate_backoff, with_jitter,
  Outcome, exhausted_status, with_retry, is_retriable_status_code,
}
use mattermost_plugin_matrix.Matrix.Retry.Loop.{
  IsHttp, Ends, last_attempt, is_retriable, with_retry-verdict, with_retry_bounds,
}

program : Unit {0}
unfolding default_retry_config disabled_retry_config with_retry calculate_backoff plain_backoff
    with_jitter is_retriable_status_code last_attempt is_retriable
program = tt

-- Two failures that are retried, then a response.
abbrev flaky : ℕ → Outcome Text
flaky zero = record { response = some 503; err = none }
flaky (suc zero) = record { response = none; err = some (lit "timeout") }
flaky n = record { response = some 200; err = none }

flaky-IsHttp : (j : ℕ) → IsHttp (flaky j)
flaky-IsHttp zero h = ground arith
flaky-IsHttp (suc zero) h = refl
flaky-IsHttp (suc (suc n)) h = ground arith

-- The middle of the random range: no jitter.
abbrev middle : ℕ → ℕ
middle j = 2 ^ 52

runs :
    with_retry default_retry_config flaky middle
    ≡ record { response = some 200; err = none; requests = 3; slept = 300000000 }
unfolding program
runs = refl

-- A status that is not retriable comes back as it is, unless no retry is left.
not_found :
    (with_retry {E = Text} default_retry_config
      (λ j. record { response = some 404; err = none })
      middle).response
    ≡ some 404
unfolding program
not_found = refl

not_found_at_once :
    (with_retry {E = Text} disabled_retry_config
      (λ j. record { response = some 404; err = none })
      middle).err
    ≡ some (exhausted_status 404)
unfolding program
not_found_at_once = refl

with_retry-verdict_example :
    Ends default_retry_config flaky
      (last_attempt flaky 3 0)
      (with_retry default_retry_config flaky middle)
unfolding default_retry_config
with_retry-verdict_example = with_retry-verdict default_retry_config flaky middle flaky-IsHttp

with_retry_bounds_example :
    (1 ≤ (with_retry default_retry_config flaky middle).requests)
    × ((with_retry default_retry_config flaky middle).requests
        ≤ default_retry_config.max_retries + 1)
with_retry_bounds_example = with_retry_bounds default_retry_config flaky middle flaky-IsHttp
