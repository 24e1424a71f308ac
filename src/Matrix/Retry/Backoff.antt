-- ===== src/Matrix/Retry/Backoff.antt =====
-- The bounds of `calculateBackoff` (server/matrix/retry.go).
use mattermost_plugin_matrix.Prelude.{ℕ, ◌+◌, ◌*◌, ◌/◌, ◌^◌, ◌≤◌, ◌<◌, ◌≡◌, true, arith}
use mattermost_plugin_matrix.Matrix.Retry.{
  RetryConfig, rand_scale, plain_backoff, with_jitter, calculate_backoff,
}

pub plain_backoff-le :
    (config : RetryConfig) (attempt : ℕ) → plain_backoff config attempt ≤ config.max_backoff
unfolding plain_backoff
plain_backoff-le config attempt = ground arith

mul-le-mul : (q r s : ℕ) → r ≤ s → q * r ≤ q * s
mul-le-mul q r s h = grind arith

jitter_bounds :
    (d r : ℕ) → r < rand_scale → (3 * d ≤ 4 * with_jitter d r + 3) × (4 * with_jitter d r ≤ 5 * d)
unfolding with_jitter
jitter_bounds d r h = omega (arith, mul-le-mul (2 * (d / 4)) r rand_scale (omega arith))

-- With jitter, the backoff of every attempt but the first lies within a quarter of the plain
-- backoff, above or below, up to the rounding; so it can pass `MaxBackoff`, by a quarter of it at
-- most.
pub backoff_bounds :
    (config : RetryConfig) (attempt r : ℕ)
    → config.jitter ≡ true
    → 0 < attempt
    → r < rand_scale
    → (3 * plain_backoff config attempt ≤ 4 * calculate_backoff config attempt r + 3)
      × (4 * calculate_backoff config attempt r ≤ 5 * plain_backoff config attempt)
      × (4 * calculate_backoff config attempt r ≤ 5 * config.max_backoff)
unfolding calculate_backoff
backoff_bounds config attempt r j pos h =
    ground
      (arith, jitter_bounds (plain_backoff config attempt) r h, plain_backoff-le config attempt)

jitter_over : (d r : ℕ) → 8 ≤ d → 3 * rand_scale ≤ 4 * r → d < with_jitter d r
unfolding with_jitter
jitter_over d r big h = omega (arith, mul-le-mul (2 * (d / 4)) (3 * rand_scale) (4 * r) h)

-- With jitter, a cap of at least 8 nanoseconds that an attempt after the first reaches is passed
-- when the random number is at least three quarters: `MaxBackoff` bounds the backoff before the
-- jitter only.
pub backoff_over_cap :
    (config : RetryConfig) (attempt r : ℕ)
    → config.jitter ≡ true
    → 0 < attempt
    → config.max_backoff < config.initial_backoff * config.multiplier ^ attempt
    → 8 ≤ config.max_backoff
    → 3 * rand_scale ≤ 4 * r
    → config.max_backoff < calculate_backoff config attempt r
unfolding calculate_backoff plain_backoff
backoff_over_cap config attempt r j pos over big h =
    ground (arith, jitter_over config.max_backoff r big h)
