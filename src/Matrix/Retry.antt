-- ===== src/Matrix/Retry.antt =====
-- server/matrix/retry.go: when and how long a failed request is retried. A request is what the
-- HTTP library gives back: a response with its status, an error, or both. Durations are in
-- nanoseconds. `MaxRetries` and `Multiplier` are natural numbers, as in every configuration that
-- the program builds.
pub mod Loop
pub mod Backoff
mod Tests
use mattermost_plugin_matrix.Prelude.{
  ℕ, zero, suc, ◌+◌, ◌-◌, ◌*◌, ◌/◌, ◌^◌, Bool, true, false, ◌&&◌, ◌||◌, Option, none, some, ltb,
  leb, eqb, if◌then◌else◌,
}

pub record RetryConfig : Type 0 where
  pub max_retries : ℕ
  pub initial_backoff : ℕ
  pub max_backoff : ℕ
  pub multiplier : ℕ
  pub jitter : Bool

-- `DefaultRetryConfig`
unfoldable pub default_retry_config : RetryConfig
default_retry_config = record {
  max_retries = 3;
  initial_backoff = 100000000;
  max_backoff = 30000000000;
  multiplier = 2;
  jitter = true;
}

-- `DisabledRetryConfig`
unfoldable pub disabled_retry_config : RetryConfig
disabled_retry_config = record {
  max_retries = 0;
  initial_backoff = 0;
  max_backoff = 0;
  multiplier = 0;
  jitter = false;
}

-- `isRetriableStatusCode`
unfoldable pub is_retriable_status_code : ℕ → Bool
is_retriable_status_code code =
    eqb code 429 || eqb code 408 || eqb code 503 || eqb code 504 || eqb code 502 || eqb code 500

-- `isRetriableError`
unfoldable pub is_retriable_error {ℓ} : {E : Type ℓ} → Option E → Bool
is_retriable_error none = false
is_retriable_error (some e) = true

-- The denominator of `rand.Float64`.
abbrev pub rand_scale : ℕ
rand_scale = 2 ^ 53

-- `calculateBackoff` before the jitter, for an attempt after the first: exponential, with a cap
unfoldable pub plain_backoff : RetryConfig → ℕ → ℕ
plain_backoff config attempt =
    let backoff = config.initial_backoff * config.multiplier ^ attempt in
    if ltb config.max_backoff backoff then config.max_backoff else backoff

-- the jitter of `calculateBackoff`: a quarter less or more, where `rand.Float64()` is
-- `r / rand_scale`. The floats of the source hold these values exactly, up to the rounding of the
-- jitter to a nanosecond.
unfoldable pub with_jitter : ℕ → ℕ → ℕ
with_jitter duration r = duration + 2 * (duration / 4) * r / rand_scale - duration / 4

-- `calculateBackoff`
unfoldable pub calculate_backoff : RetryConfig → ℕ → ℕ → ℕ
calculate_backoff config attempt r =
    if eqb attempt 0
    then config.initial_backoff
    else if config.jitter
    then with_jitter (plain_backoff config attempt) r
    else plain_backoff config attempt

-- `shouldRetry`: none for no retry, or the backoff
unfoldable pub should_retry {ℓ} : {E : Type ℓ} → Option E → ℕ → ℕ → RetryConfig → ℕ → Option ℕ
unfolding is_retriable_error
should_retry err status attempt config r =
    if leb config.max_retries attempt
    then none
    else if (if ltb 0 status then is_retriable_status_code status else is_retriable_error err)
    then some (calculate_backoff config attempt r)
    else none

-- What one call of `requestFunc` returns.
pub record Outcome {ℓ} (E : Type ℓ) : Type ℓ where
  pub response : Option ℕ
  pub err : Option E

-- The error of `withRetry`: that of the last request as it is, or wrapped, or its status.
pub data RetryError {ℓ} (E : Type ℓ) : Type ℓ where
  unwrapped : E → RetryError E
  exhausted : E → RetryError E
  exhausted_status : ℕ → RetryError E

-- What `withRetry` returns, the number of requests made and the time slept.
pub record Reply {ℓ} (E : Type ℓ) : Type ℓ where
  pub response : Option ℕ
  pub err : Option (RetryError E)
  pub requests : ℕ
  pub slept : ℕ

-- The status that the loop of `withRetry` remembers: the last one that a response had.
abbrev pub status_after : ℕ → Option ℕ → ℕ
status_after last none = last
status_after last (some code) = code

module _ {ℓ} {E : Type ℓ} where
  -- `err == nil && resp != nil && resp.StatusCode < 400`
  unfoldable pub is_success : Outcome E → Bool
  is_success o = elim o.err [
    | some e ↦ false
    | none ↦ elim o.response [ none ↦ false | some code ↦ ltb code 400 ]
  ]

  -- the error after the last retry
  abbrev pub exhausted_err : Option E → ℕ → RetryError E
  exhausted_err (some e) status = exhausted e
  exhausted_err none status = exhausted_status status

  abbrev pub plain_err : Option E → Option (RetryError E)
  plain_err none = none
  plain_err (some e) = some (unwrapped e)

  abbrev pub is_some : Option E → Bool
  is_some none = false
  is_some (some e) = true

  -- what the loop returns when it does not retry
  unfoldable pub give_up : RetryConfig → ℕ → Outcome E → ℕ → ℕ → Reply E
  give_up config attempt o status slept =
      if leb config.max_retries attempt && (is_some o.err || leb 400 status)
      then record {
        response = none;
        err = some (exhausted_err o.err status);
        requests = attempt + 1;
        slept = slept;
      }
      else record {
        response = o.response;
        err = plain_err o.err;
        requests = attempt + 1;
        slept = slept;
      }

  module _ (config : RetryConfig) (request : ℕ → Outcome E) (rand : ℕ → ℕ) where
    -- the loop of `withRetry` with the rounds that are left
    unfoldable pub retry_loop : ℕ → ℕ → Option E → ℕ → ℕ → Reply E
    unfolding is_success should_retry give_up
    retry_loop zero attempt last_err status slept = record {
      response = none;
      err = some (exhausted_err last_err status);
      requests = attempt;
      slept = slept;
    }
    retry_loop (suc rounds) attempt last_err status slept =
        let o = request attempt in
        let status' = status_after status o.response in
        if is_success o
        then record { response = o.response; err = none; requests = attempt + 1; slept = slept }
        else elim (should_retry o.err status' attempt config (rand attempt)) [
          | none ↦ give_up config attempt o status' slept
          | some backoff ↦ retry_loop rounds (attempt + 1) o.err status' (slept + backoff)
        ]

    -- `withRetry`
    unfoldable pub with_retry : Reply E
    unfolding retry_loop
    with_retry = retry_loop (config.max_retries + 1) 0 none 0 0
