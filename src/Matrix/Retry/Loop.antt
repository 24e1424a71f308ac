-- ===== src/Matrix/Retry/Loop.antt =====
-- `withRetry` of server/matrix/retry.go against a specification without its loop.
use mattermost_plugin_matrix.Prelude.{
  ℕ, zero, suc, ◌+◌, ◌≤◌, ◌≡◌, refl, Bool, true, false, Option, none, some, ltb, eqb, if◌then◌else◌,
  arith, Bool-cases, inl, inr,
}
use native.Mathlib.Numerals.{add-one}
use mattermost_plugin_matrix.Matrix.Retry.{
  RetryConfig, is_retriable_status_code, calculate_backoff, should_retry, Outcome, RetryError,
  Reply, is_success, status_after, exhausted_err, plain_err, is_some, give_up, retry_loop,
  with_retry,
}

-- A status that the loop has kept from an earlier attempt was retriable.
abbrev IsStale : ℕ → Type 0
IsStale status = (ltb 0 status ≡ true → is_retriable_status_code status ≡ true)

module _ {ℓ} {E : Type ℓ} where
  -- What the HTTP library promises: a request gives a response or an error.
  abbrev pub IsHttp : Outcome E → Type 0
  IsHttp o = o.response ≡ none → is_some o.err ≡ true

  -- The outcomes after which a request is worth another try: a status in the list, or, where there
  -- is no response, an error.
  unfoldable pub is_retriable : Outcome E → Bool
  is_retriable o = elim o.response [
    | none ↦ is_some o.err
    | some code ↦ if ltb 0 code then is_retriable_status_code code else is_some o.err
  ]

  -- The attempt after which no other is made: the first whose outcome is not retriable, and at most
  -- the last one.
  unfoldable pub last_attempt : (ℕ → Outcome E) → ℕ → ℕ → ℕ
  last_attempt request zero attempt = attempt
  last_attempt request (suc n) attempt =
      if is_retriable (request attempt) then last_attempt request n (attempt + 1) else attempt

  -- What is returned after the outcome `o` of the last attempt made; `is_last` if no retry was left.
  unfoldable pub verdict : Bool → Outcome E → Option ℕ × Option (RetryError E)
  verdict is_last o =
      if is_success o
      then (o.response, none)
      else if is_last
      then (none, some (exhausted_err o.err (status_after 0 o.response)))
      else (o.response, plain_err o.err)

  success_stops : (o : Outcome E) → is_success o ≡ true → is_retriable o ≡ false
  unfolding is_success is_retriable is_retriable_status_code
  success_stops o h = ground arith

  retry_cases :
      (config : RetryConfig) (attempt r status : ℕ) (response : Option ℕ) (err : Option E)
      → (response ≡ none → is_some err ≡ true)
      → IsStale status
      → suc attempt ≤ config.max_retries
      → should_retry err (status_after status response) attempt config r ≡ (
          if is_retriable (record { response = response; err = err })
          then some (calculate_backoff config attempt r)
          else none)
  unfolding should_retry is_retriable
  retry_cases config attempt r status none none http stale more = absurd (ground (arith, http refl))
  retry_cases config attempt r status none (some e) http stale more = ground arith
  retry_cases config attempt r status (some code) none http stale more = ground arith
  retry_cases config attempt r status (some code) (some e) http stale more = ground arith

  -- A retriable outcome leaves a status that is retriable.
  status-IsStale :
      (status : ℕ) (response : Option ℕ) (err : Option E)
      → IsStale status
      → is_retriable (record { response = response; err = err }) ≡ true
      → IsStale (status_after status response)
  unfolding is_retriable
  status-IsStale status none err stale h = stale
  status-IsStale status (some code) err stale h = λ p. ground arith

  -- The last attempt ends the loop.
  last_stops :
      (config : RetryConfig) (attempt r status : ℕ) (err : Option E)
      → config.max_retries ≤ attempt
      → should_retry err status attempt config r ≡ none
  unfolding should_retry
  last_stops config attempt r status err h = ground arith

  give_up_last :
      (config : RetryConfig) (attempt status slept : ℕ) (response : Option ℕ) (err : Option E)
      → (response ≡ none → is_some err ≡ true)
      → config.max_retries ≤ attempt
      → is_success (record { response = response; err = err }) ≡ false
      → ((give_up config attempt
            (record { response = response; err = err })
            (status_after status response)
            slept).response
          ≡ none)
        × ((give_up config attempt
              (record { response = response; err = err })
              (status_after status response)
              slept).err
            ≡ some (exhausted_err err (status_after 0 response)))
  unfolding give_up is_success
  give_up_last config attempt status slept none none http last fails =
      absurd (ground (arith, http refl))
  give_up_last config attempt status slept none (some e) http last fails = ground arith
  give_up_last config attempt status slept (some code) none http last fails = ground arith
  give_up_last config attempt status slept (some code) (some e) http last fails = ground arith

  requests-give_up :
      (config : RetryConfig) (attempt status slept : ℕ) (o : Outcome E)
      → (give_up config attempt o status slept).requests ≡ attempt + 1
  unfolding give_up
  requests-give_up config attempt status slept o = ground arith

  give_up_early :
      (config : RetryConfig) (attempt status slept : ℕ) (o : Outcome E)
      → suc attempt ≤ config.max_retries
      → (give_up config attempt o status slept).response ≡ o.response
        × (give_up config attempt o status slept).err ≡ plain_err o.err
  unfolding give_up
  give_up_early config attempt status slept o h = ground arith

  -- What the loop returns, by the last attempt.
  abbrev pub Ends : RetryConfig → (ℕ → Outcome E) → ℕ → Reply E → Type ℓ
  Ends config request a r =
      (r.requests ≡ a + 1)
      × (r.response ≡ (verdict (eqb a config.max_retries) (request a)).0)
      × (r.err ≡ (verdict (eqb a config.max_retries) (request a)).1)

  module _ (config : RetryConfig) (request : ℕ → Outcome E) (rand : ℕ → ℕ)
      (http : (j : ℕ) → IsHttp (request j)) where
    loop_last :
        (attempt status slept : ℕ) (last_err : Option E)
        → config.max_retries ≡ attempt
        → Ends config request attempt
            (retry_loop config request rand 1 attempt last_err status slept)
    unfolding retry_loop verdict
    loop_last attempt status slept last_err here =
        elim (Bool-cases (is_success (request attempt))) [
          | inl good ↦ ground arith
          | inr bad ↦ ground (
            arith,
            last_stops config attempt (rand attempt)
                (status_after status (request attempt).response) (request attempt).err
                (omega arith),
            give_up_last config attempt status slept (request attempt).response
                (request attempt).err (http attempt) (omega arith) bad,
            requests-give_up config attempt (status_after status (request attempt).response) slept
                (request attempt),
          )
        ]

    loop_stops :
        (n attempt status slept : ℕ) (last_err : Option E)
        → IsStale status
        → suc attempt ≤ config.max_retries
        → is_retriable (request attempt) ≡ false
        → Ends config request attempt
            (retry_loop config request rand (suc n) attempt last_err status slept)
    unfolding retry_loop verdict
    loop_stops n attempt status slept last_err stale more off = ground (
      arith,
      retry_cases config attempt (rand attempt) status (request attempt).response
          (request attempt).err (http attempt) stale more,
      give_up_early config attempt (status_after status (request attempt).response) slept
          (request attempt) more,
      requests-give_up config attempt (status_after status (request attempt).response) slept
          (request attempt),
    )

    loop_goes_on :
        (n attempt status slept : ℕ) (last_err : Option E)
        → IsStale status
        → suc attempt ≤ config.max_retries
        → is_retriable (request attempt) ≡ true
        → retry_loop config request rand (suc n) attempt last_err status slept
          ≡ retry_loop config request rand n
              (attempt + 1)
              (request attempt).err
              (status_after status (request attempt).response)
              (slept + calculate_backoff config attempt (rand attempt))
    unfolding retry_loop
    loop_goes_on n attempt status slept last_err stale more on = ground (
      arith,
      retry_cases config attempt (rand attempt) status (request attempt).response
          (request attempt).err (http attempt) stale more,
      success_stops (request attempt),
    )

    loop_lem :
        (n attempt status slept : ℕ) (last_err : Option E)
        → IsStale status
        → config.max_retries ≡ attempt + n
        → Ends config request
            (last_attempt request n attempt)
            (retry_loop config request rand (suc n) attempt last_err status slept)
    unfolding last_attempt
    loop_lem zero attempt status slept last_err stale total =
        loop_last attempt status slept last_err (omega arith)
    loop_lem (suc n) attempt status slept last_err stale total =
        elim (Bool-cases (is_retriable (request attempt))) [
          | inr off ↦
              rw off (loop_stops (suc n) attempt status slept last_err stale (omega arith) off)
          | inl on ↦ rw on (
              rw (loop_goes_on (suc n) attempt status slept last_err stale (omega arith) on) (
                loop_lem n (attempt + 1) (status_after status (request attempt).response)
                  (slept + calculate_backoff config attempt (rand attempt)) (request attempt).err
                  (status-IsStale status (request attempt).response (request attempt).err stale on)
                  (omega arith)))
        ]

-- `withRetry` makes one request and then one more as long as the outcome is retriable and a retry is
-- left, so at least one and at most `MaxRetries + 1`. If the last of them succeeded, it returns its
-- response; if it failed and was the last one allowed, an error and no response; and otherwise its
-- response and error as they are. This holds if every request gives a response or an error.
pub with_retry-verdict {ℓ} :
    {E : Type ℓ} (config : RetryConfig) (request : ℕ → Outcome E) (rand : ℕ → ℕ)
    → ((j : ℕ) → IsHttp (request j))
    → Ends config request
        (last_attempt request config.max_retries 0)
        (with_retry config request rand)
unfolding with_retry
with_retry-verdict config request rand http = rw add-one (
    loop_lem config request rand http config.max_retries 0 0 0 none (λ h. ground arith)
      (omega arith))

last_attempt-le {ℓ} :
    {E : Type ℓ} (request : ℕ → Outcome E) (n attempt : ℕ)
    → (attempt ≤ last_attempt request n attempt) × (last_attempt request n attempt ≤ attempt + n)
unfolding last_attempt
last_attempt-le request zero attempt = omega arith
last_attempt-le request (suc n) attempt = ground (arith, last_attempt-le request n (attempt + 1))

-- Whatever the requests give, `withRetry` makes at least one and at most `MaxRetries + 1` of them.
pub with_retry_bounds {ℓ} :
    {E : Type ℓ} (config : RetryConfig) (request : ℕ → Outcome E) (rand : ℕ → ℕ)
    → ((j : ℕ) → IsHttp (request j))
    → (1 ≤ (with_retry config request rand).requests)
      × ((with_retry config request rand).requests ≤ config.max_retries + 1)
with_retry_bounds config request rand http = omega (
  arith,
  (with_retry-verdict config request rand http).0,
  last_attempt-le request config.max_retries 0,
)
