-- ===== src/Matrix/RateLimit/Waiting.antt =====
-- `getWaitTime` and `Wait` of server/matrix/ratelimit.go: the wait asked for is the one needed.
use native.Mathlib.Nat.{div-add-mod, mod-lt}
use mattermost_plugin_matrix.Prelude.{
  ℕ, ◌+◌, ◌-◌, ◌*◌, ◌/◌, ◌≤◌, ◌<◌, ◌≡◌, ◌≢◌, ap, Bool, true, false, ◌&&◌, Option, none, some, ltb,
  eqb, if◌then◌else◌, arith, Bool-cases, inl, inr, Option-cases,
}
use mattermost_plugin_matrix.Matrix.RateLimit.{
  TokenBucket, token, is_disabled, refill, take_token, allow, get_wait_time, wait,
}

mul_mono : (q r s : ℕ) → r ≤ s → r * q ≤ s * q
mul_mono q r s h = grind arith

wait_covers : (need rate d : ℕ) → 0 < rate → need / rate < d → need ≤ d * rate
wait_covers need rate d pos h =
    omega (
      arith,
      div-add-mod need rate,
      mod-lt need pos,
      mul_mono rate (need / rate + 1) d (omega arith),
    )

wait_short : (need rate d : ℕ) → 0 < rate → d < need / rate → d * rate < need
wait_short need rate d pos h =
    omega (arith, div-add-mod need rate, mul_mono rate (d + 1) (need / rate) (omega arith))

-- What is left after a call that was refused, in a bucket that counts tokens.
refused_tokens :
    (now : ℕ) (tb : TokenBucket)
    → (allow now tb).1 ≡ false
    → tb.interval ≡ 0
    → ((allow now tb).0.tokens < token)
      × ((allow now tb).0.last_refill ≡ now)
      × (is_disabled (allow now tb).0 ≡ false)
      × ((allow now tb).0.rate ≡ tb.rate)
      × ((allow now tb).0.burst_size ≡ tb.burst_size)
      × ((allow now tb).0.interval ≡ 0)
unfolding allow is_disabled refill take_token
refused_tokens now tb refused counted = ground arith

counted_wait :
    (now d : ℕ) (tb : TokenBucket)
    → 0 < tb.rate
    → 0 < tb.burst_size
    → tb.tokens < token
    → tb.last_refill ≡ now
    → is_disabled tb ≡ false
    → tb.interval ≡ 0
    → (get_wait_time now tb < d → (allow (now + d) tb).1 ≡ true)
      × (d < get_wait_time now tb → (allow (now + d) tb).1 ≡ false)
unfolding allow get_wait_time
counted_wait now d tb rate burst low here on counted =
    let span = ap (λ t. (now + d - t) * tb.rate) here in
    let time = ap (λ t. t * tb.rate) {x = now + d - now} {y = d} (omega arith) in
    let covers = wait_covers (token - tb.tokens) tb.rate d rate in
    let short = wait_short (token - tb.tokens) tb.rate d rate in
    (λ h. ground arith, λ h. ground arith)

-- A bucket that lets operations through in time: it has an interval, or a rate and room for a token.
abbrev pub IsUsable : TokenBucket → Type 0
IsUsable tb = (tb.interval ≡ 0 → 0 < tb.rate) × (tb.interval ≡ 0 → 0 < tb.burst_size)

-- A bucket with an interval stays as it is when it refuses a call.
refused_timed :
    (now : ℕ) (tb : TokenBucket)
    → (allow now tb).1 ≡ false
    → 0 < tb.interval
    → (allow now tb).0 ≡ tb
unfolding allow
refused_timed now tb refused timed = ground arith

-- The time of the last operation, zero if there was none.
abbrev pub time_of : Option ℕ → ℕ
time_of none = 0
time_of (some t) = t

timed_wait :
    (now d : ℕ) (tb : TokenBucket)
    → 0 < tb.interval
    → time_of tb.last_op ≤ now
    → (allow now tb).1 ≡ false
    → (get_wait_time now tb ≤ d → (allow (now + d) tb).1 ≡ true)
      × (d < get_wait_time now tb → (allow (now + d) tb).1 ≡ false)
unfolding allow get_wait_time
timed_wait now d tb timed past refused = elim (Option-cases tb.last_op) [
  | inl first ↦ absurd (ground arith)
  | inr (last, e) ↦ (λ h. ground arith, λ h. ground arith)
]

-- The two cases of the wait, put together.
by_wait : (w d : ℕ) (b : Bool) → (w < d → b ≡ true) × (d < w → b ≡ false) → d ≢ w → b ≡ ltb w d
by_wait w d b h apart = ground (arith, h)

-- After a call that was refused, the wait of `getWaitTime` is the one needed: any later call before
-- its end is refused, and one after its end is allowed, if the bucket lets operations through in
-- time and its last operation is not in the future.
pub get_wait_time_lem :
    (now d : ℕ) (tb : TokenBucket)
    → IsUsable tb
    → time_of tb.last_op ≤ now
    → (allow now tb).1 ≡ false
    → d ≢ get_wait_time now (allow now tb).0
    → (allow (now + d) (allow now tb).0).1 ≡ ltb (get_wait_time now (allow now tb).0) d
get_wait_time_lem now d tb u past refused apart =
    by_wait (get_wait_time now (allow now tb).0) d (allow (now + d) (allow now tb).0).1
      (elim (Bool-cases (ltb 0 tb.interval)) [
        | inl timed ↦ rw (refused_timed now tb refused (ground arith)) (
          (λ h. (timed_wait now d tb (ground arith) past refused).0 (omega arith)),
          (timed_wait now d tb (ground arith) past refused).1,
        )
        | inr counted ↦
            let (low, here, on, rates, bursts, off) =
              refused_tokens now tb refused (ground arith) in
            counted_wait now d (allow now tb).0 (omega (arith, rates, u.0 (ground arith)))
              (omega (arith, bursts, u.1 (ground arith))) low here on off
      ])
      apart

deadline_cases :
    {A : Type 0} (x y : A) (w deadline now : ℕ)
    → (if eqb w 0 then y else if ltb deadline (now + w) then x else y)
      ≡ (if ltb 0 w && ltb deadline (now + w) then x else y)
deadline_cases x y w deadline now = ground arith

-- `Wait` returns within two rounds, for a bucket that lets operations through in time and whose
-- last operation is not in the future, if some time passes in the first round beside the wait
-- asked for: at once if there is a token; with an error if the deadline ends before the wait does;
-- and else after the wait, with a token.
pub wait_returns :
    (late : ℕ → ℕ) (deadline now : ℕ) (tb : TokenBucket)
    → IsUsable tb
    → time_of tb.last_op ≤ now
    → 0 < late 1
    → wait 2 late deadline now tb ≡ (
        let (tb', ok) = allow now tb in
        let w = get_wait_time now tb' in
        if ok
        then some (tb', true)
        else if ltb 0 w && ltb deadline (now + w)
        then some (tb', false)
        else some ((allow (now + (w + late 1)) tb').0, true))
unfolding wait
wait_returns late deadline now tb u past slow = elim (Bool-cases (allow now tb).1) [
  | inl done ↦ ground arith
  | inr refused ↦
      let w = get_wait_time now (allow now tb).0 in
      let later =
        get_wait_time_lem now (w + late 1) tb u past refused (λ e. omega (arith, e, slow)) in
      let allowed = after w (late 1) later slow in
      let at =
        ap (λ t. allow t (allow now tb).0) {x = now + w + late 1} {y = now + (w + late 1)}
          (omega arith) in
      rw (refused, at, allowed) (deadline_cases _ _ w deadline now)
]
  where
    after : (w d : ℕ) {b : Bool} → b ≡ ltb w (w + d) → 0 < d → b ≡ true
    after w d e h = ground arith
