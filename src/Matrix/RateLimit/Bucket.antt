-- ===== src/Matrix/RateLimit/Bucket.antt =====
-- The limits that a token bucket of server/matrix/ratelimit.go keeps to.
use mattermost_plugin_matrix.Prelude.{
  ℕ, ◌+◌, ◌-◌, ◌*◌, ◌≤◌, ◌<◌, ◌≡◌, ◌↔◌, refl, ap, Bool, true, false, some, List, [], ◌∷◌,
  if◌then◌else◌, arith, Bool-cases, inl, inr,
}
use mattermost_plugin_matrix.Matrix.RateLimit.{
  TokenBucketConfig, TokenBucket, token, new_token_bucket, is_disabled, allow,
}

-- The bucket counts tokens.
abbrev pub IsTokenBucket : TokenBucket → Type 0
IsTokenBucket tb = (is_disabled tb ≡ false) × (tb.interval ≡ 0)

abbrev pub spent : Bool → ℕ
spent ok = if ok then token else 0

-- One call of `Allow`: what it spends and what is left come from the tokens and the refill.
pub allow_spends :
    (now : ℕ) (tb : TokenBucket)
    → IsTokenBucket tb
    → ((allow now tb).0.tokens + spent (allow now tb).1
        ≤ tb.tokens + (now - tb.last_refill) * tb.rate)
      × ((allow now tb).0.tokens ≤ tb.burst_size * token)
      × ((allow now tb).0.last_refill ≡ now)
unfolding allow
allow_spends now tb h = ground arith

pub allow_frame :
    (now : ℕ) (tb : TokenBucket)
    → ((allow now tb).0.rate ≡ tb.rate)
      × ((allow now tb).0.burst_size ≡ tb.burst_size)
      × ((allow now tb).0.interval ≡ tb.interval)
unfolding allow
allow_frame now tb = ground arith

-- Calls of `Allow` at the times of a list: the bucket, and how many were allowed.
unfoldable pub run : List ℕ → TokenBucket → TokenBucket × ℕ
run [] tb = (tb, 0)
run (now ∷ times) tb =
    let (tb', ok) = allow now tb in let (tb'', n) = run times tb' in (tb'', if ok then n + 1 else n)

-- The times do not run backwards, from `t` on.
abbrev pub IsForward : ℕ → List ℕ → Type 0
IsForward t [] = Unit
IsForward t (now ∷ times) = (t ≤ now) × IsForward now times

abbrev pub end_time : ℕ → List ℕ → ℕ
end_time t [] = t
end_time t (now ∷ times) = end_time now times

end_time-ge : (t : ℕ) (times : List ℕ) → IsForward t times → t ≤ end_time t times
end_time-ge t [] f = omega arith
end_time-ge t (now ∷ times) f = omega (arith, end_time-ge now times f.1)

allow-IsTokenBucket :
    (now : ℕ) (tb : TokenBucket) → IsTokenBucket tb → IsTokenBucket (allow now tb).0
unfolding is_disabled
allow-IsTokenBucket now tb h = ground (arith, allow_frame now tb)

split_span : (a b c r : ℕ) → a ≤ b → b ≤ c → (b - a) * r + (c - b) * r ≡ (c - a) * r
split_span a b c r h k = go (b - a) (c - b) (c - a) (omega arith)
  where
    go : (x y z : ℕ) → x + y ≡ z → x * r + y * r ≡ z * r
    go x y z e = rw (← e) (omega arith)

run_spends :
    (times : List ℕ) (tb : TokenBucket) (t : ℕ)
    → IsTokenBucket tb
    → tb.last_refill ≡ t
    → IsForward t times
    → (run times tb).1 * token + (run times tb).0.tokens
      ≤ tb.tokens + (end_time t times - t) * tb.rate
unfolding run
run_spends [] tb t h p f = omega arith
run_spends (now ∷ times) tb t h p f =
    let tb' = (allow now tb).0 in
    let one = allow_spends now tb h in
    let rest = run_spends times tb' now (allow-IsTokenBucket now tb h) one.2 f.1 in
    let span = split_span t now (end_time now times) tb.rate f.0 (end_time-ge now times f.1) in
    let rates = ap (λ r. (end_time now times - now) * r) (allow_frame now tb).0 in
    let used = ap (λ u. (now - u) * tb.rate) p in
    elim (Bool-cases (allow now tb).1) [
      | inl ok ↦ rw ok (omega (arith, one.0, rest, span, rates, used, ap spent ok))
      | inr off ↦ rw off (omega (arith, one.0, rest, span, rates, used, ap spent off))
    ]

-- However `Allow` is called on a new bucket that counts tokens, at times that do not run
-- backwards, the operations that it allows are at most the burst size and what the rate gives
-- since the bucket was made.
pub run_bound :
    (config : TokenBucketConfig) (t : ℕ) (times : List ℕ)
    → IsTokenBucket (new_token_bucket t config)
    → IsForward t times
    → (run times (new_token_bucket t config)).1 * token
      ≤ config.burst_size * token + (end_time t times - t) * config.rate
run_bound config t times h f =
    unfold new_token_bucket in
    omega (arith, run_spends times (new_token_bucket t config) t h refl f)

-- With a minimum interval, a call after one that was allowed is allowed exactly if the interval has
-- passed, and the bucket remembers the time of the last call that was allowed.
pub allow_interval_lem :
    (now later : ℕ) (tb : TokenBucket)
    → 0 < tb.interval
    → (allow now tb).1 ≡ true
    → (((allow later (allow now tb).0).1 ≡ true) ↔ (tb.interval ≤ later - now))
      × ((allow later (allow now tb).0).0.last_op
          ≡ (if (allow later (allow now tb).0).1 then some later else some now))
unfolding allow
allow_interval_lem now later tb h ok = ground arith

-- A disabled bucket allows every call and stays as it is.
pub allow_disabled :
    (now : ℕ) (tb : TokenBucket) → is_disabled tb ≡ true → allow now tb ≡ (tb, true)
unfolding allow
allow_disabled now tb h = ground arith
