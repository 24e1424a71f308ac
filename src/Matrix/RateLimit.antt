-- ===== src/Matrix/RateLimit.antt =====
-- server/matrix/ratelimit.go: token buckets.
-- Times and durations are in nanoseconds, and time does not run backwards. A rate is in tokens per
-- 100,000 seconds, which holds every rate of the file exactly, and tokens are counted in units of
-- 10^-14: so `elapsed * rate` is exact, where the source has the rounding of its floats.
pub mod Bucket
pub mod Waiting
pub mod Config
pub mod Modes
mod Tests
use mattermost_plugin_matrix.Prelude.{
  ℕ, zero, suc, ◌+◌, ◌-◌, ◌*◌, ◌/◌, ◌^◌, Bool, true, false, ◌&&◌, Option, none, some, List, [], ◌∷◌,
  ltb, leb, eqb, if◌then◌else◌, Text, ◌==◌, lit,
}

-- `TokenBucketConfig`
pub record TokenBucketConfig : Type 0 where
  pub rate : ℕ
  pub burst_size : ℕ
  pub interval : ℕ

-- `TokenBucket`; a zero `lastOp` is none
pub record TokenBucket : Type 0 where
  pub rate : ℕ
  pub burst_size : ℕ
  pub tokens : ℕ
  pub last_refill : ℕ
  pub interval : ℕ
  pub last_op : Option ℕ

-- One token.
abbrev pub token : ℕ
token = 10 ^ 14

-- `DisabledWaitTime`
abbrev pub disabled_wait_time : ℕ
disabled_wait_time = 3600000000000

-- `NewTokenBucket`
unfoldable pub new_token_bucket : ℕ → TokenBucketConfig → TokenBucket
new_token_bucket now config = record {
  rate = config.rate;
  burst_size = config.burst_size;
  tokens = config.burst_size * token;
  last_refill = now;
  interval = config.interval;
  last_op = none;
}

-- `isDisabled`
unfoldable pub is_disabled : TokenBucket → Bool
is_disabled tb = eqb tb.rate 0 && eqb tb.burst_size 0 && eqb tb.interval 0

-- the branch of `Allow` for a minimum interval
unfoldable pub allow_interval : ℕ → TokenBucket → TokenBucket × Bool
allow_interval now tb = elim tb.last_op [
  | none ↦ (record tb { last_op = some now }, true)
  | some last ↦
      if ltb (now - last) tb.interval then (tb, false) else (record tb { last_op = some now }, true)
]

-- the refill of `Allow`
unfoldable pub refill : ℕ → TokenBucket → TokenBucket
refill now tb =
    let tokens = tb.tokens + (now - tb.last_refill) * tb.rate in
    record tb {
      tokens = if ltb (tb.burst_size * token) tokens then tb.burst_size * token else tokens;
      last_refill = now;
    }

-- the end of `Allow`: a token is taken if there is one
unfoldable pub take_token : TokenBucket → TokenBucket × Bool
take_token tb =
    if leb token tb.tokens then (record tb { tokens = tb.tokens - token }, true) else (tb, false)

-- `Allow`
unfoldable pub allow : ℕ → TokenBucket → TokenBucket × Bool
unfolding is_disabled allow_interval refill take_token
allow now tb =
    if is_disabled tb
    then (tb, true)
    else if ltb 0 tb.interval
    then allow_interval now tb
    else take_token (refill now tb)

-- `getWaitTime`
unfoldable pub get_wait_time : ℕ → TokenBucket → ℕ
unfolding is_disabled
get_wait_time now tb =
    if is_disabled tb
    then 0
    else if ltb 0 tb.interval
    then elim tb.last_op [
      | none ↦ 0
      | some last ↦ if leb tb.interval (now - last) then 0 else tb.interval - (now - last)
    ]
    else if leb token tb.tokens
    then 0
    else if eqb tb.rate 0
    then disabled_wait_time
    else (token - tb.tokens) / tb.rate

-- `Wait`, where nobody else uses the bucket: `deadline` is that of the context, and `late i` the time
-- that passes in the `i`-th round beside the wait asked for. The result is the bucket, and whether it
-- returned without an error; none if the rounds did not suffice.
unfoldable pub wait : ℕ → (ℕ → ℕ) → ℕ → ℕ → TokenBucket → Option (TokenBucket × Bool)
unfolding allow get_wait_time
wait zero late deadline now tb = none
wait (suc rounds) late deadline now tb =
    let (tb', done) = allow now tb in
    let w = get_wait_time now tb' in
    let again = wait rounds late deadline (now + w + late rounds) tb' in
    if done
    then some (tb', true)
    else if eqb w 0
    then again
    else if ltb deadline (now + w)
    then some (tb', false)
    else again
