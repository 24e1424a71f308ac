-- ===== src/Matrix/RateLimit/Config.antt =====
-- server/matrix/ratelimit.go: the rate limiting modes, and the configurations of their token buckets.
-- A rate is in tokens per 100,000 seconds.
use mattermost_plugin_matrix.Prelude.{
  ℕ, Bool, true, false, Option, none, some, List, [], ◌∷◌, if◌then◌else◌, Text, ◌==◌, lit,
}
use mattermost_plugin_matrix.Matrix.RateLimit.{TokenBucketConfig}

-- `RateLimitConfig`
pub record RateLimitConfig : Type 0 where
  pub room_creation : TokenBucketConfig
  pub messages : TokenBucketConfig
  pub invites : TokenBucketConfig
  pub registration : TokenBucketConfig
  pub joins : TokenBucketConfig
  pub enabled : Bool

abbrev bucket : ℕ → ℕ → TokenBucketConfig
bucket rate burst_size = record { rate = rate; burst_size = burst_size; interval = 0 }

-- `RateLimitingMode`: the values that the source names
pub data Mode : Type 0 where
  disabled testing relaxed automatic conservative restricted : Mode

-- the text of a mode
unfoldable pub mode_text : Mode → Text
mode_text disabled = lit "disabled"
mode_text testing = lit "testing"
mode_text relaxed = lit "relaxed"
mode_text automatic = lit "automatic"
mode_text conservative = lit "conservative"
mode_text restricted = lit "restricted"

-- `DefaultRateLimitConfig`
unfoldable pub default_rate_limit_config : RateLimitConfig
default_rate_limit_config = record {
  room_creation = bucket 5000 2;
  messages = bucket 20000 10;
  invites = bucket 30000 10;
  registration = bucket 17000 3;
  joins = bucket 20000 5;
  enabled = true;
}

-- `UnitTestRateLimitConfig`
unfoldable pub unit_test_rate_limit_config : RateLimitConfig
unit_test_rate_limit_config = record {
  room_creation = bucket 7500 3;
  messages = bucket 30000 15;
  invites = bucket 45000 15;
  registration = bucket 25500 4;
  joins = bucket 30000 7;
  enabled = true;
}

-- `LoadTestRateLimitConfig`
unfoldable pub load_test_rate_limit_config : RateLimitConfig
load_test_rate_limit_config = record {
  room_creation = bucket 10000 2;
  messages = bucket 500000 10;
  invites = bucket 100000 5;
  registration = bucket 100000 3;
  joins = bucket 100000 5;
  enabled = true;
}

-- `GetRateLimitConfigByMode` on the modes that the source names
unfoldable pub get_rate_limit_config_by_mode : Mode → RateLimitConfig
unfolding default_rate_limit_config
get_rate_limit_config_by_mode disabled = record {
  room_creation = bucket 0 0;
  messages = bucket 0 0;
  invites = bucket 0 0;
  registration = bucket 0 0;
  joins = bucket 0 0;
  enabled = false;
}
get_rate_limit_config_by_mode testing = record {
  room_creation = record { rate = 0; burst_size = 0; interval = 6700000000 };
  messages = bucket 999000 15;
  invites = bucket 999000 15;
  registration = bucket 499800 4;
  joins = bucket 501000 7;
  enabled = true;
}
get_rate_limit_config_by_mode relaxed = record {
  room_creation = bucket 25000 3;
  messages = bucket 100000 15;
  invites = bucket 150000 15;
  registration = bucket 85000 5;
  joins = bucket 100000 8;
  enabled = true;
}
get_rate_limit_config_by_mode automatic = record {
  room_creation = bucket 10000 3;
  messages = bucket 40000 12;
  invites = bucket 60000 12;
  registration = bucket 34000 4;
  joins = bucket 40000 7;
  enabled = true;
}
get_rate_limit_config_by_mode conservative = default_rate_limit_config
get_rate_limit_config_by_mode restricted = record {
  room_creation = bucket 2500 1;
  messages = bucket 10000 5;
  invites = bucket 15000 5;
  registration = bucket 8500 2;
  joins = bucket 10000 3;
  enabled = true;
}

abbrev pub all_modes : List Mode
all_modes = disabled ∷ testing ∷ relaxed ∷ automatic ∷ conservative ∷ restricted ∷ []

-- The mode of a text among a list of modes.
unfoldable pub find_mode : Text → List Mode → Option Mode
unfolding mode_text ◌==◌
find_mode s [] = none
find_mode s (m ∷ ms) = if s == mode_text m then some m else find_mode s ms

-- `ValidateRateLimitingMode`
unfoldable pub validate_rate_limiting_mode : Text → Bool
unfolding find_mode
validate_rate_limiting_mode s = elim (find_mode s all_modes) [ none ↦ false | some m ↦ true ]

-- `ParseRateLimitingMode`
unfoldable pub parse_rate_limiting_mode : Text → Mode
unfolding find_mode
parse_rate_limiting_mode s = elim (find_mode s all_modes) [ none ↦ automatic | some m ↦ m ]
