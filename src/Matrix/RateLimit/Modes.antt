-- ===== src/Matrix/RateLimit/Modes.antt =====
-- The rate limiting modes of server/matrix/ratelimit.go: their texts and their configurations.
use mattermost_plugin_matrix.Prelude.{
  ◌≡◌, refl, Bool, true, false, ◌&&◌, ◌||◌, Option, none, some, List, [], ◌∷◌, ltb, eqb,
  if◌then◌else◌, arith, Bool-cases, inl, inr, Text, ◌==◌, eq_iff,
}
use mattermost_plugin_matrix.Matrix.RateLimit.{TokenBucketConfig}
use mattermost_plugin_matrix.Matrix.RateLimit.Config.{
  RateLimitConfig, Mode, disabled, testing, relaxed, automatic, conservative, restricted, mode_text,
  get_rate_limit_config_by_mode, all_modes, find_mode, validate_rate_limiting_mode,
  parse_rate_limiting_mode, default_rate_limit_config,
}

-- The text of each mode is valid and is parsed to that mode.
pub parse_rate_limiting_mode-mode_text :
    (m : Mode)
    → (validate_rate_limiting_mode (mode_text m) ≡ true)
      × (parse_rate_limiting_mode (mode_text m) ≡ m)
unfolding validate_rate_limiting_mode parse_rate_limiting_mode find_mode mode_text ◌==◌
parse_rate_limiting_mode-mode_text disabled = (refl, refl)
parse_rate_limiting_mode-mode_text testing = (refl, refl)
parse_rate_limiting_mode-mode_text relaxed = (refl, refl)
parse_rate_limiting_mode-mode_text automatic = (refl, refl)
parse_rate_limiting_mode-mode_text conservative = (refl, refl)
parse_rate_limiting_mode-mode_text restricted = (refl, refl)

-- What a search through a list of modes gives.
abbrev Found : Text → Option Mode → Type 0
Found s none = Unit
Found s (some m) = s ≡ mode_text m

find_mode-Found : (s : Text) (ms : List Mode) → Found s (find_mode s ms)
unfolding find_mode
find_mode-Found s [] = tt
find_mode-Found s (m ∷ ms) = elim (Bool-cases (s == mode_text m)) [
  | inl same ↦ rw same (ground (arith, eq_iff s (mode_text m)))
  | inr other ↦ rw other (find_mode-Found s ms)
]

-- A text is either valid, and then it is the text of the mode it is parsed to, or it is parsed to
-- the automatic mode.
pub parse_rate_limiting_mode_lem :
    (s : Text)
    → if validate_rate_limiting_mode s
      then s ≡ mode_text (parse_rate_limiting_mode s)
      else parse_rate_limiting_mode s ≡ automatic
unfolding validate_rate_limiting_mode parse_rate_limiting_mode
parse_rate_limiting_mode_lem s = go (find_mode s all_modes) (find_mode-Found s all_modes)
  where
    go :
        (o : Option Mode)
        → Found s o
        → if (elim o [ none ↦ false | some m ↦ true ])
          then s ≡ mode_text (elim o [ none ↦ automatic | some m ↦ m ])
          else elim o [ none ↦ automatic | some m ↦ m ] ≡ automatic
    go none f = refl
    go (some m) f = f

-- The bucket lets operations through: it has an interval, or room for a token and a rate.
unfoldable pub is_usable : TokenBucketConfig → Bool
is_usable config = ltb 0 config.interval || (ltb 0 config.burst_size && ltb 0 config.rate)

unfoldable pub is_off : TokenBucketConfig → Bool
is_off config = eqb config.rate 0 && eqb config.burst_size 0 && eqb config.interval 0

abbrev pub all_buckets : (TokenBucketConfig → Bool) → RateLimitConfig → Bool
all_buckets p config =
    p config.room_creation
    && p config.messages
    && p config.invites
    && p config.registration
    && p config.joins

-- Every mode that is enabled has buckets that let operations through; those of the disabled mode
-- are all off.
pub get_rate_limit_config_by_mode_lem :
    (m : Mode)
    → all_buckets
        (if (get_rate_limit_config_by_mode m).enabled then is_usable else is_off)
        (get_rate_limit_config_by_mode m)
      ≡ true
unfolding get_rate_limit_config_by_mode default_rate_limit_config is_usable is_off
get_rate_limit_config_by_mode_lem disabled = refl
get_rate_limit_config_by_mode_lem testing = refl
get_rate_limit_config_by_mode_lem relaxed = refl
get_rate_limit_config_by_mode_lem automatic = refl
get_rate_limit_config_by_mode_lem conservative = refl
get_rate_limit_config_by_mode_lem restricted = refl
