-- ===== src/Api/Validity.antt =====
-- The configuration that is active (server/configuration.go) is a valid one.
use mattermost_plugin_matrix.Prelude.{
  ◌≡◌, subst, Bool, true, false, ◌&&◌, ◌||◌, not, Option, none, some, Option-cases, Bool-cases, inl,
  inr, List, [], ◌∷◌, ◌==◌, arith,
}
use mattermost_plugin_matrix.Matrix.RateLimit.Config.{
  parse_rate_limiting_mode, validate_rate_limiting_mode,
}
use mattermost_plugin_matrix.Matrix.RateLimit.Modes.{parse_rate_limiting_mode-mode_text}
use mattermost_plugin_matrix.Api.{Configuration, validate_configuration, on_configuration_change}

-- The mode is one that the rate limiter has, and where the synchronisation is enabled the address of
-- the Matrix server and both tokens are set.
abbrev pub is_valid : Configuration → Bool
is_valid config =
    validate_rate_limiting_mode config.rate_limiting_mode
    && not (
        config.enable_sync
        && (config.matrix_server_url == []
            || config.matrix_as_token == []
            || config.matrix_hs_token == []))

-- No configuration, or a valid one.
abbrev pub IsSound : Option Configuration → Type 0
IsSound none = Unit
IsSound (some config) = is_valid config ≡ true

-- Changes in turn: the setting of shared channels and the settings that are loaded, for each.
unfoldable pub run_changes :
    List (Option Bool × Option Configuration) → Option Configuration → Option Configuration
run_changes [] active = active
run_changes ((shared, loaded) ∷ changes) active =
    run_changes changes (on_configuration_change shared loaded active).0

validate_configuration-IsSound : (config : Configuration) → IsSound (validate_configuration config)
unfolding validate_configuration
validate_configuration-IsSound config =
    elim (Bool-cases (
      config.enable_sync
      && (config.matrix_server_url == []
          || config.matrix_as_token == []
          || config.matrix_hs_token == []))) [
            | inl bad ↦ rw bad tt
            | inr good ↦ rw good (
                ground (
                  arith,
                  (parse_rate_limiting_mode-mode_text
                      (parse_rate_limiting_mode config.rate_limiting_mode)).0,
                ))
          ]

on_configuration_change-IsSound :
    (shared : Option Bool) (loaded active : Option Configuration)
    → IsSound active
    → IsSound (on_configuration_change shared loaded active).0
unfolding on_configuration_change
on_configuration_change-IsSound none loaded active sound = sound
on_configuration_change-IsSound (some false) loaded active sound = sound
on_configuration_change-IsSound (some true) none active sound = sound
on_configuration_change-IsSound (some true) (some loaded) active sound =
    let validated = validate_configuration-IsSound loaded in
    elim (Option-cases (validate_configuration loaded)) [
      | inl e ↦ rw (e, on_configuration_change) sound
      | inr (config, e) ↦ rw (e, on_configuration_change) (subst IsSound e validated)
    ]

-- After any changes of the settings, in any order and with any errors, the plugin has no configuration
-- yet or a valid one: with a mode of the rate limiter and, if the synchronisation is enabled, with the
-- address of the Matrix server and both tokens.
pub run_changes-IsSound :
    (changes : List (Option Bool × Option Configuration)) (active : Option Configuration)
    → IsSound active
    → IsSound (run_changes changes active)
unfolding run_changes
run_changes-IsSound [] active sound = sound
run_changes-IsSound ((shared, loaded) ∷ changes) active sound =
    run_changes-IsSound changes (on_configuration_change shared loaded active).0
      (on_configuration_change-IsSound shared loaded active sound)
