-- ===== src/ClientConfig/Guards.antt =====
-- data/config.ts: which configurations are refused.
use tckr.Prelude.{
  has_value, ◌≡◌, ◌↔◌, refl, arith, Bool, true, false, not, ◌&&◌, Option, none, some, String,
  Bool-cases, inl, inr,
}
use tckr.Prelude.Int.{ℤ}
use tckr.ClientConfig.{
  if_target, Environment, Overrides, ClientConfig, refused, resolved, ConfigError,
  simulated_in_production, SourceKind, is_simulated, clock_target, guard_clock, read_env_flag,
  merged_config, resolve_client_config,
}

-- Where a clock is set, the source is the simulator, the build is for development, and the clock names
-- an instant.
abbrev pub ClockAllowed : Environment → SourceKind → Option String → Type 0
ClockAllowed env source none = Unit
ClockAllowed env source (some clock) =
    (is_simulated source ≡ true) × (env.prod ≡ false) × (has_value (clock_target env clock) ≡ true)

-- A production build with the simulator has been asked for.
abbrev pub SourceAllowed : Environment → SourceKind → Type 0
SourceAllowed env source =
    env.prod ≡ true
    → is_simulated source ≡ true
    → read_env_flag env "VITE_TCKR_ALLOW_SIMULATED_IN_PROD" ≡ true

if_target_iff :
    (target : Option ℤ) (config : ClientConfig)
    → (if_target target config ≡ resolved config) ↔ (has_value target ≡ true)
if_target_iff none config = ground arith
if_target_iff (some target) config = ground arith

guard_clock_iff :
    (env : Environment) (clock : Option String) (config : ClientConfig)
    → (guard_clock env clock config ≡ resolved config) ↔ ClockAllowed env config.source clock
guard_clock_iff env none config = (λ e. tt, λ h. refl)
guard_clock_iff env (some clock) config = elim (Bool-cases (is_simulated config.source)) [
  | inl simulated ↦ elim (Bool-cases env.prod) [
    | inl production ↦ rw (simulated, production) (ground arith)
    | inr development ↦
        rw (simulated, development) (ground (arith, if_target_iff (clock_target env clock) config))
  ]
  | inr gateway ↦ rw gateway (ground arith)
]

all_three : (a b c : Bool) → (a && b && not c) ≡ true → (a ≡ true) × (b ≡ true) × (c ≡ false)
all_three a b c h = ground arith

asked : (a b c : Bool) → (a && b && not c) ≡ false → a ≡ true → b ≡ true → c ≡ true
asked a b c h p q = ground arith

true-false : {a : Bool} → a ≡ true → a ≡ false → ⊥
true-false h k = ground arith

refused_resolved :
    (error : ConfigError) (config : ClientConfig) → refused error ≡ resolved config → ⊥
refused_resolved error config e = ground arith

-- A configuration resolves if and only if it is one that is allowed.
pub resolve_client_config_iff :
    (env : Environment) (overrides : Overrides)
    → let config = merged_config env overrides in
      (resolve_client_config env overrides ≡ resolved config)
      ↔ (SourceAllowed env config.source × ClockAllowed env config.source config.simulated.clock)
unfolding resolve_client_config
resolve_client_config_iff env overrides =
    let config = merged_config env overrides in
    let allowed = read_env_flag env "VITE_TCKR_ALLOW_SIMULATED_IN_PROD" in
    let (only, enough) = guard_clock_iff env config.simulated.clock config in
    elim (Bool-cases (env.prod && is_simulated config.source && not allowed)) [
      | inl refusal ↦
          let (production, simulated, not_allowed) =
            all_three env.prod (is_simulated config.source) allowed refusal in
          rw (refusal, resolve_client_config)
            (
              λ e. elim (refused_resolved simulated_in_production config e) [ ],
              λ h. elim (true-false (h.0 production simulated) not_allowed) [ ],
            )
      | inr accepted ↦
          rw (accepted, resolve_client_config)
            (
              λ e. (
                λ production simulated.
                    asked env.prod (is_simulated config.source) allowed accepted production
                      simulated,
                only e,
              ),
              λ h. enough h.1,
            )
    ]
