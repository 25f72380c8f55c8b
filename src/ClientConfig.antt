-- ===== src/ClientConfig.antt =====
-- client/Tckr.MarketWatch/src/data/config.ts: the configuration that the environment and the caller's
-- overrides resolve to, the guards on it, and the source that it makes. `+raw` is a parameter: it reads
-- a count, or nothing; a negative count, or a fraction, is not modelled.
pub mod Guards
pub mod Shared
use tckr.Prelude.{
  ℕ, Bool, true, false, not, ◌&&◌, ◌||◌, Option, none, some, String, str_eq, if◌then◌else◌,
}
use tckr.Prelude.Int.{ℤ}
use tckr.Text.{Text}
use tckr.Messages.{◌>>=◌, units}
use tckr.Calendar.{FormattedParts}
use tckr.SimulatedClock.{resolve_simulated_clock_target}
use tckr.Simulated.State.{SimulatedSourceConfig}

-- `ClientConfig['source']`
pub data SourceKind : Type 0 where
  simulated_kind gateway_kind : SourceKind

pub record SimulatedConfig : Type 0 where
  pub events_per_second : ℕ
  pub delayed_offset_ms : ℕ
  pub seed : ℕ
  pub clock : Option String

pub record ClientConfig : Type 0 where
  pub source : SourceKind
  pub gateway_url : String
  pub demo_user : String
  pub simulated : SimulatedConfig

-- `Partial<ClientConfig>`: `none` for a key that is not there. The clock is a key of its own, whose value
-- may be `undefined`.
pub record SimulatedOverrides : Type 0 where
  pub events_per_second : ℕ
  pub delayed_offset_ms : ℕ
  pub seed : ℕ
  pub clock : Option (Option String)

pub record Overrides : Type 0 where
  pub source : Option SourceKind
  pub gateway_url : Option String
  pub demo_user : Option String
  pub simulated : Option SimulatedOverrides

abbrev pub no_overrides : Overrides
no_overrides = record { source = none; gateway_url = none; demo_user = none; simulated = none }

abbrev pub defaults : ClientConfig
defaults = record {
  source = simulated_kind;
  gateway_url = "ws://localhost:5000";
  demo_user = "user-001";
  simulated = record {
    events_per_second = 2000;
    delayed_offset_ms = 15000;
    seed = 20260912;
    clock = none;
  };
}

-- `import.meta.env`, the clock, and the built-in functions that are called.
pub record Environment : Type 0 where
  pub variable : String → Option String
  pub prod : Bool
  pub now_ms : ℤ
  pub number_of : String → Option ℕ
  pub cairo_formatter : ℤ → FormattedParts
  pub trim : Text → Text
  pub to_lower_case : Text → Text

abbrev pub or_else {ℓ} : {A : Type ℓ} → Option A → A → A
or_else none a = a
or_else (some b) a = b

unfoldable pub read_env_string : Environment → String → Option String
read_env_string env key = do value ← env.variable key; if str_eq value "" then none else some value

unfoldable pub read_env_count : Environment → String → Option ℕ
unfolding read_env_string
read_env_count env key = read_env_string env key >>= env.number_of

abbrev pub is_text : Option String → String → Bool
is_text none wanted = false
is_text (some value) wanted = str_eq value wanted

unfoldable pub read_source : Environment → SourceKind
unfolding read_env_string
read_source env =
    if is_text (read_env_string env "VITE_TCKR_SOURCE") "gateway"
    then gateway_kind
    else simulated_kind

unfoldable pub read_env_flag : Environment → String → Bool
unfolding read_env_string
read_env_flag env key =
    is_text (read_env_string env key) "true" || is_text (read_env_string env key) "1"

unfoldable pub base_config : Environment → ClientConfig
unfolding read_source read_env_string read_env_count
base_config env = record {
  source = read_source env;
  gateway_url = or_else (read_env_string env "VITE_TCKR_GATEWAY_URL") defaults.gateway_url;
  demo_user = or_else (read_env_string env "VITE_TCKR_USER") defaults.demo_user;
  simulated = record {
    events_per_second =
        or_else (read_env_count env "VITE_TCKR_SIM_RATE") defaults.simulated.events_per_second;
    delayed_offset_ms =
        or_else (read_env_count env "VITE_TCKR_SIM_DELAY_MS") defaults.simulated.delayed_offset_ms;
    seed = or_else (read_env_count env "VITE_TCKR_SIM_SEED") defaults.simulated.seed;
    clock = read_env_string env "VITE_TCKR_SIM_CLOCK";
  };
}

abbrev pub overridden : SimulatedConfig → Option SimulatedOverrides → SimulatedConfig
overridden base none = base
overridden base (some o) = record {
  events_per_second = o.events_per_second;
  delayed_offset_ms = o.delayed_offset_ms;
  seed = o.seed;
  clock = or_else o.clock base.clock;
}

-- `{ ...base, ...overrides, simulated: { ...base.simulated, ...overrides?.simulated } }`
unfoldable pub merged_config : Environment → Overrides → ClientConfig
unfolding base_config
merged_config env overrides =
    let base = base_config env in
    record {
      source = or_else overrides.source base.source;
      gateway_url = or_else overrides.gateway_url base.gateway_url;
      demo_user = or_else overrides.demo_user base.demo_user;
      simulated = overridden base.simulated overrides.simulated;
    }

-- What `resolveClientConfig` throws: its own three errors, and the one of an invalid clock.
pub data ConfigError : Type 0 where
  simulated_in_production clock_without_simulator clock_in_production invalid_clock : ConfigError

pub data Resolution : Type 0 where
  refused : ConfigError → Resolution
  resolved : ClientConfig → Resolution

abbrev pub is_simulated : SourceKind → Bool
is_simulated simulated_kind = true
is_simulated gateway_kind = false

abbrev pub clock_target : Environment → String → Option ℤ
clock_target env clock =
    resolve_simulated_clock_target env.cairo_formatter env.trim env.to_lower_case (units clock)
      env.now_ms

abbrev pub if_target : Option ℤ → ClientConfig → Resolution
if_target none config = refused invalid_clock
if_target (some target) config = resolved config

-- The guards on the clock.
abbrev pub guard_clock : Environment → Option String → ClientConfig → Resolution
guard_clock env none config = resolved config
guard_clock env (some clock) config =
    if not (is_simulated config.source)
    then refused clock_without_simulator
    else if env.prod
    then refused clock_in_production
    else if_target (clock_target env clock) config

unfoldable pub resolve_client_config : Environment → Overrides → Resolution
unfolding merged_config read_env_flag resolve_simulated_clock_target
resolve_client_config env overrides =
    let config = merged_config env overrides in
    let allowed = read_env_flag env "VITE_TCKR_ALLOW_SIMULATED_IN_PROD" in
    if env.prod && is_simulated config.source && not allowed
    then refused simulated_in_production
    else guard_clock env config.simulated.clock config

-- The implementation that a source is made by, with what its constructor is given.
pub data MarketDataSource : Type 0 where
  gateway_source : ClientConfig → MarketDataSource
  simulated_source : SimulatedSourceConfig → MarketDataSource

abbrev pub source_of : ClientConfig → MarketDataSource
source_of config =
    let simulator = simulated_source (record {
      events_per_second = config.simulated.events_per_second;
      delayed_offset_ms = config.simulated.delayed_offset_ms;
      seed = config.simulated.seed;
      demo_user = config.demo_user;
    }) in
    if is_simulated config.source then simulator else gateway_source config

abbrev pub made : Resolution → Option MarketDataSource
made (refused error) = none
made (resolved config) = some (source_of config)

-- `none` is the error that `resolveClientConfig` throws.
unfoldable pub create_market_data_source : Environment → Overrides → Option MarketDataSource
unfolding resolve_client_config
create_market_data_source env overrides = made (resolve_client_config env overrides)
