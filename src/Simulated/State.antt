-- ===== src/Simulated/State.antt =====
-- The state of client/Tckr.MarketWatch/src/data/SimulatedSource.ts, with the tick dispatcher and the symbol
-- store that it feeds, and what its methods put out. A timer is a field that says whether it is set;
-- a snapshot request is known by a number. Handlers are taken not to call the source back.
use tckr.Prelude.{
  ℕ, zero, suc, ◌-◌, max, Bool, true, false, not, ◌&&◌, Option, none, List, [], ◌∷◌, ◌++◌, String,
  length, map, ◌==◌, if◌then◌else◌,
}
use tckr.Prelude.Int.{ℤ, pos, is_neg, abs}
use Prim.Native.String.{◌++◌ as join, slice}
use tckr.Text.{Text, to_digits}
use tckr.Contracts.{Tick, Snapshot, ErrorMsg, EntitlementChanged, SymbolHistoryResponse}
use tckr.Decimal.{scaled_body, to_decimal, to_scaled_int, decimal_places}
use tckr.JsMap.{JsMap, insert}
use tckr.Calendar.{FormattedParts, DateKey}
use tckr.Dispatcher.{TickDispatcher}
use tckr.Store.{Store, SymbolDef, prime_universe}
use tckr.Reconnect.{normal}
use tckr.Gateway.Outbound.{numeral_fuel}
use tckr.Gateway.State.{Identity, ConnectionState}
use tckr.Simulated.{SimSymbol, HistorySample, mulberry32}

pub record SymbolRuntime : Type 0 where
  pub def : SimSymbol
  pub decimals : ℕ
  pub price : ℤ
  pub open_price : ℤ
  pub high : ℤ
  pub low : ℤ
  pub volume : ℕ
  pub last_event_id : String
  pub last_timestamp : String
  pub history : List HistorySample

pub record DelayedEnvelope : Type 0 where
  pub tick : Tick
  pub release_at : ℕ

pub record SnapshotRequest : Type 0 where
  pub symbol : String
  pub id : ℕ

pub record SimulatedSourceConfig : Type 0 where
  pub events_per_second : ℕ
  pub delayed_offset_ms : ℕ
  pub seed : ℕ
  pub demo_user : String

-- `lastKnownMarketState`
pub data MarketState : Type 0 where
  market_opened market_closed : MarketState

-- `last_history_sample_at` is `none` for -Infinity; `drain_timers` counts the timeouts that
-- `getSnapshot` has set.
pub record Simulator : Type 0 where
  pub config : SimulatedSourceConfig
  pub dispatcher : TickDispatcher
  pub store : Store
  pub prng : ℕ
  pub runtime_by_symbol : JsMap SymbolRuntime
  pub subscribed : List String
  pub delay_queue : List DelayedEnvelope
  pub snapshot_requests : List SnapshotRequest
  pub identity_value : Option Identity
  pub interval_handle : Bool
  pub market_clock_handle : Bool
  pub current_session_date_key : Option DateKey
  pub last_known_market_state : Option MarketState
  pub connect_attempt : ℕ
  pub session_counter : ℕ
  pub global_event_seq : ℕ
  pub current_connection_state : ConnectionState
  pub backoff_attempt : ℕ
  pub drop_reconnect_timer : Bool
  pub last_history_sample_at : Option ℤ
  pub drain_timers : ℕ

pub data Output : Type 0 where
  status : ConnectionState → Output
  error_event : ErrorMsg → Output
  tick_event : Tick → Output
  entitlement_event : EntitlementChanged → Output
  schedule_frame : Output
  store_calls : List ℕ → Output
  snapshot_resolved : ℕ → Snapshot → Output
  snapshot_rejected : ℕ → Output
  history_resolved : SymbolHistoryResponse → Output

-- What the source takes from outside: `Intl`'s parts of a time, `toISOString`, and the symbols of
-- public/symbols.json.
pub record Platform : Type 0 where
  pub cairo_formatter : ℤ → FormattedParts
  pub to_iso_string : ℤ → String
  pub sim_symbols : List SimSymbol

-- A part of a method: the state after it, its output in order, and whether it has thrown, which
-- abandons what follows it.
pub record Outcome : Type 0 where
  pub state : Simulator
  pub output : List Output
  pub threw : Bool

abbrev pub Act : Type 0
Act = Simulator → Outcome

abbrev pub done : Act
done s = record { state = s; output = []; threw = false }

abbrev pub throws : Act
throws s = record { state = s; output = []; threw = true }

abbrev pub put : Output → Act
put o s = record { state = s; output = o ∷ []; threw = false }

abbrev pub update : (Simulator → Simulator) → Act
update f s = record { state = f s; output = []; threw = false }

-- What comes after an outcome.
abbrev pub follow : Outcome → Act → Outcome
follow first g =
    let second = g first.state in
    if first.threw then first else record {
      state = second.state;
      output = first.output ++ second.output;
      threw = second.threw;
    }

infixr 40 ◌>>◌
abbrev pub ◌>>◌ : Act → Act → Act
(f >> g) s = follow (f s) g

-- `String(n)`, and `padStart` of it with zeros.
abbrev pub numeral : ℕ → String
numeral n = numeral_fuel (suc n) n

abbrev pub zeros : ℕ → String
zeros zero = ""
zeros (suc n) = join "0" (zeros n)

abbrev pub padded : ℕ → ℕ → String
padded width n = join (zeros (width - length (to_digits n))) (numeral n)

-- A text of digits, signs and points, as a string.
abbrev pub numeric_string : Text → String
numeric_string [] = ""
numeric_string (c ∷ text) = join (slice "+,-./0123456789" (c - 43) (c - 42)) (numeric_string text)

-- `decimalFromScaled`; `none` is the `RangeError` of `toDecimal`.
unfoldable pub decimal_from_scaled : ℤ → ℕ → Option Text
decimal_from_scaled scaled decimals =
    let body = scaled_body (abs scaled) decimals in
    to_decimal (if is_neg scaled && not (abs scaled == 0) then b'-' ∷ body else body)

-- The runtime that the constructor makes.
abbrev pub fresh_runtime : Platform → SimSymbol → SymbolRuntime
fresh_runtime w def = record {
  def = def;
  decimals = max (decimal_places def.reference_price) (decimal_places def.tick_size);
  price = to_scaled_int def.reference_price;
  open_price = to_scaled_int def.reference_price;
  high = to_scaled_int def.reference_price;
  low = to_scaled_int def.reference_price;
  volume = 0;
  last_event_id = "evt-000000000000";
  last_timestamp = w.to_iso_string (pos 0);
  history = [];
}

unfoldable pub add_runtimes : Platform → List SimSymbol → JsMap SymbolRuntime → JsMap SymbolRuntime
add_runtimes w [] runtimes = runtimes
add_runtimes w (def ∷ defs) runtimes =
    add_runtimes w defs (insert def.symbol (fresh_runtime w def) runtimes)

abbrev pub primed : SimSymbol → SymbolDef
primed s = record { symbol = s.symbol; name = s.name; reference_price = s.reference_price }

-- The constructor, with the dispatcher that it is given or has made, and the pages' store.
unfoldable pub simulated_source :
    Platform → SimulatedSourceConfig → TickDispatcher → Store → Simulator
unfolding add_runtimes prime_universe mulberry32
simulated_source w config dispatcher store = record {
  config = config;
  dispatcher = dispatcher;
  store = prime_universe (map primed w.sim_symbols) store;
  prng = mulberry32 config.seed;
  runtime_by_symbol = add_runtimes w w.sim_symbols [];
  subscribed = [];
  delay_queue = [];
  snapshot_requests = [];
  identity_value = none;
  interval_handle = false;
  market_clock_handle = false;
  current_session_date_key = none;
  last_known_market_state = none;
  connect_attempt = 0;
  session_counter = 0;
  global_event_seq = 0;
  current_connection_state = ConnectionState.closed normal "not connected yet";
  backoff_attempt = 0;
  drop_reconnect_timer = false;
  last_history_sample_at = none;
  drain_timers = 0;
}
