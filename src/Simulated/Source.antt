-- ===== src/Simulated/Source.antt =====
-- client/Tckr.MarketWatch/src/data/SimulatedSource.ts: the methods that the pages call, and everything that
-- can happen to the source, one event at a time. A timer's event does nothing unless the timer is set;
-- that it is due is not asked.
use tckr.Prelude.{
  ℕ, ◌+◌, ◌^◌, Bool, true, false, Option, none, some, List, [], ◌∷◌, ◌++◌, String, map,
  if◌then◌else◌, ◌&&◌,
}
use tckr.Prelude.Int.{pos, ltb_ℤ}
use Prim.Native.String.{◌++◌ as join}
use tckr.Contracts.{
  Stream, live, delayed, ErrorMsg, unknown_symbol, SymbolDefinition, SymbolUniverseResponse,
  HistoryPoint, SymbolHistoryResponse,
}
use tckr.JsMap.{lookup, add, delete}
use tckr.Messages.{◌>>=◌}
use tckr.Calendar.Market.{MarketStatus, get_market_status}
use tckr.Store.{reset_stream}
use tckr.Reconnect.{CloseCode, normal, default_backoff_policy, next_delay, should_reconnect}
use tckr.Gateway.State.{Identity, ConnectionState}
use tckr.Simulated.{SimSymbol, HistorySample, next, resolve_stream}
use tckr.Simulated.Engine.{emit_status}
use tckr.Simulated.Sessions.{is_market_open, ensure_session_for}
use tckr.Simulated.State.{
  SymbolRuntime, Simulator, error_event, entitlement_event, store_calls, history_resolved, Platform,
  Act, done, throws, put, update, ◌>>◌, numeral, decimal_from_scaled,
}

-- The identity of a new session.
unfoldable pub identify : Act
identify = update (λ s. record s {
  session_counter = s.session_counter + 1;
  identity_value = some (record {
    user_id = s.config.demo_user;
    stream = resolve_stream s.config.demo_user;
    session_id = join "sim-session-" (numeral (s.session_counter + 1));
  });
})

-- `connect` where the market clock is not running; what throws rejects its promise.
unfoldable pub connect_now : Platform → ℕ → Act
unfolding emit_status identify ensure_session_for
connect_now w now =
    update (λ s. record s { connect_attempt = s.connect_attempt + 1 })
    >> (λ s. emit_status (ConnectionState.connecting s.connect_attempt) s)
    >> identify
    >> ensure_session_for w now
    >> update (λ s. record s { market_clock_handle = true; backoff_attempt = 0 })
    >> emit_status (ConnectionState.connected now)

unfoldable pub connect : Platform → ℕ → Act
unfolding connect_now
connect w now s =
    let connected = connect_now w now s in if s.market_clock_handle then done s else connected

unfoldable pub disconnect : Act
unfolding emit_status
disconnect =
    update (λ s. record s {
      drop_reconnect_timer = false;
      market_clock_handle = false;
      interval_handle = false;
    })
    >> emit_status (ConnectionState.closed normal "client disconnect")

abbrev pub unknown : String → ErrorMsg
unknown symbol = record {
  code = unknown_symbol;
  message = join "Unknown symbol: " symbol;
  request_id = none;
}

-- The body of `subscribe`'s loop.
abbrev pub subscribe_one : String → Act
subscribe_one symbol s = elim (lookup symbol s.runtime_by_symbol) [
  | none ↦ put (error_event (unknown symbol)) s
  | some runtime ↦ done (record s { subscribed = add symbol s.subscribed })
]

unfoldable pub subscribe : List String → Act
subscribe [] = done
subscribe (symbol ∷ symbols) = subscribe_one symbol >> subscribe symbols

unfoldable pub unsubscribe : List String → Act
unfolding delete
unsubscribe [] = done
unsubscribe (symbol ∷ symbols) =
    update (λ s. record s { subscribed = delete symbol s.subscribed }) >> unsubscribe symbols

abbrev pub definition_of : SimSymbol → SymbolDefinition
definition_of s = record {
  symbol = s.symbol;
  name = s.name;
  currency = "EGP";
  tick_size = s.tick_size;
  lot_size = pos s.lot_size;
  reference_price = s.reference_price;
}

unfoldable pub get_universe : Platform → ℕ → SymbolUniverseResponse
get_universe w now = record {
  as_of = w.to_iso_string (pos now);
  simulated = true;
  symbols = map definition_of w.sim_symbols;
}

unfoldable pub get_snapshot : String → ℕ → Act
get_snapshot symbol id s = done (record s {
  snapshot_requests = s.snapshot_requests ++ record { symbol = symbol; id = id } ∷ [];
  drain_timers = if s.interval_handle then s.drain_timers else s.drain_timers + 1;
})

-- The points of a history; `none` where `decimalFromScaled` throws.
unfoldable pub history_points : Platform → ℕ → List HistorySample → Option (List HistoryPoint)
unfolding decimal_from_scaled
history_points w decimals [] = some []
history_points w decimals (sample ∷ samples) = do
  p ← decimal_from_scaled sample.price decimals
  points ← history_points w decimals samples
  some (record { t = w.to_iso_string sample.t; p = p } ∷ points)

-- `!last || Date.parse(last.t) < now`: `Date.parse` reads back what `toISOString` wrote.
unfoldable pub is_before : ℕ → List HistorySample → Bool
is_before now [] = true
is_before now (sample ∷ []) = ltb_ℤ sample.t (pos now)
is_before now (sample ∷ next_sample ∷ samples) = is_before now (next_sample ∷ samples)

-- The samples that `getHistory` returns: the current price is the last one while the market is open,
-- unless a sample already stands at that time or after it.
unfoldable pub samples_at : ℕ → MarketStatus → SymbolRuntime → List HistorySample
unfolding is_before
samples_at now market runtime =
    if is_market_open market && is_before now runtime.history
    then runtime.history ++ record { t = pos now; price = runtime.price } ∷ []
    else runtime.history

abbrev pub history_answer : Platform → ℕ → String → Simulator → Option SymbolHistoryResponse
history_answer w now symbol s = do
  runtime ← lookup symbol s.runtime_by_symbol
  market ← get_market_status w.cairo_formatter (pos now)
  points ← history_points w runtime.decimals (samples_at now market runtime)
  some (record { symbol = symbol; points = points })

abbrev pub settle_history : Option SymbolHistoryResponse → Act
settle_history none = throws
settle_history (some response) = put (history_resolved response)

unfoldable pub get_history : Platform → ℕ → String → Act
unfolding ensure_session_for history_points samples_at lookup
get_history w now symbol =
    ensure_session_for w now >> (λ s. settle_history (history_answer w now symbol s) s)

abbrev pub same_stream : Stream → Stream → Bool
same_stream live live = true
same_stream delayed delayed = true
same_stream _ _ = false

-- `resetStream()`, and then the handlers of `on.entitlement`.
abbrev pub switch_stream : Platform → ℕ → Stream → Act
switch_stream w now stream s = record {
  state = record s { store = (reset_stream s.store).0 };
  output =
      store_calls (reset_stream s.store).1
      ∷ entitlement_event (record {
        stream = stream;
        resubscribe_required = true;
        effective_from = w.to_iso_string (pos now);
      })
      ∷ [];
  threw = false;
}

unfoldable pub simulate_entitlement_change : Platform → ℕ → String → Act
unfolding reset_stream
simulate_entitlement_change w now next_demo_user s =
    let next_stream = resolve_stream next_demo_user in
    let configured = record s.config { demo_user = next_demo_user } in
    elim s.identity_value [
      | none ↦ done (record s { config = configured })
      | some previous ↦
          let identity : Identity = record previous {
            user_id = next_demo_user;
            stream = next_stream;
          } in
          let after : Simulator = record s {
            config = configured;
            identity_value = some identity;
          } in
          if same_stream previous.stream next_stream
          then done after
          else switch_stream w now next_stream after
    ]

-- `shouldReconnect(code)` where it is `undefined` is not truthy.
abbrev pub is_recoverable : CloseCode → Bool
is_recoverable code = elim (should_reconnect code) [ none ↦ false | some answer ↦ answer ]

-- The retry after a drop: the delay takes a draw.
unfoldable pub schedule_retry : Act
unfolding next emit_status next_delay
schedule_retry s =
    let draw = next s.prng in
    let attempt = s.backoff_attempt + 1 in
    let delay = next_delay attempt default_backoff_policy draw.1 (2 ^ 32) in
    emit_status (ConnectionState.reconnecting attempt delay)
      (record s { prng = draw.0; backoff_attempt = attempt; drop_reconnect_timer = true })

unfoldable pub simulate_drop : CloseCode → Act
unfolding emit_status schedule_retry should_reconnect
simulate_drop code s =
    let dropped =
      (update (λ r. record r { market_clock_handle = false; interval_handle = false })
          >> emit_status (ConnectionState.closed code "simulated drop")
          >> (if is_recoverable code then schedule_retry else done))
        s in
    if s.market_clock_handle then dropped else done s

-- The callback of the retry's timer.
unfoldable pub retry_elapsed : Platform → ℕ → Act
unfolding connect
retry_elapsed w now = update (λ s. record s { drop_reconnect_timer = false }) >> connect w now
