-- ===== src/Simulated/Sessions.antt =====
-- client/Tckr.MarketWatch/src/data/SimulatedSource.ts: the answers to snapshot requests, the session that
-- the calendar asks for (`ensureSessionFor`), and a batch of ticks (`generateBatch`).
use tckr.Prelude.{
  ℕ, ◌+◌, ◌*◌, ◌/◌, max, Bool, true, false, not, Option, none, some, List, [], ◌∷◌, ◌==◌, ◌&&◌,
  ◌||◌, if◌then◌else◌, String,
}
use tckr.Prelude.Int.{ℤ, pos, ◌-ℤ◌, ltb_ℤ}
use tckr.Contracts.{Snapshot}
use tckr.Decimal.{subtract}
use tckr.Decimal.Percent.{percent_change_text}
use tckr.JsMap.{lookup}
use tckr.Messages.{◌>>=◌}
use tckr.Calendar.{DateKey}
use tckr.Calendar.Market.{MarketStatus, opened, closed, session_of, get_market_status}
use tckr.Store.{apply_snapshot}
use tckr.Simulated.{history_sample_interval_ms}
use tckr.Simulated.Engine.{
  current_stream, batch_interval_ms, drain_delayed_queue, generate_times, sample_history,
  backfill_all_symbols,
}
use tckr.Simulated.State.{
  SymbolRuntime, SnapshotRequest, MarketState, market_opened, market_closed, Simulator, store_calls,
  snapshot_resolved, snapshot_rejected, Platform, Act, done, throws, put, update, ◌>>◌,
  numeric_string, decimal_from_scaled,
}

-- `none` where `decimalFromScaled` throws.
unfoldable pub build_snapshot : String → SymbolRuntime → Simulator → Option Snapshot
unfolding decimal_from_scaled
build_snapshot symbol runtime s = do
  price ← decimal_from_scaled runtime.price runtime.decimals
  open_price ← decimal_from_scaled runtime.open_price runtime.decimals
  high ← decimal_from_scaled runtime.high runtime.decimals
  low ← decimal_from_scaled runtime.low runtime.decimals
  some (record {
    symbol = symbol;
    stream = current_stream s;
    price = price;
    change = subtract price open_price;
    change_percent = numeric_string (percent_change_text open_price price 2);
    open_price = open_price;
    previous_close = some (runtime.def.reference_price);
    high = high;
    low = low;
    volume = pos runtime.volume;
    last_event_id = runtime.last_event_id;
    exchange_timestamp = runtime.last_timestamp;
    snapshot_age = pos 0;
    simulated = true;
  })

-- `applySnapshot(snapshot)` and `request.resolve(snapshot)`, or the error that built none.
abbrev pub answered_with : ℕ → ℕ → Option Snapshot → Act
answered_with now id none s = throws s
answered_with now id (some snapshot) s =
    let applied = apply_snapshot snapshot now s.store in
    record {
      state = record s { store = applied.0 };
      output = store_calls applied.1 ∷ snapshot_resolved id snapshot ∷ [];
      threw = false;
    }

-- A request with the runtime of its symbol.
abbrev pub answer_for : ℕ → SnapshotRequest → Option SymbolRuntime → Act
answer_for now request none s = put (snapshot_rejected request.id) s
answer_for now request (some runtime) s =
    answered_with now request.id (build_snapshot request.symbol runtime s) s

unfoldable pub answer : ℕ → SnapshotRequest → Act
unfolding build_snapshot lookup apply_snapshot
answer now request s = answer_for now request (lookup request.symbol s.runtime_by_symbol) s

unfoldable pub answer_each : ℕ → List SnapshotRequest → Act
unfolding answer
answer_each now [] = done
answer_each now (request ∷ requests) = answer now request >> answer_each now requests

unfoldable pub drain_snapshot_requests : ℕ → Act
unfolding answer_each
drain_snapshot_requests now s =
    answer_each now s.snapshot_requests (record s { snapshot_requests = [] })

abbrev pub state_of : MarketStatus → MarketState
state_of (opened session) = market_opened
state_of (closed session next_open_at) = market_closed

abbrev pub is_market_open : MarketStatus → Bool
is_market_open (opened session) = true
is_market_open (closed session next_open_at) = false

abbrev pub same_key : Option DateKey → DateKey → Bool
same_key none key = false
same_key (some a) b = (a.year == b.year) && (a.month == b.month) && (a.day == b.day)

abbrev pub same_state : Option MarketState → MarketState → Bool
same_state (some market_opened) market_opened = true
same_state (some market_closed) market_closed = true
same_state _ _ = false

-- The instant that a backfill catches up to.
abbrev pub backfill_target : ℕ → MarketStatus → ℤ
backfill_target now (opened session) = pos now
backfill_target now (closed session next_open_at) = session.session_close_at

-- `if (sessionChanged || stateChanged)`
unfoldable pub backfill_if_changed : Platform → ℕ → MarketStatus → Act
unfolding backfill_all_symbols
backfill_if_changed w now market s =
    let session = session_of market in
    let target = backfill_target now market in
    let session_changed = not (same_key s.current_session_date_key session.session_date_key) in
    let state_changed = not (same_state s.last_known_market_state (state_of market)) in
    let caught_up =
      (backfill_all_symbols w session target
          >> update (λ r. record r {
            current_session_date_key = some (session.session_date_key);
            last_history_sample_at = some target;
          }))
        s in
    if session_changed || state_changed then caught_up else done s

-- The rest of `ensureSessionFor`: the tick engine runs if the market is open.
unfoldable pub gate_engine : MarketStatus → Act
gate_engine market = update (λ s. record s {
  last_known_market_state = some (state_of market);
  interval_handle = is_market_open market;
})

unfoldable pub ensure_session_for : Platform → ℕ → Act
unfolding backfill_if_changed gate_engine drain_snapshot_requests
ensure_session_for w now s = elim (get_market_status w.cairo_formatter (pos now)) [
  | none ↦ throws s
  | some market ↦
      (backfill_if_changed w now market >> gate_engine market >> drain_snapshot_requests now) s
]

-- `now - this.lastHistorySampleAt >= HISTORY_SAMPLE_INTERVAL_MS`
abbrev pub is_sample_due : ℕ → Option ℤ → Bool
is_sample_due now none = true
is_sample_due now (some last) = not (ltb_ℤ (pos now -ℤ last) (pos history_sample_interval_ms))

unfoldable pub sample_if_due : ℕ → Act
unfolding sample_history
sample_if_due now s =
    let sampled =
      (sample_history now >> update (λ r. record r { last_history_sample_at = some (pos now) }))
        s in
    if is_sample_due now s.last_history_sample_at then sampled else done s

-- `Math.max(1, Math.round((eventsPerSecond * BATCH_INTERVAL_MS) / 1000))`
unfoldable pub per_batch : ℕ → ℕ
per_batch events_per_second = max 1 ((events_per_second * batch_interval_ms + 500) / 1000)

unfoldable pub generate_batch : Platform → ℕ → Act
unfolding ensure_session_for sample_if_due generate_times per_batch drain_delayed_queue
generate_batch w now = ensure_session_for w now >> (λ s.
    let batch =
      (sample_if_due now
          >> (λ r. generate_times w now (per_batch r.config.events_per_second) r)
          >> drain_delayed_queue now)
        s in
    if s.interval_handle then batch else done s)
