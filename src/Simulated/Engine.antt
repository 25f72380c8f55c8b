-- ===== src/Simulated/Engine.antt =====
-- client/Tckr.MarketWatch/src/data/SimulatedSource.ts: the private methods, which generate ticks, deliver
-- them, keep the history and answer snapshot requests.
use tckr.Prelude.{
  ℕ, suc, ◌+◌, ◌*◌, zero, Bool, true, false, Option, none, some, List, [], ◌∷◌, ◌++◌, String, ltb,
  if◌then◌else◌,
}
use tckr.Prelude.Int.{ℤ, pos, ◌+ℤ◌, ◌*ℤ◌}
use Prim.Native.String.{◌++◌ as join}
use tckr.Text.{Text}
use tckr.Contracts.{Stream, live, delayed, TickKind, trade, bid, ask, Tick}
use tckr.Messages.{◌>>=◌}
use tckr.JsMap.{JsMap, lookup, insert, has}
use tckr.Calendar.{DateKey}
use tckr.Calendar.Market.{Session}
use tckr.Dispatcher.{push}
use tckr.Gateway.State.{Identity, ConnectionState}
use tckr.Simulated.{
  SimSymbol, next, scaled_draw, is_below, pick, pick_signed_steps, tick_of, at_least_tick, max_ℤ,
  min_ℤ, Backfill, push_sample, compute_backfilled_session, hash_seed, resolve_stream,
}
use tckr.Simulated.State.{
  SymbolRuntime, DelayedEnvelope, Simulator, Output, status, tick_event, schedule_frame, Platform,
  Act, done, throws, update, ◌>>◌, numeral, padded, decimal_from_scaled,
}

abbrev pub live_max_steps_per_tick : ℕ
live_max_steps_per_tick = 4

abbrev pub batch_interval_ms : ℕ
batch_interval_ms = 50

abbrev pub stream_or : Option Identity → String → Stream
stream_or none demo_user = resolve_stream demo_user
stream_or (some identity) demo_user = identity.stream

abbrev pub current_stream : Simulator → Stream
current_stream s = stream_or s.identity_value s.config.demo_user

unfoldable pub emit_status : ConnectionState → Act
emit_status state s = record {
  state = record s { current_connection_state = state };
  output = status state ∷ [];
  threw = false;
}

-- The writes of a loop over `runtimeBySymbol.values()`.
unfoldable pub each_runtime :
    (SymbolRuntime → SymbolRuntime) → JsMap SymbolRuntime → JsMap SymbolRuntime
each_runtime f [] = []
each_runtime f ((symbol, runtime) ∷ runtimes) = (symbol, f runtime) ∷ each_runtime f runtimes

abbrev pub frame_calls : Bool → List Output
frame_calls scheduled = if scheduled then schedule_frame ∷ [] else []

unfoldable pub emit : Tick → Act
unfolding has push
emit tick s =
    if has tick.s s.subscribed
    then record {
      state = record s { dispatcher = (push tick s.dispatcher).0 };
      output = tick_event tick ∷ frame_calls (push tick s.dispatcher).1;
      threw = false;
    }
    else done s

unfoldable pub deliver : ℕ → Tick → Act
unfolding emit
deliver now tick s = elim (current_stream s) [
  | delayed ↦ done (record s {
    delay_queue =
        s.delay_queue ++ record { tick = tick; release_at = now + s.config.delayed_offset_ms } ∷ [];
  })
  | live ↦ emit tick s
]

-- The loop of `drainDelayedQueue` over what is left in the queue.
unfoldable pub drain_queue : ℕ → List DelayedEnvelope → Act
unfolding emit
drain_queue now [] s = done (record s { delay_queue = [] })
drain_queue now (head ∷ queue) s =
    let released = (emit head.tick >> drain_queue now queue) s in
    if ltb now head.release_at then done (record s { delay_queue = head ∷ queue }) else released

unfoldable pub drain_delayed_queue : ℕ → Act
unfolding drain_queue
drain_delayed_queue now s = drain_queue now s.delay_queue s

abbrev pub kind_of : ℕ → TickKind
kind_of roll = if is_below roll 40 then trade else if is_below roll 70 then bid else ask

-- The runtime after a move of its price.
abbrev pub moved_runtime : SimSymbol → ℤ → ℕ → String → String → SymbolRuntime → SymbolRuntime
moved_runtime def steps quantity event_id timestamp runtime =
    let price = at_least_tick (tick_of def) (runtime.price +ℤ tick_of def *ℤ steps) in
    record runtime {
      price = price;
      high = max_ℤ price runtime.high;
      low = min_ℤ price runtime.low;
      volume = runtime.volume + quantity;
      last_event_id = event_id;
      last_timestamp = timestamp;
    }

-- The tick of a printed price, or the error that printed none.
abbrev pub announce : ℕ → (Text → Tick) → Option Text → Act
announce now tick none = throws
announce now tick (some price) = deliver now (tick price)

-- `generateOne` from its second draw on, for the symbol that was picked and its runtime.
unfoldable pub generate_for : Platform → ℕ → SimSymbol → SymbolRuntime → Act
unfolding pick_signed_steps next insert deliver decimal_from_scaled
generate_for w now def runtime s =
    let steps = pick_signed_steps s.prng runtime.price runtime.open_price live_max_steps_per_tick in
    let kind_roll = next steps.0 in
    let lots_roll = next kind_roll.0 in
    let quantity = def.lot_size * (1 + scaled_draw lots_roll.1 5) in
    let event_id = join "evt-" (padded 12 (s.global_event_seq + 1)) in
    let timestamp = w.to_iso_string (pos now) in
    let moved = moved_runtime def steps.1 quantity event_id timestamp runtime in
    let after : Simulator = record s {
      prng = lots_roll.0;
      global_event_seq = s.global_event_seq + 1;
      runtime_by_symbol = insert def.symbol moved s.runtime_by_symbol;
    } in
    announce now
      (λ price. record {
        s = def.symbol;
        p = price;
        q = pos quantity;
        k = kind_of kind_roll.1;
        t = timestamp;
        id = event_id;
        st = current_stream after;
      })
      (decimal_from_scaled moved.price moved.decimals) after

unfoldable pub generate_one : Platform → ℕ → Act
unfolding pick lookup generate_for next
generate_one w now s =
    let roll = next s.prng in
    let rolled : Simulator = record s { prng = roll.0 } in
    elim (pick w.sim_symbols roll.1) [
      | none ↦ throws rolled
      | some def ↦ elim (lookup def.symbol s.runtime_by_symbol) [
        | none ↦ done rolled
        | some runtime ↦ generate_for w now def runtime rolled
      ]
    ]

unfoldable pub generate_times : Platform → ℕ → ℕ → Act
unfolding generate_one
generate_times w now zero = done
generate_times w now (suc n) = generate_one w now >> generate_times w now n

unfoldable pub sample_history : ℕ → Act
unfolding each_runtime push_sample
sample_history now = update (λ s. record s {
  runtime_by_symbol =
      each_runtime
        (λ r. record r {
          history = push_sample (record { t = pos now; price = r.price }) r.history;
        })
        s.runtime_by_symbol;
})

-- `evt-bf-${sessionDateKey}-${symbol}`
abbrev pub key_string : DateKey → String
key_string key =
    join (numeral key.year) (join "-" (join (padded 2 key.month) (join "-" (padded 2 key.day))))

-- The body of `backfillAllSymbols`'s loop.
abbrev pub backfilled_with : Platform → Session → ℤ → SymbolRuntime → ℤ × Backfill → SymbolRuntime
backfilled_with w session target r (open_price, result) = record r {
  price = result.price;
  open_price = open_price;
  high = result.high;
  low = result.low;
  volume = result.volume;
  history = result.history;
  last_timestamp = w.to_iso_string target;
  last_event_id =
      join "evt-bf-" (join (key_string session.session_date_key) (join "-" r.def.symbol));
}

abbrev pub backfilled : Platform → ℕ → Session → ℤ → SymbolRuntime → Option SymbolRuntime
backfilled w base_seed session target r = do
  result ←
      compute_backfilled_session r.def session.session_open_at target
        (hash_seed base_seed r.def.symbol session.session_date_key)
  some (backfilled_with w session target r result)

-- The writes of a loop over `runtimeBySymbol.values()` whose body may throw, up to there, and whether it
-- threw.
unfoldable pub each_until :
    (SymbolRuntime → Option SymbolRuntime) → JsMap SymbolRuntime → JsMap SymbolRuntime × Bool
each_until f [] = ([], false)
each_until f ((symbol, runtime) ∷ runtimes) = elim (f runtime) [
  | none ↦ ((symbol, runtime) ∷ runtimes, true)
  | some written ↦ ((symbol, written) ∷ (each_until f runtimes).0, (each_until f runtimes).1)
]

unfoldable pub backfill_all_symbols : Platform → Session → ℤ → Act
unfolding each_until compute_backfilled_session hash_seed
backfill_all_symbols w session target s =
    let written = each_until (backfilled w s.config.seed session target) s.runtime_by_symbol in
    record { state = record s { runtime_by_symbol = written.0 }; output = []; threw = written.1 }
