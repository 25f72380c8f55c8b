-- ===== src/Simulated/Answers.antt =====
-- data/SimulatedSource.ts: every snapshot request is answered once, when the session is next seen to.
use tckr.Prelude.{
  ℕ, ◌≤◌, ◌<◌, ◌≡◌, refl, ap, sym, ◌∙◌, arith, false, not, ◌||◌, some, List, [], ◌∷◌, ◌++◌, String,
  append_assoc, map, Bool-cases, Option-cases, inl, inr, All,
}
use tckr.Prelude.Int.{ℤ, pos, negsuc, abs}
use tckr.Contracts.{Snapshot}
use tckr.Decimal.{from_scaled_int, to_decimal}
use tckr.Decimal.Printing.{from_scaled_int-is_decimal}
use tckr.JsMap.{JsMap, lookup}
use tckr.Calendar.Market.{Session, MarketStatus, session_of, get_market_status}
use tckr.Dispatcher.{TickDispatcher}
use tckr.Store.{Store}
use tckr.Simulated.{SimSymbol, tick_of, hash_seed}
use tckr.Simulated.Samples.{compute_backfilled_session-IsReconstructed}
use tckr.Simulated.Engine.{backfill_all_symbols, backfilled, each_until}
use tckr.Simulated.Events.{Event, run}
use tckr.Simulated.Listing.{IsPrinted, IsUniverse, IsOneOf-All, lookup-All}
use tckr.Simulated.Prices.{Lists, backfill_if_changed-Keeps}
use tckr.Simulated.Runs.{run-IsListing}
use tckr.Simulated.Sessions.{
  build_snapshot, answer, answer_each, drain_snapshot_requests, state_of, is_market_open, same_key,
  same_state, backfill_if_changed, gate_engine, backfill_target, ensure_session_for,
}
use tckr.Simulated.State.{
  SymbolRuntime, SnapshotRequest, Simulator, Output, status, error_event, tick_event,
  entitlement_event, schedule_frame, store_calls, snapshot_resolved, snapshot_rejected,
  history_resolved, Platform, Outcome, decimal_from_scaled, SimulatedSourceConfig, simulated_source,
}

same_text :
    (scaled : ℤ) (decimals : ℕ)
    → decimal_from_scaled scaled decimals ≡ to_decimal (from_scaled_int scaled decimals)
unfolding decimal_from_scaled from_scaled_int
same_text (pos n) decimals = refl
same_text (negsuc n) decimals = ground arith

-- The private copy of the scaled printing agrees with contracts/decimal.ts, and its check never fails,
-- for up to four decimals.
pub decimal_from_scaled-from_scaled_int :
    (scaled : ℤ) (decimals : ℕ)
    → decimals ≤ 4
    → decimal_from_scaled scaled decimals ≡ some (from_scaled_int scaled decimals)
unfolding to_decimal from_scaled_int
decimal_from_scaled-from_scaled_int scaled decimals few =
    let same : decimal_from_scaled scaled decimals ≡ to_decimal (from_scaled_int scaled decimals) =
      same_text scaled decimals in
    let ok = (from_scaled_int-is_decimal scaled decimals few).0 in same ∙ rw (ok, to_decimal) refl

build_snapshot_lem :
    (symbol : String) (r : SymbolRuntime) (s : Simulator)
    → r.decimals ≤ 4
    → (snapshot : Snapshot) × (build_snapshot symbol r s ≡ some snapshot)
unfolding build_snapshot
build_snapshot_lem symbol r s few =
    let printed : (z : ℤ) → decimal_from_scaled z r.decimals ≡ some (from_scaled_int z r.decimals) =
      λ z. decimal_from_scaled-from_scaled_int z r.decimals few in
    rw (printed r.price, printed r.open_price, printed r.high, printed r.low, build_snapshot)
      (_, refl)

-- The requests that an output answers.
abbrev pub answered_by : Output → List ℕ
answered_by (snapshot_resolved id snapshot) = id ∷ []
answered_by (snapshot_rejected id) = id ∷ []
answered_by (status state) = []
answered_by (error_event message) = []
answered_by (tick_event tick) = []
answered_by (entitlement_event message) = []
answered_by schedule_frame = []
answered_by (store_calls calls) = []
answered_by (history_resolved response) = []

abbrev pub answers_in : List Output → List ℕ
answers_in [] = []
answers_in (output ∷ outputs) = answered_by output ++ answers_in outputs

answers_in-append : (xs ys : List Output) → answers_in (xs ++ ys) ≡ answers_in xs ++ answers_in ys
answers_in-append [] ys = refl
answers_in-append (x ∷ xs) ys =
    ap (λ t. answered_by x ++ t) (answers_in-append xs ys)
    ∙ sym (append_assoc (answered_by x) (answers_in xs) (answers_in ys))

-- An outcome that answers the requests, and leaves the runtimes, the queue and the engine.
abbrev IsSettled : Simulator → Outcome → List ℕ → Type 0
IsSettled s o ids =
    (o.threw ≡ false)
    × (answers_in o.output ≡ ids)
    × (o.state.runtime_by_symbol ≡ s.runtime_by_symbol)
    × (o.state.snapshot_requests ≡ s.snapshot_requests)
    × (o.state.interval_handle ≡ s.interval_handle)

answer-IsSettled :
    (defs : List SimSymbol) (now : ℕ) (request : SnapshotRequest) (s : Simulator)
    → All (IsPrinted defs) s.runtime_by_symbol
    → IsSettled s (answer now request s) (request.id ∷ [])
unfolding answer
answer-IsSettled defs now request s h =
    elim (Option-cases (lookup request.symbol s.runtime_by_symbol)) [
      | inl missing ↦ rw (missing, answer) (refl, refl, refl, refl, refl)
      | inr (r, found) ↦
          let few = (lookup-All defs request.symbol s.runtime_by_symbol r h found).0 in
          let (snapshot, built) = build_snapshot_lem request.symbol r s few in
          rw (found, answer, built) (refl, refl, refl, refl, refl)
    ]

answer_each-IsSettled :
    (defs : List SimSymbol) (now : ℕ) (requests : List SnapshotRequest) (s : Simulator)
    → All (IsPrinted defs) s.runtime_by_symbol
    → IsSettled s (answer_each now requests s) (map (λ r. r.id) requests)
unfolding answer_each
answer_each-IsSettled defs now [] s h = (refl, refl, refl, refl, refl)
answer_each-IsSettled defs now (request ∷ requests) s h =
    let first = answer now request s in
    let (threw, ids, runtimes, queue, engine) = answer-IsSettled defs now request s h in
    let (threw', ids', runtimes', queue', engine') =
      answer_each-IsSettled defs now requests first.state (rw runtimes h) in
    rw threw (
      threw',
      answers_in-append first.output (answer_each now requests first.state).output
          ∙ ap (λ t. t ++ answers_in (answer_each now requests first.state).output) ids
          ∙ ap (λ t. request.id ∷ t) ids',
      runtimes' ∙ runtimes,
      queue' ∙ queue,
      engine' ∙ engine,
    )

-- A symbol's tick is not 0.
abbrev pub HasTick : SimSymbol → Type 0
HasTick def = 0 < abs (tick_of def)

-- A backfill of symbols with ticks does not throw.
each_until-backfilled :
    (w : Platform) (base_seed : ℕ) (session : Session) (target : ℤ)
    → All HasTick w.sim_symbols
    → (runtimes : JsMap SymbolRuntime) → All (IsPrinted w.sim_symbols) runtimes
    → (each_until (backfilled w base_seed session target) runtimes).1 ≡ false
unfolding each_until
each_until-backfilled w base_seed session target ticks [] h = refl
each_until-backfilled w base_seed session target ticks ((k, r) ∷ runtimes) ((few, one), h) =
    let seed : ℕ = hash_seed base_seed r.def.symbol session.session_date_key in
    let (result, computed, reconstructed) =
      compute_backfilled_session-IsReconstructed r.def session.session_open_at target seed
        (IsOneOf-All HasTick w.sim_symbols r.def ticks one) in
    rw (computed, each_until) (each_until-backfilled w base_seed session target ticks runtimes h)

-- What happens before the requests are answered neither throws nor answers, and keeps the requests.
prepared :
    (w : Platform) (now : ℕ) (market : MarketStatus) (s : Simulator)
    → All HasTick w.sim_symbols
    → Lists w s
    → let b = backfill_if_changed w now market s in
      (b.threw ≡ false) × (b.output ≡ []) × (b.state.snapshot_requests ≡ s.snapshot_requests)
unfolding backfill_if_changed backfill_all_symbols
prepared w now market s ticks h =
    let went_on =
      each_until-backfilled w s.config.seed (session_of market) (backfill_target now market) ticks
        s.runtime_by_symbol h.1 in
    elim (Bool-cases (
      not (same_key s.current_session_date_key (session_of market).session_date_key)
      || not (same_state s.last_known_market_state (state_of market)))) [
        | inl changed ↦ rw (changed, went_on) (refl, refl, refl)
        | inr same ↦ rw same (refl, refl, refl)
      ]

ensure_session_for-answers :
    (w : Platform) (now : ℕ) (market : MarketStatus) (s : Simulator)
    → get_market_status w.cairo_formatter (pos now) ≡ some market
    → All HasTick w.sim_symbols
    → Lists w s
    → let o = ensure_session_for w now s in
      (o.threw ≡ false)
      × (answers_in o.output ≡ map (λ r. r.id) s.snapshot_requests)
      × (o.state.snapshot_requests ≡ [])
      × (o.state.interval_handle ≡ is_market_open market)
unfolding ensure_session_for gate_engine drain_snapshot_requests
ensure_session_for-answers w now market s known ticks h =
    let b = backfill_if_changed w now market s in
    let (threw, output, queue) = prepared w now market s ticks h in
    let gated : Simulator = record b.state {
      last_known_market_state = some (state_of market);
      interval_handle = is_market_open market;
    } in
    let emptied : Simulator = record gated { snapshot_requests = [] } in
    let (threw', ids, runtimes, queue', engine) =
      answer_each-IsSettled w.sim_symbols now gated.snapshot_requests emptied
        (backfill_if_changed-Keeps w now market s h).1 in
    rw (known, ensure_session_for, threw, output)
      (threw', ids ∙ ap (map (λ r. r.id)) queue, queue', engine)

-- Where the calendar has an answer, and the universe is one of symbols with ticks that are not 0: after any
-- run of a new source, seeing to the session throws nothing, answers every snapshot request once and in
-- order, and the tick engine then runs if and only if the market is open.
pub run-ensure_session_for :
    (w : Platform) (config : SimulatedSourceConfig) (dispatcher : TickDispatcher) (store : Store)
    (events : List (ℕ × Event)) (now : ℕ) (market : MarketStatus)
    → IsUniverse w.sim_symbols
    → All HasTick w.sim_symbols
    → get_market_status w.cairo_formatter (pos now) ≡ some market
    → let s = (run w events (simulated_source w config dispatcher store)).0 in
      let o = ensure_session_for w now s in
      (o.threw ≡ false)
      × (answers_in o.output ≡ map (λ r. r.id) s.snapshot_requests)
      × (o.state.snapshot_requests ≡ [])
      × (o.state.interval_handle ≡ is_market_open market)
run-ensure_session_for w config dispatcher store events now market universe ticks known =
    ensure_session_for-answers w now market
      (run w events (simulated_source w config dispatcher store)).0 known ticks
      (run-IsListing w config dispatcher store events universe)
