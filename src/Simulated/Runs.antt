-- ===== src/Simulated/Runs.antt =====
-- data/SimulatedSource.ts: whatever happens to the source, every symbol of the universe keeps a runtime
-- with the prices of a session.
use tckr.Prelude.{
  ℕ, ◌+◌, ◌-◌, refl, arith, true, false, Option, none, some, List, [], ◌∷◌, String, ltb, All,
}
use tckr.JsMap.{delete}
use tckr.Reconnect.{CloseCode}
use tckr.Dispatcher.{TickDispatcher}
use tckr.Store.{Store}
use tckr.Simulated.{resolve_stream}
use tckr.Simulated.Engine.{emit_status}
use tckr.Simulated.Sessions.{drain_snapshot_requests, ensure_session_for, generate_batch}
use tckr.Contracts.{SymbolHistoryResponse}
use Prim.Native.String.{◌++◌ as join}
use tckr.Gateway.State.{ConnectionState}
use tckr.Simulated.Source.{
  settle_history, subscribe_one, connect_now, connect, disconnect, subscribe, unsubscribe,
  get_snapshot, get_history, simulate_entitlement_change, simulate_drop, retry_elapsed,
  schedule_retry, identify, history_answer,
}
use tckr.Simulated.Events.{Event, step, run}
use tckr.Simulated.Listing.{IsListed, IsUniverse, add_runtimes-IsListing}
use tckr.Simulated.Writes.{follow_leaves, LeavesRuntimes}
use tckr.Simulated.State.{
  numeral, SimulatedSourceConfig, Simulator, Platform, Act, ◌>>◌, update, simulated_source,
}
use tckr.Simulated.Prices.{
  Lists, Keeps, leaves-Keeps, follow-Keeps, if_Keeps, unless-Keeps, drain_snapshot_requests-Keeps,
  ensure_session_for-Keeps, generate_batch-Keeps,
}

subscribe_one_leaves : (symbol : String) → LeavesRuntimes (subscribe_one symbol)
subscribe_one_leaves symbol s = ground arith

subscribe_leaves : (symbols : List String) → LeavesRuntimes (subscribe symbols)
unfolding subscribe
subscribe_leaves [] s = refl
subscribe_leaves (symbol ∷ symbols) s =
    follow_leaves (subscribe_one symbol) (subscribe symbols) (subscribe_one_leaves symbol)
      (subscribe_leaves symbols) s

unsubscribe_leaves : (symbols : List String) → LeavesRuntimes (unsubscribe symbols)
unfolding unsubscribe
unsubscribe_leaves [] s = refl
unsubscribe_leaves (symbol ∷ symbols) s =
    unsubscribe_leaves symbols (record s { subscribed = delete symbol s.subscribed })

simulate_drop_leaves : (code : CloseCode) → LeavesRuntimes (simulate_drop code)
unfolding simulate_drop emit_status schedule_retry
simulate_drop_leaves code s = ground arith

settle_history_leaves :
    (answer : Option SymbolHistoryResponse) → LeavesRuntimes (settle_history answer)
settle_history_leaves none s = refl
settle_history_leaves (some response) s = refl

module _ (w : Platform) where
  connect_now-Keeps : (now : ℕ) → Keeps w (connect_now w now)
  unfolding connect_now emit_status identify
  connect_now-Keeps now s h =
      let connected : Act =
        update (λ r. record r { market_clock_handle = true; backoff_attempt = 0 })
        >> emit_status (ConnectionState.connected now) in
      follow-Keeps w (ensure_session_for w now) connected (ensure_session_for-Keeps w now)
        (λ t k. k)
        (record s {
          connect_attempt = s.connect_attempt + 1;
          current_connection_state = ConnectionState.connecting (s.connect_attempt + 1);
          session_counter = s.session_counter + 1;
          identity_value = some (record {
            user_id = s.config.demo_user;
            stream = resolve_stream s.config.demo_user;
            session_id = join "sim-session-" (numeral (s.session_counter + 1));
          });
        })
        h

  connect-Keeps : (now : ℕ) → Keeps w (connect w now)
  unfolding connect
  connect-Keeps now =
      unless-Keeps w (λ s. s.market_clock_handle) (connect_now w now) (connect_now-Keeps now)

  get_history-Keeps : (now : ℕ) (symbol : String) → Keeps w (get_history w now symbol)
  unfolding get_history
  get_history-Keeps now symbol =
      let settle : Act = λ s. settle_history (history_answer w now symbol s) s in
      follow-Keeps w (ensure_session_for w now) settle (ensure_session_for-Keeps w now)
        (leaves-Keeps w settle (λ s. settle_history_leaves (history_answer w now symbol s) s))

  simulate_entitlement_change_leaves :
      (now : ℕ) (user : String) → LeavesRuntimes (simulate_entitlement_change w now user)
  unfolding simulate_entitlement_change
  simulate_entitlement_change_leaves now user s = ground arith

  step-Keeps : (now : ℕ) (event : Event) → Keeps w (step w now event)
  unfolding step disconnect emit_status get_snapshot retry_elapsed
  step-Keeps now Event.connect_called = connect-Keeps now
  step-Keeps now Event.disconnect_called = λ s h. h
  step-Keeps now (Event.subscribe_called symbols) =
      leaves-Keeps w (subscribe symbols) (subscribe_leaves symbols)
  step-Keeps now (Event.unsubscribe_called symbols) =
      leaves-Keeps w (unsubscribe symbols) (unsubscribe_leaves symbols)
  step-Keeps now (Event.snapshot_called symbol id) = λ s h. h
  step-Keeps now (Event.history_called symbol) = get_history-Keeps now symbol
  step-Keeps now (Event.entitlement_changed user) =
      leaves-Keeps w (simulate_entitlement_change w now user)
        (simulate_entitlement_change_leaves now user)
  step-Keeps now (Event.dropped code) =
      leaves-Keeps w (simulate_drop code) (simulate_drop_leaves code)
  step-Keeps now Event.market_clock_due =
      if_Keeps w (λ s. s.market_clock_handle) (ensure_session_for w now)
        (ensure_session_for-Keeps w now)
  step-Keeps now Event.batch_due =
      if_Keeps w (λ s. s.interval_handle) (generate_batch w now) (generate_batch-Keeps w now)
  step-Keeps now Event.retry_due =
      if_Keeps w (λ s. s.drop_reconnect_timer) (retry_elapsed w now)
        (λ s h. connect-Keeps now (record s { drop_reconnect_timer = false }) h)
  step-Keeps now Event.drain_due =
      let drain : Act =
        update (λ r. record r { drain_timers = r.drain_timers - 1 })
        >> drain_snapshot_requests now in
      if_Keeps w (λ s. ltb 0 s.drain_timers) drain
        (λ s h.
          drain_snapshot_requests-Keeps w now (record s { drain_timers = s.drain_timers - 1 }) h)

  run_keeps : (events : List (ℕ × Event)) (s : Simulator) → Lists w s → Lists w (run w events s).0
  unfolding run
  run_keeps [] s h = h
  run_keeps ((now, event) ∷ events) s h =
      run_keeps events (step w now event s).state (step-Keeps now event s h)

pub run-IsListing :
    (w : Platform) (config : SimulatedSourceConfig) (dispatcher : TickDispatcher) (store : Store)
    (events : List (ℕ × Event))
    → IsUniverse w.sim_symbols
    → Lists w (run w events (simulated_source w config dispatcher store)).0
unfolding simulated_source
run-IsListing w config dispatcher store events h =
    run_keeps w events (simulated_source w config dispatcher store)
      (add_runtimes-IsListing w w.sim_symbols h)

-- Whatever happens to a new source of a universe, in which each symbol stands once with decimal prices
-- and a reference price of a tick at least: each symbol of the universe has a runtime with its own
-- definition, at most four decimals, and an opening price, a price and a history that lie between a low
-- of a tick at least and a high.
pub run-IsListed :
    (w : Platform) (config : SimulatedSourceConfig) (dispatcher : TickDispatcher) (store : Store)
    (events : List (ℕ × Event))
    → IsUniverse w.sim_symbols
    → All
        (IsListed (run w events (simulated_source w config dispatcher store)).0.runtime_by_symbol)
        w.sim_symbols
run-IsListed w config dispatcher store events h =
    (run-IsListing w config dispatcher store events h).0
