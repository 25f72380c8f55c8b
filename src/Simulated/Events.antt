-- ===== src/Simulated/Events.antt =====
-- client/Tckr.MarketWatch/src/data/SimulatedSource.ts: everything that can happen to the source, one event
-- at a time. A timer's event does nothing unless the timer is set; that it is due is not asked, so
-- what holds of the events also holds of timers that are early.
use tckr.Prelude.{ℕ, ◌-◌, Bool, List, [], ◌∷◌, ◌++◌, String, ltb, if◌then◌else◌}
use tckr.Reconnect.{CloseCode}
use tckr.Simulated.Sessions.{ensure_session_for, drain_snapshot_requests, generate_batch}
use tckr.Simulated.Source.{
  connect, disconnect, subscribe, unsubscribe, get_snapshot, get_history,
  simulate_entitlement_change, simulate_drop, retry_elapsed,
}
use tckr.Simulated.State.{Simulator, Output, Platform, Act, done, update, ◌>>◌}

pub data Event : Type 0 where
  connect_called disconnect_called : Event
  subscribe_called unsubscribe_called : List String → Event
  snapshot_called : (symbol : String) (id : ℕ) → Event
  history_called : String → Event
  entitlement_changed : (next_demo_user : String) → Event
  dropped : CloseCode → Event
  market_clock_due batch_due retry_due drain_due : Event

abbrev pub when : Bool → Act → Act
when set f s = let ran = f s in if set then ran else done s

unfoldable pub step : Platform → ℕ → Event → Act
step w now Event.connect_called = connect w now
step w now Event.disconnect_called = disconnect
step w now (Event.subscribe_called symbols) = subscribe symbols
step w now (Event.unsubscribe_called symbols) = unsubscribe symbols
step w now (Event.snapshot_called symbol id) = get_snapshot symbol id
step w now (Event.history_called symbol) = get_history w now symbol
step w now (Event.entitlement_changed next_demo_user) =
    simulate_entitlement_change w now next_demo_user
step w now (Event.dropped code) = simulate_drop code
step w now Event.market_clock_due = λ s. when s.market_clock_handle (ensure_session_for w now) s
step w now Event.batch_due = λ s. when s.interval_handle (generate_batch w now) s
step w now Event.retry_due = λ s. when s.drop_reconnect_timer (retry_elapsed w now) s
step w now Event.drain_due = λ s.
    when (ltb 0 s.drain_timers)
      (update (λ r. record r { drain_timers = r.drain_timers - 1 }) >> drain_snapshot_requests now)
      s

-- A run of the source. What an event throws ends that event, and no other.
unfoldable pub run : Platform → List (ℕ × Event) → Simulator → Simulator × List Output
unfolding step
run w [] s = (s, [])
run w ((now, event) ∷ events) s =
    let first = step w now event s in
    let rest = run w events first.state in (rest.0, first.output ++ rest.1)
