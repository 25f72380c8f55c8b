-- ===== src/Gateway/Events.antt =====
-- client/Tckr.MarketWatch/src/data/TckrGatewaySource.ts: everything that can happen to the gateway
-- source, one event at a time. A timer's event does nothing unless the timer is set; that it is due
-- is not asked, so what holds of the events also holds of timers that are early. The ready state of
-- the socket is changed by its environment.
use tckr.Prelude.{ℕ, Option, none, some, List, [], ◌∷◌, ◌++◌, String}
use tckr.Contracts.{ServerMessage, Snapshot}
use tckr.Gateway.State.{ReadyState, Env, Act, done, update}
use tckr.Gateway.Outbound.{subscribe, unsubscribe, throttle_elapsed, ping_elapsed}
use tckr.Gateway.Lifecycle.{
  connect, disconnect, on_open, handle_close, watchdog_elapsed, reconnect_elapsed, run_job,
}
use tckr.Gateway.Inbound.{handle_message, snapshot_answered, frame_elapsed}

pub data Event : Type 0 where
  connect_called disconnect_called : Event
  subscribe_called unsubscribe_called : List String → Event
  ready_changed : ReadyState → Event
  socket_opened : Event
  message_received : Option ServerMessage → Event
  socket_closed : (code : ℕ) (reason : String) → Event
  throttle_due ping_due watchdog_due reconnect_due job_due frame_due : Event
  snapshot_received : Option Snapshot → Event

abbrev pub ready_after : Option ReadyState → ReadyState → Option ReadyState
ready_after none ready = none
ready_after (some before) ready = some ready

abbrev pub throttle_if_set : Option ℕ → Env → Act
throttle_if_set none env = done
throttle_if_set (some due) env = throttle_elapsed env

unfoldable pub step : Env → Event → Act
unfolding throttle_elapsed
step env Event.connect_called = connect
step env Event.disconnect_called = disconnect
step env (Event.subscribe_called symbols) = subscribe env symbols
step env (Event.unsubscribe_called symbols) = unsubscribe env symbols
step env (Event.ready_changed ready) =
    update (λ s. record s { socket = ready_after s.socket ready })
step env Event.socket_opened = on_open
step env (Event.message_received message) = handle_message message env
step env (Event.socket_closed code reason) = handle_close env code reason
step env Event.throttle_due = λ s. throttle_if_set s.throttle_timer env s
step env Event.ping_due = ping_elapsed env
step env Event.watchdog_due = watchdog_elapsed env
step env Event.reconnect_due = reconnect_elapsed
step env Event.job_due = run_job env
step env Event.frame_due = frame_elapsed env
step env (Event.snapshot_received snapshot) = snapshot_answered snapshot env

-- A run of the source.
unfoldable pub run : List (Env × Event) → Act
unfolding step
run [] s = (s, [])
run ((env, event) ∷ events) s =
    let first = step env event s in let rest = run events first.0 in (rest.0, first.1 ++ rest.1)
