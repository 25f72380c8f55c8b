-- ===== src/Tests/Connection.antt =====
-- The theorems on data/reconnect.ts and data/TckrGatewaySource.ts at concrete runs.
use tckr.Prelude.{
  ℕ, ◌+◌, ◌*◌, ◌≤◌, ◌≡◌, refl, arith, List, [], ◌∷◌, some, true, false, if◌then◌else◌, map,
}
use tckr.Prelude.Int.{pos}
use tckr.Contracts.{Connected, Subscribed, ServerMessage, live}
use tckr.JsMap.{has}
use tckr.Reconnect.{create_heartbeat_watchdog}
use tckr.Reconnect.Heartbeats.{beats, all_below, armed_at, fired, total, beats-fires}
use tckr.Gateway.State.{Gateway, Env, initial, create_socket, socket_open, error_event}
use tckr.Gateway.Outbound.{request_name}
use tckr.Gateway.Lifecycle.{disconnect, handle_close, reconnect_elapsed}
use tckr.Gateway.Inbound.{handle_subscribed, rejection}
use tckr.Gateway.Events.{Event, run}
use tckr.Gateway.Silence.{sockets, disconnect-run}
use tckr.Gateway.Queue.{sent, queued, issued, run-queue}
use tckr.Gateway.Retries.{handle_close-retries}
use tckr.Gateway.Symbols.{handle_subscribed-tracks}

beats-fires_example : beats (create_heartbeat_watchdog 100 0) 0 (90 ∷ 199 ∷ 200 ∷ 50 ∷ []) ≡ (
    if all_below (100 * 2) (90 ∷ 199 ∷ 200 ∷ 50 ∷ [])
    then (
      armed_at 100 (0 + total (90 ∷ 199 ∷ 200 ∷ 50 ∷ [])),
      0 + total (90 ∷ 199 ∷ 200 ∷ 50 ∷ []),
      0,
    )
    else (fired 100, 0 + total (90 ∷ 199 ∷ 200 ∷ 50 ∷ []), 1))
beats-fires_example = beats-fires 100 0 (90 ∷ 199 ∷ 200 ∷ 50 ∷ [])

abbrev env : Env
env = record { now = 100; rand_num = 1; rand_den = 2 }

abbrev welcome : Connected
welcome = record {
  user_id = "demo";
  stream = live;
  session_id = "s1";
  heartbeat_interval_ms = pos 5000;
  server_time = "2026-07-01T10:00:00Z";
}

-- Two symbols are asked for before the server has answered.
abbrev session : List (Env × Event)
session =
    (env, Event.connect_called)
    ∷ (env, Event.subscribe_called ("COMI" ∷ "" ∷ "HRHO" ∷ []))
    ∷ (env, Event.ready_changed socket_open)
    ∷ (env, Event.socket_opened)
    ∷ (env, Event.message_received (some (ServerMessage.connected welcome)))
    ∷ (env, Event.socket_closed 1006 "")
    ∷ (env, Event.reconnect_due)
    ∷ []

run-queue_example :
    sent "gw-1" (run session initial).1 + queued "gw-1" (run session initial).0.pending_outbound
    ≡ issued "gw-1" (run session initial).0.request_seq
run-queue_example = run-queue "gw-1" session

abbrev connected_state : Gateway
connected_state = record initial {
  socket = some socket_open;
  authenticated = true;
  identity = some (record { user_id = "demo"; stream = live; session_id = "s1" });
  subscribed_symbols = "COMI" ∷ "HRHO" ∷ [];
}

abbrev late_events : List (Env × Event)
late_events =
    (env, Event.socket_closed 1000 "client disconnect")
    ∷ (env, Event.reconnect_due)
    ∷ (env, Event.job_due)
    ∷ (env, Event.watchdog_due)
    ∷ []

disconnect-run_example : sockets (run late_events (disconnect connected_state).0).1 ≡ 0
disconnect-run_example = disconnect-run connected_state late_events (tt, (tt, (tt, (tt, tt))))

handle_close-retries_example :
    (delay : ℕ) × ((handle_close env 1006 "" connected_state).0.reconnect_timer ≡ some delay)
    × (400 * 5 * env.rand_den ≤ delay)
    × (delay ≤ 36000 * 5 * env.rand_den)
    × ((reconnect_elapsed (handle_close env 1006 "" connected_state).0).1 ≡ create_socket ∷ [])
handle_close-retries_example =
    handle_close-retries env 1006 "" connected_state refl refl (omega arith)

abbrev answer : Subscribed
answer = record {
  request_id = some "gw-1";
  stream = live;
  accepted = "COMI" ∷ [];
  rejected = "HRHO" ∷ [];
}

handle_subscribed-tracks_example :
    (has "HRHO" (handle_subscribed answer connected_state).0.subscribed_symbols ≡ (
      if has "HRHO" answer.rejected then false else has "HRHO" connected_state.subscribed_symbols))
    × ((handle_subscribed answer connected_state).1
        ≡ map (λ rejected. error_event (rejection answer.request_id rejected)) answer.rejected)
handle_subscribed-tracks_example = handle_subscribed-tracks answer connected_state "HRHO"

request_name_test : request_name 2048 ≡ "gw-2048"
unfolding request_name
request_name_test = refl
