-- ===== src/Gateway/Lifecycle.antt =====
-- client/Tckr.MarketWatch/src/data/TckrGatewaySource.ts: opening and closing the socket, the
-- heartbeat watchdog, and the retries.
use tckr.Prelude.{
  ℕ, ◌+◌, Bool, true, false, Option, none, some, List, [], ◌∷◌, ◌++◌, String, map, if◌then◌else◌,
  ◌==◌,
}
use tckr.Reconnect.{
  CloseCode, normal, unauthenticated, token_expired, heartbeat_timeout, slow_consumer, other,
  Watchdog, default_backoff_policy, next_delay, should_reconnect, create_heartbeat_watchdog,
  advance,
}
use tckr.Gateway.State.{
  ReadyState, socket_open, socket_connecting, socket_closing, socket_closed, Gateway, Env, Act,
  ◌>>◌, done, emit, update, create_socket, close_socket, status, connect_resolved, connect_rejected,
  fetch_snapshot, ConnectionState, Opener, caller, reconnect, Job, after_open, after_auth,
}
use tckr.Gateway.Outbound.{clear_throttle_timer, stop_ping, subscribe}

unfoldable pub emit_status : ConnectionState → Act
emit_status state s = (record s { last_status = state }, status state ∷ [])

-- `toCloseCode`: the contract's codes are named, any other is kept as it is.
unfoldable pub to_close_code : ℕ → CloseCode
to_close_code raw =
    if raw == 1000
    then normal
    else if raw == 4401
    then unauthenticated
    else if raw == 4403
    then token_expired
    else if raw == 4408
    then heartbeat_timeout
    else if raw == 4429
    then slow_consumer
    else other raw

abbrev pub decided : Option Bool → Bool
decided none = true
decided (some retry) = retry

-- `reconnectDecisionFor`: `should_reconnect` is undefined exactly on the codes outside the contract.
unfoldable pub reconnect_decision_for : CloseCode → Bool
unfolding should_reconnect
reconnect_decision_for code = decided (should_reconnect code)

unfoldable pub stop_heartbeat : Gateway → Gateway
stop_heartbeat s = record s { heartbeat_watchdog = none }

unfoldable pub clear_reconnect_timer : Gateway → Gateway
clear_reconnect_timer s = record s { reconnect_timer = none }

-- A new socket is connecting. The opener that waited for the one before is forgotten.
unfoldable pub open_socket : Opener → Act
open_socket opener s = (
  record s {
    socket = some socket_connecting;
    authenticated = false;
    connect_resolvers = some opener;
  },
  create_socket ∷ [],
)

abbrev pub is_live : Option ReadyState → Bool
is_live (some socket_open) = true
is_live (some socket_connecting) = true
is_live (some socket_closing) = false
is_live (some socket_closed) = false
is_live none = false

unfoldable pub connect : Act
unfolding emit_status open_socket
connect s =
    if is_live s.socket
    then (s, connect_resolved ∷ [])
    else (emit_status (ConnectionState.connecting (s.connect_attempts + 1)) >> open_socket caller)
        (record s { intentional_close = false; connect_attempts = s.connect_attempts + 1 })

unfoldable pub close_or_report : Option ReadyState → CloseCode → String → Act
unfolding emit_status
close_or_report (some ready) code reason = emit (close_socket code reason)
close_or_report none code reason = emit_status (ConnectionState.closed code reason)

unfoldable pub disconnect : Act
unfolding clear_reconnect_timer stop_heartbeat stop_ping clear_throttle_timer close_or_report
disconnect s =
    let stopped = clear_throttle_timer (
      stop_ping (stop_heartbeat (clear_reconnect_timer (record s { intentional_close = true })))) in
    close_or_report s.socket normal "client disconnect" stopped

-- `onopen`: whoever awaits the socket goes on.
abbrev pub resolve_opener : Option Opener → Act
resolve_opener none = done
resolve_opener (some caller) = emit connect_resolved
resolve_opener (some reconnect) = update (λ s. record s { jobs = s.jobs ++ after_open ∷ [] })

unfoldable pub on_open : Act
on_open s = resolve_opener s.connect_resolvers (record s { connect_resolvers = none })

-- The `catch` of `#reconnectNow` drops its rejection.
abbrev pub reject_opener : Option Opener → Act
reject_opener none = done
reject_opener (some caller) = emit connect_rejected
reject_opener (some reconnect) = done

unfoldable pub schedule_reconnect : Env → Act
unfolding emit_status clear_reconnect_timer
schedule_reconnect env s =
    let attempt = s.backoff_attempt + 1 in
    let delay = next_delay attempt default_backoff_policy env.rand_num env.rand_den in
    (emit_status (ConnectionState.reconnecting attempt delay)
        >> update (λ t. record (clear_reconnect_timer t) { reconnect_timer = some delay }))
      (record s { backoff_attempt = attempt })

unfoldable pub handle_close : Env → ℕ → String → Act
unfolding emit_status stop_heartbeat stop_ping clear_throttle_timer schedule_reconnect
handle_close env code reason s =
    let stopped = clear_throttle_timer (stop_ping (stop_heartbeat s)) in
    let close_code = to_close_code code in
    (emit_status (ConnectionState.closed close_code reason)
        >> reject_opener s.connect_resolvers
        >> λ t.
            if t.intentional_close
            then done t
            else if reconnect_decision_for close_code
            then schedule_reconnect env t
            else done t)
      (record stopped { authenticated = false; socket = none; connect_resolvers = none })

abbrev pub close_or_handle : Option ReadyState → Env → CloseCode → ℕ → String → Act
close_or_handle (some ready) env code raw reason = emit (close_socket code reason)
close_or_handle none env code raw reason = handle_close env raw reason

-- `#forceLocalClose(CloseCode.HeartbeatTimeout, …)`, its only call.
unfoldable pub heartbeats_missed : Env → Act
unfolding handle_close
heartbeats_missed env s =
    close_or_handle s.socket env heartbeat_timeout 4408 "two consecutive heartbeats missed" s

abbrev pub watchdog_for : Option ℕ → ℕ → Option Watchdog
watchdog_for none now = none
watchdog_for (some interval_ms) now = some (create_heartbeat_watchdog interval_ms now)

unfoldable pub start_heartbeat_monitor : Env → Gateway → Gateway
start_heartbeat_monitor env s = record s {
  heartbeat_watchdog = watchdog_for s.heartbeat_interval_ms env.now;
}

-- Time passes for the watchdog: its callback runs when its timer is due.
unfoldable pub watchdog_step : Option Watchdog → Env → Act
unfolding heartbeats_missed
watchdog_step none env = done
watchdog_step (some w) env =
    let result = advance env.now w in
    update (λ s. record s { heartbeat_watchdog = some result.0 })
    >> (λ s. if result.1 then heartbeats_missed env s else done s)

unfoldable pub watchdog_elapsed : Env → Act
unfolding advance watchdog_step
watchdog_elapsed env s = watchdog_step s.heartbeat_watchdog env s

unfoldable pub retry_if_set : Option ℕ → Act
unfolding open_socket
retry_if_set none = done
retry_if_set (some delay) = open_socket reconnect

-- The callback of the reconnect timer: `#reconnectNow` up to its first `await`.
unfoldable pub reconnect_elapsed : Act
unfolding retry_if_set
reconnect_elapsed s = retry_if_set s.reconnect_timer (record s { reconnect_timer = none })

-- `#waitForAuthenticated`, in `#reconnectNow`.
unfoldable pub wait_for_authenticated : Act
wait_for_authenticated s =
    if s.authenticated
    then (record s { jobs = s.jobs ++ after_auth ∷ [] }, [])
    else (record s { auth_waiters = s.auth_waiters + 1 }, [])

-- The end of `#reconnectNow`: every tracked symbol is subscribed again, and its snapshot asked for.
abbrev pub resubscribe_tracked : List String → Env → Act
resubscribe_tracked [] env = done
resubscribe_tracked (symbol ∷ symbols) env =
    subscribe env (symbol ∷ symbols) >> λ s. (s, map fetch_snapshot (symbol ∷ symbols))

unfoldable pub resubscribe : Env → Act
unfolding subscribe
resubscribe env s = resubscribe_tracked s.subscribed_symbols env s

abbrev pub run : List Job → Env → Act
run [] env = done
run (after_open ∷ jobs) env = update (λ s. record s { jobs = jobs }) >> wait_for_authenticated
run (after_auth ∷ jobs) env = update (λ s. record s { jobs = jobs }) >> resubscribe env

-- The next of the jobs that are ready runs.
unfoldable pub run_job : Env → Act
unfolding wait_for_authenticated resubscribe
run_job env s = run s.jobs env s
