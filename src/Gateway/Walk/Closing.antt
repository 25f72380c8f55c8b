-- ===== src/Gateway/Walk/Closing.antt =====
-- The laws of Gateway/Walk for the opening and closing of sockets, and for the watchdog.
use tckr.Prelude.{
  ℕ, ◌≡◌, refl, Bool, true, false, Option, none, some, List, [], ◌∷◌, String, if◌then◌else◌,
}
use tckr.Reconnect.{normal, heartbeat_timeout, Watchdog, advance}
use tckr.Gateway.Lifecycle.{
  emit_status, to_close_code, reconnect_decision_for, close_or_report, disconnect, resolve_opener,
  on_open, reject_opener, schedule_reconnect, handle_close, close_or_handle, heartbeats_missed,
  watchdog_step,
}
use tckr.Gateway.State.{
  ReadyState, ConnectionState, Opener, Output, Gateway, Env, Act, ◌>>◌, done, close_socket,
  connect_resolved, connect_rejected, caller, reconnect,
}
use tckr.Gateway.Walk.{ActLaws, from, quiet}

module _ (R : Gateway → Gateway × List Output → Type 0) (laws : ActLaws R) where
  reject_opener_law : (opener : Option Opener) (s : Gateway) → R s (reject_opener opener s)
  reject_opener_law none s = quiet R laws s [] tt
  reject_opener_law (some caller) s = quiet R laws s (connect_rejected ∷ []) (tt, tt)
  reject_opener_law (some reconnect) s = quiet R laws s [] tt

  closed_law :
      (env : Env) (retry : Bool) (s : Gateway)
      → R s (
          if s.intentional_close
          then done s
          else if retry
          then schedule_reconnect env s
          else done s)
  closed_law env retry s = go s.intentional_close retry refl
    where
      go :
          (intentional retry : Bool)
          → s.intentional_close ≡ intentional
          → R s (if intentional then done s else if retry then schedule_reconnect env s else done s)
      go true retry e = quiet R laws s [] tt
      go false true e = laws.retry_law env s e
      go false false e = quiet R laws s [] tt

  pub handle_close_law :
      (env : Env) (code : ℕ) (reason : String) (s : Gateway) → R s (handle_close env code reason s)
  unfolding handle_close
  handle_close_law env code reason s =
      let cleared = record s {
        throttle_timer = none;
        ping_timer = none;
        heartbeat_watchdog = none;
        authenticated = false;
        socket = none;
        connect_resolvers = none;
      } in
      let closed_state = ConnectionState.closed (to_close_code code) reason in
      let told_state = record cleared { last_status = closed_state } in
      let decide : Act = λ t.
        if t.intentional_close
        then done t
        else if reconnect_decision_for (to_close_code code)
        then schedule_reconnect env t
        else done t in
      from R laws s cleared
        (emit_status closed_state >> reject_opener s.connect_resolvers >> decide)
        (refl, refl, refl, refl, refl)
        (laws.then_law (emit_status closed_state) (reject_opener s.connect_resolvers >> decide)
          cleared (laws.status_law closed_state cleared)
          (laws.then_law (reject_opener s.connect_resolvers) decide told_state
            (reject_opener_law s.connect_resolvers told_state)
            (closed_law env (reconnect_decision_for (to_close_code code))
              (reject_opener s.connect_resolvers told_state).0)))

  pub disconnect_act : (s : Gateway) → R s (disconnect s)
  unfolding disconnect close_or_report
  disconnect_act s =
      let quieted = record s { intentional_close = true; reconnect_timer = none } in
      let cleared = record quieted {
        heartbeat_watchdog = none;
        ping_timer = none;
        throttle_timer = none;
      } in
      laws.then_law (λ t. (quieted, []))
        (λ t. close_or_report s.socket normal "client disconnect" cleared) s (laws.disconnect_law s)
        (from R laws quieted cleared (close_or_report s.socket normal "client disconnect")
          (refl, refl, refl, refl, refl) (go s.socket cleared))
    where
      go :
          (socket : Option ReadyState) (t : Gateway)
          → R t (close_or_report socket normal "client disconnect" t)
      go none t = laws.status_law (ConnectionState.closed normal "client disconnect") t
      go (some ready) t = quiet R laws t (close_socket normal "client disconnect" ∷ []) (tt, tt)

  pub on_open_law : (s : Gateway) → R s (on_open s)
  unfolding on_open
  on_open_law s =
      from R laws s (record s { connect_resolvers = none }) (resolve_opener s.connect_resolvers)
        (refl, refl, refl, refl, refl)
        (go s.connect_resolvers (record s { connect_resolvers = none }))
    where
      go : (opener : Option Opener) (t : Gateway) → R t (resolve_opener opener t)
      go none t = quiet R laws t [] tt
      go (some caller) t = quiet R laws t (connect_resolved ∷ []) (tt, tt)
      go (some reconnect) t = laws.silent_law _ _ _ (refl, refl, refl, refl, refl) tt

  heartbeats_missed_law : (env : Env) (s : Gateway) → R s (heartbeats_missed env s)
  unfolding heartbeats_missed
  heartbeats_missed_law env s = go s.socket
    where
      go :
          (socket : Option ReadyState)
          → R s (
              close_or_handle socket env heartbeat_timeout 4408 "two consecutive heartbeats missed"
                s)
      go none = handle_close_law env 4408 "two consecutive heartbeats missed" s
      go (some ready) = quiet R laws s _ (tt, tt)

  pub watchdog_law :
      (watchdog : Option Watchdog) (env : Env) (s : Gateway) → R s (watchdog_step watchdog env s)
  unfolding watchdog_step
  watchdog_law none env s = quiet R laws s [] tt
  watchdog_law (some w) env s =
      from R laws s (record s { heartbeat_watchdog = some (advance env.now w).0 })
        (λ t. if (advance env.now w).1 then heartbeats_missed env t else done t)
        (refl, refl, refl, refl, refl) (go (advance env.now w).1 _)
    where
      go : (fires : Bool) (t : Gateway) → R t (if fires then heartbeats_missed env t else done t)
      go true t = heartbeats_missed_law env t
      go false t = quiet R laws t [] tt
