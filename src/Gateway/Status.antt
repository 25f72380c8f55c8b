-- ===== src/Gateway/Status.antt =====
-- `connectionState()` of data/TckrGatewaySource.ts against what the handlers of `on.status` are told.
use tckr.Prelude.{◌≡◌, refl, ap, sym, ◌∙◌, List, [], ◌∷◌, ◌++◌, arith, map, All}
use tckr.Contracts.{ClientMessage}
use tckr.Gateway.Outbound.{schedule_throttle_flush, send, flush_outbound, request}
use tckr.Gateway.Lifecycle.{emit_status, open_socket, connect, schedule_reconnect}
use tckr.Gateway.State.{
  ConnectionState, Output, Gateway, Env, create_socket, close_socket, wire, status, error_event,
  tick_event, snapshot_event, entitlement_event, schedule_frame, store_calls, fetch_snapshot,
  connect_resolved, connect_rejected,
}
use tckr.Gateway.Events.{Event, step, run as run_events}
use tckr.Gateway.Walk.{IsSilent, ActLaws}
use tckr.Gateway.Walk.Steps.{step_law}

-- What a handler of `on.status` knows after an output.
abbrev pub told : Output → ConnectionState → ConnectionState
told (status new) state = new
told create_socket state = state
told (close_socket code reason) state = state
told (wire message) state = state
told (error_event message) state = state
told (tick_event tick) state = state
told (snapshot_event snapshot) state = state
told (entitlement_event message) state = state
told schedule_frame state = state
told (store_calls calls) state = state
told (fetch_snapshot symbol) state = state
told connect_resolved state = state
told connect_rejected state = state

-- The last status among the outputs, or the one before.
abbrev pub latest : List Output → ConnectionState → ConnectionState
latest [] state = state
latest (output ∷ outputs) state = latest outputs (told output state)

latest-append :
    (xs ys : List Output) (state : ConnectionState)
    → latest (xs ++ ys) state ≡ latest ys (latest xs state)
latest-append [] ys state = refl
latest-append (x ∷ xs) ys state = latest-append xs ys (told x state)

told_silent :
    (output : Output) (state : ConnectionState) → IsSilent output → told output state ≡ state
told_silent (status new) state h = elim h [ ]
told_silent create_socket state h = refl
told_silent (close_socket code reason) state h = refl
told_silent (wire message) state h = refl
told_silent (error_event message) state h = refl
told_silent (tick_event tick) state h = refl
told_silent (snapshot_event snapshot) state h = refl
told_silent (entitlement_event message) state h = refl
told_silent schedule_frame state h = refl
told_silent (store_calls calls) state h = refl
told_silent (fetch_snapshot symbol) state h = refl
told_silent connect_resolved state h = refl
told_silent connect_rejected state h = refl

latest_silent :
    (outputs : List Output) (state : ConnectionState)
    → All IsSilent outputs
    → latest outputs state ≡ state
latest_silent [] state h = refl
latest_silent (x ∷ xs) state h =
    ap (latest xs) (told_silent x state h.0) ∙ latest_silent xs state h.1

latest_wires :
    (ms : List ClientMessage) (state : ConnectionState) → latest (map wire ms) state ≡ state
latest_wires [] state = refl
latest_wires (m ∷ ms) state = latest_wires ms state

abbrev IsTracked : Gateway → Gateway × List Output → Type 0
IsTracked s r = r.0.last_status ≡ latest r.1 s.last_status

laws : ActLaws IsTracked
unfolding emit_status request send flush_outbound schedule_reconnect open_socket
    schedule_throttle_flush
laws = record {
  then_law = λ f g s p q.
      q ∙ ap (latest (g (f s).0).1) p ∙ sym (latest-append (f s).1 (g (f s).0).1 s.last_status);
  silent_law =
      λ s t outputs agrees silent. agrees.0 ∙ sym (latest_silent outputs s.last_status silent);
  status_law = λ state s. refl;
  request_law = λ env message s has_id. ground arith;
  flush_law = λ env s. ground (arith, latest_wires s.pending_outbound s.last_status);
  retry_law = λ env s e. refl;
  reconnect_law = λ s delay e. refl;
  disconnect_law = λ s. refl;
}

connect-latest : (s : Gateway) → IsTracked s (connect s)
unfolding connect
connect-latest s = ground arith

-- Whatever happens, `connectionState()` answers the last state that `on.status` was told, or the one
-- before if it was told none.
pub run-latest :
    (events : List (Env × Event)) (s : Gateway)
    → (run_events events s).0.last_status ≡ latest (run_events events s).1 s.last_status
unfolding run_events
run-latest [] s = refl
run-latest ((env, event) ∷ events) s =
    let rest = run_events events (step env event s).0 in
    let one = step_law IsTracked laws env event s (λ called. connect-latest s) in
    run-latest events (step env event s).0
    ∙ ap (latest rest.1) one
    ∙ sym (latest-append (step env event s).1 rest.1 s.last_status)
