-- ===== src/Gateway/Silence.antt =====
-- `disconnect()` of data/TckrGatewaySource.ts is final until `connect()` is called again.
use tckr.Prelude.{
  ℕ, ◌+◌, ◌≡◌, refl, ◌∙◌, true, List, [], ◌∷◌, ◌++◌, arith, map, All, Option, none, String,
}
use mathlib.Core.Path.{subst}
use tckr.Contracts.{ClientMessage}
use tckr.Gateway.Outbound.{schedule_throttle_flush, send, flush_outbound, request}
use tckr.Gateway.Lifecycle.{emit_status, close_or_report, disconnect}
use tckr.Gateway.State.{
  Output, Gateway, Env, Act, ◌>>◌, create_socket, close_socket, wire, status, error_event,
  tick_event, snapshot_event, entitlement_event, schedule_frame, store_calls, fetch_snapshot,
  connect_resolved, connect_rejected,
}
use tckr.Gateway.Events.{Event, step, run as run_events}
use tckr.Gateway.Walk.{IsSilent, Agrees, ActLaws}
use tckr.Gateway.Walk.Steps.{step_law}

-- Any event but a call of `connect`.
abbrev pub NotConnect : Event → Type 0
NotConnect Event.connect_called = ⊥
NotConnect Event.disconnect_called = Unit
NotConnect (Event.subscribe_called symbols) = Unit
NotConnect (Event.unsubscribe_called symbols) = Unit
NotConnect (Event.ready_changed ready) = Unit
NotConnect Event.socket_opened = Unit
NotConnect (Event.message_received message) = Unit
NotConnect (Event.socket_closed code reason) = Unit
NotConnect Event.throttle_due = Unit
NotConnect Event.ping_due = Unit
NotConnect Event.watchdog_due = Unit
NotConnect Event.reconnect_due = Unit
NotConnect Event.job_due = Unit
NotConnect Event.frame_due = Unit
NotConnect (Event.snapshot_received snapshot) = Unit

-- How many sockets the outputs create.
abbrev pub opened_by : Output → ℕ
opened_by (status new) = 0
opened_by create_socket = 1
opened_by (close_socket code reason) = 0
opened_by (wire message) = 0
opened_by (error_event message) = 0
opened_by (tick_event tick) = 0
opened_by (snapshot_event snapshot) = 0
opened_by (entitlement_event message) = 0
opened_by schedule_frame = 0
opened_by (store_calls calls) = 0
opened_by (fetch_snapshot symbol) = 0
opened_by connect_resolved = 0
opened_by connect_rejected = 0

abbrev pub sockets : List Output → ℕ
sockets [] = 0
sockets (output ∷ outputs) = opened_by output + sockets outputs

sockets-append : (xs ys : List Output) → sockets (xs ++ ys) ≡ sockets xs + sockets ys
sockets-append [] ys = omega arith
sockets-append (x ∷ xs) ys = omega (arith, sockets-append xs ys)

opened_by_silent : (output : Output) → IsSilent output → opened_by output ≡ 0
opened_by_silent (status new) h = refl
opened_by_silent create_socket h = elim h [ ]
opened_by_silent (close_socket code reason) h = refl
opened_by_silent (wire message) h = refl
opened_by_silent (error_event message) h = refl
opened_by_silent (tick_event tick) h = refl
opened_by_silent (snapshot_event snapshot) h = refl
opened_by_silent (entitlement_event message) h = refl
opened_by_silent schedule_frame h = refl
opened_by_silent (store_calls calls) h = refl
opened_by_silent (fetch_snapshot symbol) h = refl
opened_by_silent connect_resolved h = refl
opened_by_silent connect_rejected h = refl

sockets_silent : (outputs : List Output) → All IsSilent outputs → sockets outputs ≡ 0
sockets_silent [] h = refl
sockets_silent (x ∷ xs) h = omega (arith, opened_by_silent x h.0, sockets_silent xs h.1)

sockets_wires : (ms : List ClientMessage) → sockets (map wire ms) ≡ 0
sockets_wires [] = refl
sockets_wires (m ∷ ms) = omega (arith, sockets_wires ms)

-- The close was asked for, and no retry is on its way.
abbrev pub IsQuiet : Gateway → Type 0
IsQuiet s = (s.intentional_close ≡ true) × (s.reconnect_timer ≡ none)

abbrev StaysQuiet : Gateway → Gateway × List Output → Type 0
StaysQuiet s r = IsQuiet s → IsQuiet r.0 × (sockets r.1 ≡ 0)

then-StaysQuiet :
    (f g : Act) (s : Gateway)
    → StaysQuiet s (f s)
    → StaysQuiet (f s).0 (g (f s).0)
    → StaysQuiet s ((f >> g) s)
then-StaysQuiet f g s p q quiet =
    let first = p quiet in
    let second = q first.0 in
    (second.0, sockets-append (f s).1 (g (f s).0).1 ∙ omega (arith, first.1, second.1))

silent-StaysQuiet :
    (s t : Gateway) (outputs : List Output)
    → Agrees s t
    → All IsSilent outputs
    → StaysQuiet s (t, outputs)
silent-StaysQuiet s t outputs (status_same, queue_same, seq_same, intent_same, timer_same) silent
      quiet =
    ((intent_same ∙ quiet.0, timer_same ∙ quiet.1), sockets_silent outputs silent)

request-StaysQuiet :
    (env : Env) (message : Option String → ClientMessage) (s : Gateway)
    → StaysQuiet s (request env message s)
unfolding request send schedule_throttle_flush
request-StaysQuiet env message s quiet = ground arith

flush-StaysQuiet : (env : Env) (s : Gateway) → StaysQuiet s (flush_outbound env s)
unfolding flush_outbound
flush-StaysQuiet env s quiet = ground (arith, sockets_wires s.pending_outbound)

laws : ActLaws StaysQuiet
unfolding emit_status
laws = record {
  then_law = then-StaysQuiet;
  silent_law = silent-StaysQuiet;
  status_law = λ state s quiet. (quiet, refl);
  request_law = λ env message s has_id. request-StaysQuiet env message s;
  flush_law = flush-StaysQuiet;
  retry_law = λ env s e quiet. ground (arith, e, quiet.0);
  reconnect_law = λ s delay e quiet. ground (arith, e, quiet.1);
  disconnect_law = λ s quiet. ((refl, refl), refl);
}

abbrev pub NoConnect : List (Env × Event) → Type 0
NoConnect [] = Unit
NoConnect ((env, event) ∷ events) = NotConnect event × NoConnect events

run_quiet :
    (events : List (Env × Event)) (s : Gateway)
    → NoConnect events
    → StaysQuiet s (run_events events s)
unfolding run_events
run_quiet [] s h quiet = (quiet, refl)
run_quiet ((env, event) ∷ events) s h quiet =
    then-StaysQuiet (step env event) (run_events events) s
      (step_law StaysQuiet laws env event s (λ called. elim (subst NotConnect called h.0) [ ]))
      (run_quiet events (step env event s).0 h.1) quiet

disconnect-IsQuiet : (s : Gateway) → IsQuiet (disconnect s).0
unfolding disconnect close_or_report
disconnect-IsQuiet s = ground arith

-- After `disconnect()`, in whatever state, no socket is created by any events but a call of
-- `connect()`: no close, timer or late message brings the connection back.
pub disconnect-run :
    (s : Gateway) (events : List (Env × Event))
    → NoConnect events
    → sockets (run_events events (disconnect s).0).1 ≡ 0
disconnect-run s events h = (run_quiet events (disconnect s).0 h (disconnect-IsQuiet s)).1
