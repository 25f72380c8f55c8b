-- ===== src/Gateway/Queue.antt =====
-- The outbound queue of data/TckrGatewaySource.ts loses and repeats nothing.
use tckr.Prelude.{
  ℕ, zero, suc, ◌+◌, ◌≡◌, refl, ap, List, [], ◌∷◌, ◌++◌, arith, map, All, Option, some, none,
  String, str_eq, if◌then◌else◌,
}
use native.Mathlib.Numerals.{add-one}
use tckr.Contracts.{ClientMessage, request_id_of}
use tckr.Gateway.Outbound.{schedule_throttle_flush, send, flush_outbound, request_name, request}
use tckr.Gateway.Lifecycle.{emit_status, open_socket, connect, schedule_reconnect}
use tckr.Gateway.State.{
  Output, Gateway, initial, Env, Act, ◌>>◌, create_socket, close_socket, wire, status, error_event,
  tick_event, snapshot_event, entitlement_event, schedule_frame, store_calls, fetch_snapshot,
  connect_resolved, connect_rejected,
}
use tckr.Gateway.Events.{Event, step, run as run_events}
use tckr.Gateway.Walk.{IsSilent, Agrees, ActLaws}
use tckr.Gateway.Walk.Steps.{step_law}

-- 1 for the request id `name`, else 0.
abbrev pub is_name : String → Option String → ℕ
is_name name none = 0
is_name name (some id) = if str_eq id name then 1 else 0

abbrev pub named : String → ClientMessage → ℕ
named name message = is_name name (request_id_of message)

-- How many messages of the queue have the request id `name`.
abbrev pub queued : String → List ClientMessage → ℕ
queued name [] = 0
queued name (message ∷ messages) = named name message + queued name messages

abbrev pub put : String → Output → ℕ
put name (wire message) = named name message
put name (status new) = 0
put name create_socket = 0
put name (close_socket code reason) = 0
put name (error_event message) = 0
put name (tick_event tick) = 0
put name (snapshot_event snapshot) = 0
put name (entitlement_event message) = 0
put name schedule_frame = 0
put name (store_calls calls) = 0
put name (fetch_snapshot symbol) = 0
put name connect_resolved = 0
put name connect_rejected = 0

-- How many messages with the request id `name` went to the wire.
abbrev pub sent : String → List Output → ℕ
sent name [] = 0
sent name (output ∷ outputs) = put name output + sent name outputs

-- How many of the first `seq` request ids are `name`.
unfoldable pub issued : String → ℕ → ℕ
issued name zero = 0
issued name (suc seq) = issued name seq + is_name name (some (request_name (suc seq)))

module _ (name : String) where
  sent-append : (xs ys : List Output) → sent name (xs ++ ys) ≡ sent name xs + sent name ys
  sent-append [] ys = omega arith
  sent-append (x ∷ xs) ys = omega (arith, sent-append xs ys)

  queued-append :
      (xs ys : List ClientMessage) → queued name (xs ++ ys) ≡ queued name xs + queued name ys
  queued-append [] ys = omega arith
  queued-append (x ∷ xs) ys = omega (arith, queued-append xs ys)

  sent_wires : (ms : List ClientMessage) → sent name (map wire ms) ≡ queued name ms
  sent_wires [] = refl
  sent_wires (m ∷ ms) = omega (arith, sent_wires ms)

  put_silent : (output : Output) → IsSilent output → put name output ≡ 0
  put_silent (status new) h = refl
  put_silent create_socket h = refl
  put_silent (close_socket code reason) h = refl
  put_silent (wire message) h = elim h [ ]
  put_silent (error_event message) h = refl
  put_silent (tick_event tick) h = refl
  put_silent (snapshot_event snapshot) h = refl
  put_silent (entitlement_event message) h = refl
  put_silent schedule_frame h = refl
  put_silent (store_calls calls) h = refl
  put_silent (fetch_snapshot symbol) h = refl
  put_silent connect_resolved h = refl
  put_silent connect_rejected h = refl

  sent_silent : (outputs : List Output) → All IsSilent outputs → sent name outputs ≡ 0
  sent_silent [] h = refl
  sent_silent (x ∷ xs) h = omega (arith, put_silent x h.0, sent_silent xs h.1)

  -- What was sent and what waits now is what waited before and what was issued since.
  abbrev IsKept : Gateway → Gateway × List Output → Type 0
  IsKept s r =
      sent name r.1 + queued name r.0.pending_outbound + issued name s.request_seq
      ≡ queued name s.pending_outbound + issued name r.0.request_seq

  then-IsKept :
      (f g : Act) (s : Gateway)
      → IsKept s (f s)
      → IsKept (f s).0 (g (f s).0)
      → IsKept s ((f >> g) s)
  then-IsKept f g s p q = omega (arith, sent-append (f s).1 (g (f s).0).1, p, q)

  silent-IsKept :
      (s t : Gateway) (outputs : List Output)
      → Agrees s t
      → All IsSilent outputs
      → IsKept s (t, outputs)
  silent-IsKept s t outputs (status_same, queue_same, seq_same, intent_same, timer_same) silent =
      omega
        (arith, sent_silent outputs silent, ap (queued name) queue_same, ap (issued name) seq_same)

  send_lem :
      (env : Env) (message : ClientMessage) (s : Gateway)
      → sent name (send env message s).1 + queued name (send env message s).0.pending_outbound
        ≡ queued name s.pending_outbound + named name message
  unfolding send schedule_throttle_flush
  send_lem env message s = ground (arith, queued-append s.pending_outbound (message ∷ []))

  send_seq :
      (env : Env) (message : ClientMessage) (s : Gateway)
      → (send env message s).0.request_seq ≡ s.request_seq
  unfolding send schedule_throttle_flush
  send_seq env message s = ground arith

  issued_next :
      (seq : ℕ)
      → issued name (seq + 1) ≡ issued name seq + is_name name (some (request_name (seq + 1)))
  unfolding issued
  issued_next seq = rw (add-one seq) refl

  request-IsKept :
      (env : Env) (message : Option String → ClientMessage) (s : Gateway)
      → ((id : Option String) → request_id_of (message id) ≡ id)
      → IsKept s (request env message s)
  unfolding request
  request-IsKept env message s has_id =
      let id = some (request_name (s.request_seq + 1)) in
      let numbered = record s { request_seq = s.request_seq + 1 } in
      omega (
        arith,
        send_lem env (message id) numbered,
        ap (issued name) (send_seq env (message id) numbered),
        issued_next s.request_seq,
        ap (is_name name) (has_id id),
      )

  flush-IsKept : (env : Env) (s : Gateway) → IsKept s (flush_outbound env s)
  unfolding flush_outbound
  flush-IsKept env s = ground (arith, sent_wires s.pending_outbound)

  laws : ActLaws IsKept
  unfolding emit_status schedule_reconnect open_socket
  laws = record {
    then_law = then-IsKept;
    silent_law = silent-IsKept;
    status_law = λ state s. omega arith;
    request_law = request-IsKept;
    flush_law = flush-IsKept;
    retry_law = λ env s e. omega arith;
    reconnect_law = λ s delay e. omega arith;
    disconnect_law = λ s. omega arith;
  }

  connect-IsKept : (s : Gateway) → IsKept s (connect s)
  unfolding connect
  connect-IsKept s = ground arith

  run-IsKept : (events : List (Env × Event)) (s : Gateway) → IsKept s (run_events events s)
  unfolding run_events
  run-IsKept [] s = omega arith
  run-IsKept ((env, event) ∷ events) s =
      then-IsKept (step env event) (run_events events) s
        (step_law IsKept laws env event s (λ called. connect-IsKept s))
        (run-IsKept events (step env event s).0)

-- From the start, each request id stands as often on the wire and in the queue together as it has
-- been issued: no control message is lost, and none is sent twice, by closes, retries, rate limits
-- or refusals of the socket.
pub run-queue :
    (name : String) (events : List (Env × Event))
    → sent name (run_events events initial).1
        + queued name (run_events events initial).0.pending_outbound
      ≡ issued name (run_events events initial).0.request_seq
unfolding issued
run-queue name events = omega (arith, run-IsKept name events initial)
