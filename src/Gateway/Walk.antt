-- ===== src/Gateway/Walk.antt =====
-- What holds of a step of the gateway source because it holds of the few parts of the handlers that
-- touch the connection's status, its outbound queue, its retries and its sockets. A property is a
-- relation between a state and the result of an act on it.
pub mod Closing
pub mod Requests
pub mod Messages
pub mod Steps
use tckr.Prelude.{
  ℕ, ◌+◌, ◌≡◌, refl, Bool, true, false, Option, none, some, List, [], ◌∷◌, ◌++◌, String, map,
  if◌then◌else◌, All, sym, ltb,
}
use tckr.Contracts.{
  ServerMessage, Snapshot, ClientMessage, request_id_of, Connected, EntitlementChanged, ErrorMsg,
  Tick,
}
use tckr.Dispatcher.{push}
use tckr.Store.{reset_stream}
use tckr.JsMap.{delete}
use tckr.Reconnect.{normal, heartbeat_timeout, Watchdog, advance}
use tckr.Gateway.Outbound.{
  rate_limit_backoff_ms, schedule_throttle_flush, flush_outbound, throttle_elapsed, request,
  non_empty, add_all, delete_all, subscribe_wanted, subscribe, unsubscribe_wanted, unsubscribe,
  ping_if_set, ping_elapsed,
}
use tckr.Gateway.Lifecycle.{
  emit_status, to_close_code, reconnect_decision_for, open_socket, connect, close_or_report,
  disconnect, resolve_opener, on_open, reject_opener, schedule_reconnect, handle_close,
  close_or_handle, heartbeats_missed, watchdog_step, watchdog_elapsed, retry_if_set,
  reconnect_elapsed, wait_for_authenticated, resubscribe_tracked, resubscribe, run as run_jobs,
  run_job,
}
use tckr.Gateway.Inbound.{
  identified, wake_waiters, handle_connected, rejection, reject_all, frame_output, handle_tick,
  is_rate_limited, handle_error, stream_changed, with_stream, switch_stream,
  handle_entitlement_changed, ingest_snapshot, handle_message, snapshot_answered, frame_elapsed,
}
use tckr.Gateway.State.{
  ReadyState, ConnectionState, Opener, Job, Output, Gateway, Env, Act, ◌>>◌, done, emit, update,
  create_socket, close_socket, wire, status, error_event, tick_event, snapshot_event,
  entitlement_event, schedule_frame, store_calls, fetch_snapshot, connect_resolved,
  connect_rejected, caller, reconnect, after_open, after_auth,
}
use tckr.Gateway.Events.{Event, throttle_if_set, step}

-- An output that no part named in the laws below makes.
abbrev pub IsSilent : Output → Type 0
IsSilent create_socket = ⊥
IsSilent (close_socket code reason) = Unit
IsSilent (wire message) = ⊥
IsSilent (status state) = ⊥
IsSilent (error_event message) = Unit
IsSilent (tick_event tick) = Unit
IsSilent (snapshot_event snapshot) = Unit
IsSilent (entitlement_event message) = Unit
IsSilent schedule_frame = Unit
IsSilent (store_calls calls) = Unit
IsSilent (fetch_snapshot symbol) = Unit
IsSilent connect_resolved = Unit
IsSilent connect_rejected = Unit

-- The fields that the laws are about are the same.
abbrev pub Agrees : Gateway → Gateway → Type 0
Agrees s t =
    (t.last_status ≡ s.last_status)
    × (t.pending_outbound ≡ s.pending_outbound)
    × (t.request_seq ≡ s.request_seq)
    × (t.intentional_close ≡ s.intentional_close)
    × (t.reconnect_timer ≡ s.reconnect_timer)

pub record ActLaws (R : Gateway → Gateway × List Output → Type 0) : Type 0 where
  pub then_law : (f g : Act) (s : Gateway) → R s (f s) → R (f s).0 (g (f s).0) → R s ((f >> g) s)
  pub silent_law :
      (s t : Gateway) (outputs : List Output) → Agrees s t → All IsSilent outputs → R s (t, outputs)
  pub status_law : (state : ConnectionState) (s : Gateway) → R s (emit_status state s)
  pub request_law :
      (env : Env) (message : Option String → ClientMessage) (s : Gateway)
      → ((id : Option String) → request_id_of (message id) ≡ id)
      → R s (request env message s)
  pub flush_law : (env : Env) (s : Gateway) → R s (flush_outbound env s)
  pub retry_law :
      (env : Env) (s : Gateway) → s.intentional_close ≡ false → R s (schedule_reconnect env s)
  pub reconnect_law :
      (s : Gateway) (delay : ℕ)
      → s.reconnect_timer ≡ some delay
      → R s (open_socket reconnect (record s { reconnect_timer = none }))
  pub disconnect_law :
      (s : Gateway) → R s (record s { intentional_close = true; reconnect_timer = none }, [])

same : (s : Gateway) → Agrees s s
same s = (refl, refl, refl, refl, refl)

module _ (R : Gateway → Gateway × List Output → Type 0) (laws : ActLaws R) where
  -- An act on a state that agrees with the one before.
  pub from : (s t : Gateway) (g : Act) → Agrees s t → R t (g t) → R s (g t)
  from s t g agrees r = laws.then_law (λ u. (t, [])) g s (laws.silent_law s t [] agrees tt) r

  pub quiet : (s : Gateway) (outputs : List Output) → All IsSilent outputs → R s (s, outputs)
  quiet s outputs silent = laws.silent_law s s outputs (same s) silent
