-- ===== src/Gateway/Walk/Messages.antt =====
-- The laws of Gateway/Walk for the handlers of the server's messages.
use tckr.Prelude.{
  ◌+◌, refl, Bool, true, false, Option, none, some, List, [], ◌∷◌, String, if◌then◌else◌, All,
}
use tckr.Contracts.{ServerMessage, Snapshot, Connected, EntitlementChanged, ErrorMsg, Tick}
use tckr.Dispatcher.{push}
use tckr.Store.{reset_stream}
use tckr.JsMap.{delete}
use tckr.Gateway.Outbound.{rate_limit_backoff_ms, schedule_throttle_flush, flush_outbound}
use tckr.Gateway.Lifecycle.{emit_status}
use tckr.Gateway.Inbound.{
  identified, wake_waiters, handle_connected, rejection, reject_all, frame_output, handle_tick,
  is_rate_limited, handle_error, stream_changed, with_stream, switch_stream,
  handle_entitlement_changed, ingest_snapshot, handle_message,
}
use tckr.Gateway.State.{
  ConnectionState, Output, Gateway, Env, ◌>>◌, emit, update, error_event, entitlement_event,
  store_calls,
}
use tckr.Gateway.Walk.{IsSilent, ActLaws, from, quiet}

module _ (R : Gateway → Gateway × List Output → Type 0) (laws : ActLaws R) where
  handle_connected_law :
      (message : Connected) (env : Env) (s : Gateway) → R s (handle_connected message env s)
  unfolding handle_connected
  handle_connected_law message env s =
      let known = identified message env s in
      let state = ConnectionState.connected env.now in
      from R laws s known (emit_status state >> flush_outbound env >> update wake_waiters)
        (refl, refl, refl, refl, refl)
        (laws.then_law (emit_status state) (flush_outbound env >> update wake_waiters) known
          (laws.status_law state known)
          (laws.then_law (flush_outbound env) (update wake_waiters) (emit_status state known).0
            (laws.flush_law env (emit_status state known).0)
            (laws.silent_law _ _ _ (refl, refl, refl, refl, refl) tt)))

  reject_all_law :
      (request_id : Option String) (symbols : List String) (s : Gateway)
      → R s (reject_all request_id symbols s)
  unfolding reject_all
  reject_all_law request_id [] s = quiet R laws s [] tt
  reject_all_law request_id (symbol ∷ symbols) s =
      laws.then_law
        (λ t. (
          record s { subscribed_symbols = delete symbol s.subscribed_symbols },
          error_event (rejection request_id symbol) ∷ [],
        ))
        (reject_all request_id symbols) s
        (laws.silent_law _ _ _ (refl, refl, refl, refl, refl) (tt, tt))
        (reject_all_law request_id symbols _)

  tick_law : (tick : Tick) (s : Gateway) → R s (handle_tick tick s)
  unfolding handle_tick
  tick_law tick s =
      laws.silent_law _ _ _ (refl, refl, refl, refl, refl) (tt, frames (push tick s.dispatcher).1)
    where
      frames : (b : Bool) → All IsSilent (frame_output b)
      frames true = (tt, tt)
      frames false = tt

  error_law : (message : ErrorMsg) (env : Env) (s : Gateway) → R s (handle_error message env s)
  unfolding handle_error schedule_throttle_flush
  error_law message env s = go (is_rate_limited message.code)
    where
      go :
          (b : Bool)
          → R s (
            (if b
                then schedule_throttle_flush env
                    (record s { throttled_until = env.now + rate_limit_backoff_ms })
                else s),
            error_event message ∷ [],
          )
      go true = laws.silent_law _ _ _ (refl, refl, refl, refl, refl) (tt, tt)
      go false = quiet R laws s _ (tt, tt)

  entitlement_law :
      (message : EntitlementChanged) (s : Gateway) → R s (handle_entitlement_changed message s)
  unfolding handle_entitlement_changed
  entitlement_law message s =
      laws.then_law (switch_stream message.stream) (emit (entitlement_event message)) s
        (go (stream_changed s.identity message.stream)) (quiet R laws _ _ (tt, tt))
    where
      go :
          (b : Bool)
          → R s (
              if b
              then (
                record s {
                  identity = with_stream s.identity message.stream;
                  store = (reset_stream s.store).0;
                },
                store_calls (reset_stream s.store).1 ∷ [],
              )
              else (record s { identity = with_stream s.identity message.stream }, []))
      go true = laws.silent_law _ _ _ (refl, refl, refl, refl, refl) (tt, tt)
      go false = laws.silent_law _ _ _ (refl, refl, refl, refl, refl) tt

  pub snapshot_law :
      (snapshot : Snapshot) (broadcast : Bool) (env : Env) (s : Gateway)
      → R s (ingest_snapshot snapshot broadcast env s)
  unfolding ingest_snapshot
  snapshot_law snapshot true env s =
      laws.silent_law _ _ _ (refl, refl, refl, refl, refl) (tt, (tt, tt))
  snapshot_law snapshot false env s = laws.silent_law _ _ _ (refl, refl, refl, refl, refl) (tt, tt)

  pub handle_message_law :
      (message : Option ServerMessage) (env : Env) (s : Gateway)
      → R s (handle_message message env s)
  unfolding handle_message
  handle_message_law none env s = quiet R laws s [] tt
  handle_message_law (some (ServerMessage.connected message)) env s =
      handle_connected_law message env s
  handle_message_law (some (ServerMessage.subscribed message)) env s =
      reject_all_law message.request_id message.rejected s
  handle_message_law (some (ServerMessage.unsubscribed message)) env s = quiet R laws s [] tt
  handle_message_law (some (ServerMessage.tick tick)) env s = tick_law tick s
  handle_message_law (some (ServerMessage.snapshot snapshot)) env s =
      snapshot_law snapshot true env s
  handle_message_law (some (ServerMessage.heartbeat server_time)) env s =
      laws.silent_law _ _ _ (refl, refl, refl, refl, refl) tt
  handle_message_law (some (ServerMessage.error message)) env s = error_law message env s
  handle_message_law (some (ServerMessage.entitlement_changed message)) env s =
      entitlement_law message s
