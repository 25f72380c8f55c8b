-- ===== src/Gateway/Inbound.antt =====
-- client/Tckr.MarketWatch/src/data/TckrGatewaySource.ts: the handlers of the server's messages.
use tckr.Prelude.{
  ℕ, ◌+◌, Bool, true, false, Option, none, some, List, [], ◌∷◌, ◌++◌, String, if◌then◌else◌,
  replicate, not,
}
use tckr.Prelude.Int.{pos_part}
use Prim.Native.String.{◌++◌ as join}
use tckr.Contracts.{
  Stream, live, delayed, Tick, Snapshot, ErrorCode, unknown_symbol, subscription_limit,
  not_entitled, rate_limited, internal, Connected, Subscribed, ErrorMsg, EntitlementChanged,
  ServerMessage,
}
use tckr.JsMap.{delete}
use tckr.Reconnect.{Watchdog, pulse}
use tckr.Dispatcher.{push, flush_now}
use tckr.Store.{Store, apply_snapshot, apply_tick, reset_stream}
use tckr.Gateway.State.{
  Gateway, Identity, Env, Act, ◌>>◌, done, emit, update, ConnectionState, after_auth, Output,
  error_event, tick_event, snapshot_event, entitlement_event, schedule_frame, store_calls,
}
use tckr.Gateway.Outbound.{
  rate_limit_backoff_ms, schedule_throttle_flush, flush_outbound, start_ping,
}
use tckr.Gateway.Lifecycle.{emit_status, start_heartbeat_monitor}

-- The state in which `#handleConnected` tells the new status. The engine's timers take a negative
-- interval as zero.
unfoldable pub identified : Connected → Env → Gateway → Gateway
unfolding start_heartbeat_monitor start_ping
identified message env s = start_ping (
    start_heartbeat_monitor env (record s {
      identity = some (record {
        user_id = message.user_id;
        stream = message.stream;
        session_id = message.session_id;
      });
      heartbeat_interval_ms = some (pos_part message.heartbeat_interval_ms);
      backoff_attempt = 0;
      authenticated = true;
    }))

-- Every promise that waits for authentication is resolved.
abbrev pub wake_waiters : Gateway → Gateway
wake_waiters s = record s { auth_waiters = 0; jobs = s.jobs ++ replicate s.auth_waiters after_auth }

unfoldable pub handle_connected : Connected → Env → Act
unfolding emit_status flush_outbound identified
handle_connected message env s =
    (emit_status (ConnectionState.connected env.now) >> flush_outbound env >> update wake_waiters)
      (identified message env s)

abbrev pub rejection : Option String → String → ErrorMsg
rejection request_id symbol = record {
  code = unknown_symbol;
  message = join "Symbol rejected by server: " symbol;
  request_id = request_id;
}

-- The loop of `#handleSubscribed`.
unfoldable pub reject_all : Option String → List String → Act
reject_all request_id [] s = (s, [])
reject_all request_id (symbol ∷ symbols) s =
    let rest =
      reject_all request_id symbols
        (record s { subscribed_symbols = delete symbol s.subscribed_symbols }) in
    (rest.0, error_event (rejection request_id symbol) ∷ rest.1)

unfoldable pub handle_subscribed : Subscribed → Act
unfolding reject_all
handle_subscribed message = reject_all message.request_id message.rejected

abbrev pub frame_output : Bool → List Output
frame_output true = schedule_frame ∷ []
frame_output false = []

unfoldable pub handle_tick : Tick → Act
unfolding push
handle_tick tick s =
    let pushed = push tick s.dispatcher in
    (record s { dispatcher = pushed.0 }, tick_event tick ∷ frame_output pushed.1)

abbrev pub is_rate_limited : ErrorCode → Bool
is_rate_limited unknown_symbol = false
is_rate_limited subscription_limit = false
is_rate_limited not_entitled = false
is_rate_limited rate_limited = true
is_rate_limited internal = false

unfoldable pub handle_error : ErrorMsg → Env → Act
unfolding schedule_throttle_flush
handle_error message env s = (
  if is_rate_limited message.code
      then schedule_throttle_flush env
          (record s { throttled_until = env.now + rate_limit_backoff_ms })
      else s,
  error_event message ∷ [],
)

abbrev pub same_stream : Stream → Stream → Bool
same_stream live live = true
same_stream live delayed = false
same_stream delayed live = false
same_stream delayed delayed = true

-- `previousStream !== undefined && previousStream !== message.stream`
abbrev pub stream_changed : Option Identity → Stream → Bool
stream_changed none stream = false
stream_changed (some identity) stream = not (same_stream identity.stream stream)

abbrev pub with_stream : Option Identity → Stream → Option Identity
with_stream none stream = none
with_stream (some identity) stream = some (record identity { stream = stream })

-- A changed stream discards what the store has of the old one.
abbrev pub switch_stream : Stream → Act
switch_stream stream s =
    if stream_changed s.identity stream
    then (
      record s { identity = with_stream s.identity stream; store = (reset_stream s.store).0 },
      store_calls (reset_stream s.store).1 ∷ [],
    )
    else (record s { identity = with_stream s.identity stream }, [])

unfoldable pub handle_entitlement_changed : EntitlementChanged → Act
handle_entitlement_changed message =
    switch_stream message.stream >> emit (entitlement_event message)

unfoldable pub ingest_snapshot : Snapshot → Bool → Env → Act
ingest_snapshot snapshot broadcast env s = (
  record s { store = (apply_snapshot snapshot env.now s.store).0 },
  store_calls (apply_snapshot snapshot env.now s.store).1
      ∷ (if broadcast then snapshot_event snapshot ∷ [] else []),
)

abbrev pub pulse_if_set : Option Watchdog → ℕ → Option Watchdog
pulse_if_set none now = none
pulse_if_set (some w) now = some (pulse now w)

unfoldable pub handle_heartbeat : Env → Gateway → Gateway
handle_heartbeat env s = record s { heartbeat_watchdog = pulse_if_set s.heartbeat_watchdog env.now }

-- `#handleMessage` after the parser, which fails with `none`.
unfoldable pub handle_message : Option ServerMessage → Env → Act
unfolding handle_connected handle_subscribed handle_tick handle_error handle_entitlement_changed
    ingest_snapshot handle_heartbeat
handle_message none env = done
handle_message (some (ServerMessage.connected message)) env = handle_connected message env
handle_message (some (ServerMessage.subscribed message)) env = handle_subscribed message
handle_message (some (ServerMessage.unsubscribed message)) env = done
handle_message (some (ServerMessage.tick tick)) env = handle_tick tick
handle_message (some (ServerMessage.snapshot snapshot)) env = ingest_snapshot snapshot true env
handle_message (some (ServerMessage.heartbeat server_time)) env = update (handle_heartbeat env)
handle_message (some (ServerMessage.error message)) env = handle_error message env
handle_message (some (ServerMessage.entitlement_changed message)) env =
    handle_entitlement_changed message

-- `getSnapshot` when its answer has come: `none` where the request or the parsing of the body failed.
unfoldable pub snapshot_answered : Option Snapshot → Env → Act
unfolding ingest_snapshot
snapshot_answered none env = done
snapshot_answered (some snapshot) env = ingest_snapshot snapshot false env

-- The frame of the dispatcher, whose `onFlush` is `applyTick`.
unfoldable pub apply_each : List Tick → ℕ → Store → Store × List ℕ
apply_each [] now store = (store, [])
apply_each (tick ∷ ticks) now store =
    let first = apply_tick tick now store in
    let rest = apply_each ticks now first.0 in (rest.0, first.1 ++ rest.1)

unfoldable pub frame_elapsed : Env → Act
unfolding flush_now apply_each
frame_elapsed env s =
    let flushed = flush_now s.dispatcher in
    let applied = apply_each flushed.1 env.now s.store in
    (record s { dispatcher = flushed.0; store = applied.0 }, store_calls applied.1 ∷ [])
