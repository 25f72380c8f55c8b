-- ===== src/Messages/Records.antt =====
-- contracts/messages.ts: a message is read exactly where each of its fields is.
use tckr.Prelude.{◌≡◌, ◌↔◌, true, false, some, arith}
use tckr.Json.{Json, is_record, field}
use tckr.Contracts.{
  Tick, Snapshot, Connected, Subscribed, Unsubscribed, ErrorMsg, EntitlementChanged,
}
use tckr.Messages.{
  require_string, require_number, require_boolean, require_string_array, require_stream,
  require_tick_kind, require_error_code, require_price, require_iso, optional_string,
  price_if_present, parse_snapshot, refuses_interval, parse_connected, parse_subscribed,
  parse_unsubscribed, parse_tick, parse_error, parse_entitlement_changed,
}

pub parse_tick_iff :
    (r : Json) (m : Tick)
    → (parse_tick r ≡ some m) ↔ (
        (require_string "s" r ≡ some m.s)
        × (require_price "p" r ≡ some m.p)
        × (require_number "q" r ≡ some m.q)
        × (require_tick_kind "k" r ≡ some m.k)
        × (require_iso "t" r ≡ some m.t)
        × (require_string "id" r ≡ some m.id)
        × (require_stream "st" r ≡ some m.st))
unfolding parse_tick
parse_tick_iff r m = ground arith

pub parse_snapshot_iff :
    (r : Json) (m : Snapshot)
    → (parse_snapshot r ≡ some m) ↔ (
        (is_record r ≡ true)
        × (require_string "symbol" r ≡ some m.symbol)
        × (require_stream "stream" r ≡ some m.stream)
        × (require_price "price" r ≡ some m.price)
        × (require_price "change" r ≡ some m.change)
        × (require_string "changePercent" r ≡ some m.change_percent)
        × (require_price "open" r ≡ some m.open_price)
        × (price_if_present (field "previousClose" r) ≡ some m.previous_close)
        × (require_price "high" r ≡ some m.high)
        × (require_price "low" r ≡ some m.low)
        × (require_number "volume" r ≡ some m.volume)
        × (require_string "lastEventId" r ≡ some m.last_event_id)
        × (require_iso "exchangeTimestamp" r ≡ some m.exchange_timestamp)
        × (require_number "snapshotAge" r ≡ some m.snapshot_age)
        × (require_boolean "simulated" r ≡ some m.simulated))
unfolding parse_snapshot
parse_snapshot_iff r m = ground arith

pub parse_connected_iff :
    (r : Json) (m : Connected)
    → (parse_connected r ≡ some m) ↔ (
        (require_number "heartbeatIntervalMs" r ≡ some m.heartbeat_interval_ms)
        × (refuses_interval m.heartbeat_interval_ms ≡ false)
        × (require_string "userId" r ≡ some m.user_id)
        × (require_stream "stream" r ≡ some m.stream)
        × (require_string "sessionId" r ≡ some m.session_id)
        × (require_iso "serverTime" r ≡ some m.server_time))
unfolding parse_connected
parse_connected_iff r m = ground arith

pub parse_subscribed_iff :
    (r : Json) (m : Subscribed)
    → (parse_subscribed r ≡ some m) ↔ (
        (optional_string "requestId" r ≡ m.request_id)
        × (require_stream "stream" r ≡ some m.stream)
        × (require_string_array "accepted" r ≡ some m.accepted)
        × (require_string_array "rejected" r ≡ some m.rejected))
unfolding parse_subscribed
parse_subscribed_iff r m = ground arith

pub parse_unsubscribed_iff :
    (r : Json) (m : Unsubscribed)
    → (parse_unsubscribed r ≡ some m) ↔ (
        (optional_string "requestId" r ≡ m.request_id)
        × (require_string_array "accepted" r ≡ some m.accepted))
unfolding parse_unsubscribed
parse_unsubscribed_iff r m = ground arith

pub parse_error_iff :
    (r : Json) (m : ErrorMsg)
    → (parse_error r ≡ some m) ↔ (
        (optional_string "requestId" r ≡ m.request_id)
        × (require_error_code "code" r ≡ some m.code)
        × (require_string "message" r ≡ some m.message))
unfolding parse_error
parse_error_iff r m = ground arith

pub parse_entitlement_changed_iff :
    (r : Json) (m : EntitlementChanged)
    → (parse_entitlement_changed r ≡ some m) ↔ (
        (require_stream "stream" r ≡ some m.stream)
        × (require_boolean "resubscribeRequired" r ≡ some m.resubscribe_required)
        × (require_iso "effectiveFrom" r ≡ some m.effective_from))
unfolding parse_entitlement_changed
parse_entitlement_changed_iff r m = ground arith
