-- ===== src/Messages/Carried.antt =====
-- contracts/messages.ts: the fields that carry each message, and what its parser reads from them.
use tckr.Prelude.{◌≡◌, ◌↔◌, refl, ap, ◌∙◌, true, false, Option, none, some, String, arith}
use tckr.Prelude.Int.{ℤ, pos, negsuc, ◌≤ℤ◌}
use tckr.Json.{Json, is_record, field, as_string}
use tckr.Contracts.{
  Tick, Snapshot, Connected, Subscribed, Unsubscribed, ErrorMsg, EntitlementChanged, ServerMessage,
}
use tckr.Messages.{
  optional_string, parse_snapshot, refuses_interval, parse_connected, parse_subscribed,
  parse_unsubscribed, parse_tick, snapshot_in, parse_error, parse_entitlement_changed,
}
use tckr.Messages.Records.{
  parse_tick_iff, parse_snapshot_iff, parse_connected_iff, parse_subscribed_iff,
  parse_unsubscribed_iff, parse_error_iff, parse_entitlement_changed_iff,
}
use tckr.Messages.Readers.{
  stream_name, kind_name, code_name, TextAt, NumberAt, TruthAt, ListAt, PriceAt, PriceIfAt, IdAt,
  require_string_iff, require_iso_iff, require_number_iff, require_boolean_iff, require_stream_iff,
  require_tick_kind_iff, require_error_code_iff, require_string_array_iff, require_price_iff,
  previous_close_iff,
}

-- The fields that carry a message, besides its type.
abbrev pub CarriesSnapshot : Json → Snapshot → Type 0
CarriesSnapshot r m =
    (is_record r ≡ true)
    × TextAt "symbol" r m.symbol
    × TextAt "stream" r (stream_name m.stream)
    × PriceAt "price" r m.price
    × PriceAt "change" r m.change
    × TextAt "changePercent" r m.change_percent
    × PriceAt "open" r m.open_price
    × PriceIfAt "previousClose" r m.previous_close
    × PriceAt "high" r m.high
    × PriceAt "low" r m.low
    × NumberAt "volume" r m.volume
    × TextAt "lastEventId" r m.last_event_id
    × TextAt "exchangeTimestamp" r m.exchange_timestamp
    × NumberAt "snapshotAge" r m.snapshot_age
    × TruthAt "simulated" r m.simulated

abbrev pub Carries : Json → ServerMessage → Type 0
Carries r (ServerMessage.connected m) =
    NumberAt "heartbeatIntervalMs" r m.heartbeat_interval_ms
    × (pos 1000 ≤ℤ m.heartbeat_interval_ms)
    × TextAt "userId" r m.user_id
    × TextAt "stream" r (stream_name m.stream)
    × TextAt "sessionId" r m.session_id
    × TextAt "serverTime" r m.server_time
Carries r (ServerMessage.subscribed m) =
    IdAt "requestId" r m.request_id
    × TextAt "stream" r (stream_name m.stream)
    × ListAt "accepted" r m.accepted
    × ListAt "rejected" r m.rejected
Carries r (ServerMessage.unsubscribed m) =
    IdAt "requestId" r m.request_id × ListAt "accepted" r m.accepted
Carries r (ServerMessage.tick m) =
    TextAt "s" r m.s
    × PriceAt "p" r m.p
    × NumberAt "q" r m.q
    × TextAt "k" r (kind_name m.k)
    × TextAt "t" r m.t
    × TextAt "id" r m.id
    × TextAt "st" r (stream_name m.st)
Carries r (ServerMessage.snapshot m) =
    (v : Json) × (field "snapshot" r ≡ some v) × CarriesSnapshot v m
Carries r (ServerMessage.heartbeat server_time) = TextAt "serverTime" r server_time
Carries r (ServerMessage.error m) =
    IdAt "requestId" r m.request_id
    × TextAt "code" r (code_name m.code)
    × TextAt "message" r m.message
Carries r (ServerMessage.entitlement_changed m) =
    TextAt "stream" r (stream_name m.stream)
    × TruthAt "resubscribeRequired" r m.resubscribe_required
    × TextAt "effectiveFrom" r m.effective_from

pub interval_lem : (n : ℤ) → (refuses_interval n ≡ false) ↔ (pos 1000 ≤ℤ n)
unfolding refuses_interval
interval_lem (pos n) = ground arith
interval_lem (negsuc n) = ground arith

same : (A : Type 0) → A ↔ A
same A = (λ a. a, λ a. a)

through : {A B C : Type 0} → (A ↔ B) → (B ↔ C) → A ↔ C
through p q = (λ a. q.0 (p.0 a), λ c. p.1 (q.1 c))

pub id_lem :
    (r : Json) (id : Option String) → (optional_string "requestId" r ≡ id) ↔ IdAt "requestId" r id
unfolding optional_string
id_lem r id = same (as_string (field "requestId" r) ≡ id)

pub snapshot_lem : (r : Json) (m : Snapshot) → (parse_snapshot r ≡ some m) ↔ CarriesSnapshot r m
snapshot_lem r m =
    let symbol_iff = require_string_iff "symbol" r m.symbol in
    let stream_iff = require_stream_iff "stream" r m.stream in
    let price_iff = require_price_iff "price" r m.price in
    let change_iff = require_price_iff "change" r m.change in
    let change_percent_iff = require_string_iff "changePercent" r m.change_percent in
    let open_price_iff = require_price_iff "open" r m.open_price in
    let previous_close_iff = previous_close_iff "previousClose" r m.previous_close in
    let high_iff = require_price_iff "high" r m.high in
    let low_iff = require_price_iff "low" r m.low in
    let volume_iff = require_number_iff "volume" r m.volume in
    let last_event_id_iff = require_string_iff "lastEventId" r m.last_event_id in
    let exchange_timestamp_iff = require_iso_iff "exchangeTimestamp" r m.exchange_timestamp in
    let snapshot_age_iff = require_number_iff "snapshotAge" r m.snapshot_age in
    let simulated_iff = require_boolean_iff "simulated" r m.simulated in
    through (parse_snapshot_iff r m) (
      λ (
        rec, symbol, stream, price, change, change_percent, open_price, previous_close, high, low,
        volume, last_event_id, exchange_timestamp, snapshot_age, simulated,
      ).
          (
            rec,
            symbol_iff.0 symbol,
            stream_iff.0 stream,
            price_iff.0 price,
            change_iff.0 change,
            change_percent_iff.0 change_percent,
            open_price_iff.0 open_price,
            previous_close_iff.0 previous_close,
            high_iff.0 high,
            low_iff.0 low,
            volume_iff.0 volume,
            last_event_id_iff.0 last_event_id,
            exchange_timestamp_iff.0 exchange_timestamp,
            snapshot_age_iff.0 snapshot_age,
            simulated_iff.0 simulated,
          ),
      λ (
        rec, symbol, stream, price, change, change_percent, open_price, previous_close, high, low,
        volume, last_event_id, exchange_timestamp, snapshot_age, simulated,
      ).
          (
            rec,
            symbol_iff.1 symbol,
            stream_iff.1 stream,
            price_iff.1 price,
            change_iff.1 change,
            change_percent_iff.1 change_percent,
            open_price_iff.1 open_price,
            previous_close_iff.1 previous_close,
            high_iff.1 high,
            low_iff.1 low,
            volume_iff.1 volume,
            last_event_id_iff.1 last_event_id,
            exchange_timestamp_iff.1 exchange_timestamp,
            snapshot_age_iff.1 snapshot_age,
            simulated_iff.1 simulated,
          ),
    )

pub snapshot_in_lem :
    (o : Option Json) (m : Snapshot)
    → (snapshot_in o ≡ some m) ↔ ((v : Json) × (o ≡ some v) × CarriesSnapshot v m)
unfolding snapshot_in
snapshot_in_lem none m = (λ h. cc, λ (v, e, rest). cc)
snapshot_in_lem (some v) m = (
  λ h. (v, refl, (snapshot_lem v m).0 h),
  λ (w, e, carried). ap snapshot_in e ∙ (snapshot_lem w m).1 carried,
)

pub connected_lem :
    (r : Json) (m : Connected)
    → (parse_connected r ≡ some m) ↔ Carries r (ServerMessage.connected m)
connected_lem r m =
    let heartbeat_interval_ms_iff =
      require_number_iff "heartbeatIntervalMs" r m.heartbeat_interval_ms in
    let floor_iff = interval_lem m.heartbeat_interval_ms in
    let user_id_iff = require_string_iff "userId" r m.user_id in
    let stream_iff = require_stream_iff "stream" r m.stream in
    let session_id_iff = require_string_iff "sessionId" r m.session_id in
    let server_time_iff = require_iso_iff "serverTime" r m.server_time in
    through (parse_connected_iff r m) (
      λ (heartbeat_interval_ms, floor, user_id, stream, session_id, server_time). (
        heartbeat_interval_ms_iff.0 heartbeat_interval_ms,
        floor_iff.0 floor,
        user_id_iff.0 user_id,
        stream_iff.0 stream,
        session_id_iff.0 session_id,
        server_time_iff.0 server_time,
      ),
      λ (heartbeat_interval_ms, floor, user_id, stream, session_id, server_time). (
        heartbeat_interval_ms_iff.1 heartbeat_interval_ms,
        floor_iff.1 floor,
        user_id_iff.1 user_id,
        stream_iff.1 stream,
        session_id_iff.1 session_id,
        server_time_iff.1 server_time,
      ),
    )

pub subscribed_lem :
    (r : Json) (m : Subscribed)
    → (parse_subscribed r ≡ some m) ↔ Carries r (ServerMessage.subscribed m)
subscribed_lem r m =
    let request_id_iff = id_lem r m.request_id in
    let stream_iff = require_stream_iff "stream" r m.stream in
    let accepted_iff = require_string_array_iff "accepted" r m.accepted in
    let rejected_iff = require_string_array_iff "rejected" r m.rejected in
    through (parse_subscribed_iff r m) (
      λ (request_id, stream, accepted, rejected). (
        request_id_iff.0 request_id,
        stream_iff.0 stream,
        accepted_iff.0 accepted,
        rejected_iff.0 rejected,
      ),
      λ (request_id, stream, accepted, rejected). (
        request_id_iff.1 request_id,
        stream_iff.1 stream,
        accepted_iff.1 accepted,
        rejected_iff.1 rejected,
      ),
    )

pub unsubscribed_lem :
    (r : Json) (m : Unsubscribed)
    → (parse_unsubscribed r ≡ some m) ↔ Carries r (ServerMessage.unsubscribed m)
unsubscribed_lem r m =
    let request_id_iff = id_lem r m.request_id in
    let accepted_iff = require_string_array_iff "accepted" r m.accepted in
    through (parse_unsubscribed_iff r m) (
      λ (request_id, accepted). (request_id_iff.0 request_id, accepted_iff.0 accepted),
      λ (request_id, accepted). (request_id_iff.1 request_id, accepted_iff.1 accepted),
    )

pub tick_lem : (r : Json) (m : Tick) → (parse_tick r ≡ some m) ↔ Carries r (ServerMessage.tick m)
tick_lem r m =
    let symbol_iff = require_string_iff "s" r m.s in
    let price_iff = require_price_iff "p" r m.p in
    let quantity_iff = require_number_iff "q" r m.q in
    let kind_iff = require_tick_kind_iff "k" r m.k in
    let time_iff = require_iso_iff "t" r m.t in
    let event_id_iff = require_string_iff "id" r m.id in
    let stream_iff = require_stream_iff "st" r m.st in
    through (parse_tick_iff r m) (
      λ (symbol, price, quantity, kind, time, event_id, stream). (
        symbol_iff.0 symbol,
        price_iff.0 price,
        quantity_iff.0 quantity,
        kind_iff.0 kind,
        time_iff.0 time,
        event_id_iff.0 event_id,
        stream_iff.0 stream,
      ),
      λ (symbol, price, quantity, kind, time, event_id, stream). (
        symbol_iff.1 symbol,
        price_iff.1 price,
        quantity_iff.1 quantity,
        kind_iff.1 kind,
        time_iff.1 time,
        event_id_iff.1 event_id,
        stream_iff.1 stream,
      ),
    )

pub error_lem :
    (r : Json) (m : ErrorMsg) → (parse_error r ≡ some m) ↔ Carries r (ServerMessage.error m)
error_lem r m =
    let request_id_iff = id_lem r m.request_id in
    let code_iff = require_error_code_iff "code" r m.code in
    let message_iff = require_string_iff "message" r m.message in
    through (parse_error_iff r m) (
      λ (request_id, code, message).
          (request_id_iff.0 request_id, code_iff.0 code, message_iff.0 message),
      λ (request_id, code, message).
          (request_id_iff.1 request_id, code_iff.1 code, message_iff.1 message),
    )

pub entitlement_changed_lem :
    (r : Json) (m : EntitlementChanged)
    → (parse_entitlement_changed r ≡ some m) ↔ Carries r (ServerMessage.entitlement_changed m)
entitlement_changed_lem r m =
    let stream_iff = require_stream_iff "stream" r m.stream in
    let resubscribe_required_iff =
      require_boolean_iff "resubscribeRequired" r m.resubscribe_required in
    let effective_from_iff = require_iso_iff "effectiveFrom" r m.effective_from in
    through (parse_entitlement_changed_iff r m) (
      λ (stream, resubscribe_required, effective_from). (
        stream_iff.0 stream,
        resubscribe_required_iff.0 resubscribe_required,
        effective_from_iff.0 effective_from,
      ),
      λ (stream, resubscribe_required, effective_from). (
        stream_iff.1 stream,
        resubscribe_required_iff.1 resubscribe_required,
        effective_from_iff.1 effective_from,
      ),
    )
