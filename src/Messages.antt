-- ===== src/Messages.antt =====
-- client/Tckr.MarketWatch/src/contracts/messages.ts: the validation of the server's messages, and the
-- fields that a client's message is written with. A thrown `TypeError` is `none`, without its text.
pub mod Records
pub mod Readers
pub mod Typed
pub mod Carried
pub mod Accepted
pub mod Outbound
use tckr.Prelude.{
  ℕ, ◌+◌, ◌*◌, ◌-◌, ◌/◌, ◌%◌, Bool, true, false, not, Option, none, some, List, [], ◌∷◌, String,
  str_eq, if◌then◌else◌, ltb,
}
use tckr.Prelude.Int.{ℤ, pos, ltb_ℤ}
use Prim.Native.Char.{code}
use Prim.Native.String
use tckr.Text.{Text}
use tckr.Decimal.{to_decimal}
use tckr.Json.{
  Json, null, boolean, number, string, array, object, Items, nil, cons, Fields, end, entry,
  is_record, field, as_string, as_number, as_boolean, as_array, all_strings,
}
use tckr.Contracts.{
  Stream, live, delayed, TickKind, trade, bid, ask, Tick, Snapshot, ErrorCode, unknown_symbol,
  subscription_limit, not_entitled, rate_limited, internal, Connected, Subscribed, Unsubscribed,
  ErrorMsg, EntitlementChanged, ServerMessage, ClientMessage,
}

infixl 5 ◌>>=◌
abbrev pub ◌>>=◌ {ℓ κ} : {A : Type ℓ} {B : Type κ} → Option A → (A → Option B) → Option B
none >>= f = none
some a >>= f = f a

-- A string's UTF-16 code units: a character beyond FFFF is a surrogate pair.
unfoldable pub units : String → Text
units String.[] = []
units (String.◌∷◌ c s) =
    if ltb (code c) 65536
    then code c ∷ units s
    else (55296 + (code c - 65536) / 1024) ∷ (56320 + (code c - 65536) % 1024) ∷ units s

unfoldable pub require_string : String → Json → Option String
require_string key r = as_string (field key r)

-- `optionalString`: anything but a string reads as absent, and nothing fails.
unfoldable pub optional_string : String → Json → Option String
optional_string key r = as_string (field key r)

unfoldable pub require_number : String → Json → Option ℤ
require_number key r = as_number (field key r)

unfoldable pub require_boolean : String → Json → Option Bool
require_boolean key r = as_boolean (field key r)

unfoldable pub require_string_array : String → Json → Option (List String)
require_string_array key r = as_array (field key r) >>= all_strings

abbrev pub stream_named : String → Option Stream
stream_named name =
    if str_eq name "LIVE" then some live else if str_eq name "DELAYED" then some delayed else none

unfoldable pub require_stream : String → Json → Option Stream
require_stream key r = require_string key r >>= stream_named

abbrev pub kind_named : String → Option TickKind
kind_named name =
    if str_eq name "TRADE"
    then some trade
    else if str_eq name "BID"
    then some bid
    else if str_eq name "ASK"
    then some ask
    else none

unfoldable pub require_tick_kind : String → Json → Option TickKind
require_tick_kind key r = require_string key r >>= kind_named

abbrev pub code_named : String → Option ErrorCode
code_named name =
    if str_eq name "UNKNOWN_SYMBOL"
    then some unknown_symbol
    else if str_eq name "SUBSCRIPTION_LIMIT"
    then some subscription_limit
    else if str_eq name "NOT_ENTITLED"
    then some not_entitled
    else if str_eq name "RATE_LIMITED"
    then some rate_limited
    else if str_eq name "INTERNAL"
    then some internal
    else none

unfoldable pub require_error_code : String → Json → Option ErrorCode
require_error_code key r = require_string key r >>= code_named

abbrev pub price_of : String → Option Text
price_of raw = to_decimal (units raw)

unfoldable pub require_price : String → Json → Option Text
require_price key r = require_string key r >>= price_of

unfoldable pub require_iso : String → Json → Option String
require_iso key r = require_string key r

-- A price that may be `undefined`, and fails as a price when it is anything else.
unfoldable pub price_if_present : Option Json → Option (Option Text)
price_if_present none = some none
price_if_present (some v) = as_string (some v) >>= price_of >>= (λ p. some (some p))

unfoldable pub parse_snapshot : Json → Option Snapshot
parse_snapshot r = if not (is_record r) then none else do
  symbol ← require_string "symbol" r
  stream ← require_stream "stream" r
  price ← require_price "price" r
  change ← require_price "change" r
  change_percent ← require_string "changePercent" r
  open_price ← require_price "open" r
  previous_close ← price_if_present (field "previousClose" r)
  high ← require_price "high" r
  low ← require_price "low" r
  volume ← require_number "volume" r
  last_event_id ← require_string "lastEventId" r
  exchange_timestamp ← require_iso "exchangeTimestamp" r
  snapshot_age ← require_number "snapshotAge" r
  simulated ← require_boolean "simulated" r
  some (record {
    symbol = symbol;
    stream = stream;
    price = price;
    change = change;
    change_percent = change_percent;
    open_price = open_price;
    previous_close = previous_close;
    high = high;
    low = low;
    volume = volume;
    last_event_id = last_event_id;
    exchange_timestamp = exchange_timestamp;
    snapshot_age = snapshot_age;
    simulated = simulated;
  })

abbrev pub min_heartbeat_interval_ms : ℤ
min_heartbeat_interval_ms = pos 1000

-- `!Number.isFinite(…) || … < MIN_HEARTBEAT_INTERVAL_MS`; a whole number is finite.
unfoldable pub refuses_interval : ℤ → Bool
refuses_interval interval_ms = ltb_ℤ interval_ms min_heartbeat_interval_ms

unfoldable pub parse_connected : Json → Option Connected
parse_connected r = do
  heartbeat_interval_ms ← require_number "heartbeatIntervalMs" r
  if refuses_interval heartbeat_interval_ms then none else do
    user_id ← require_string "userId" r
    stream ← require_stream "stream" r
    session_id ← require_string "sessionId" r
    server_time ← require_iso "serverTime" r
    some (record {
      user_id = user_id;
      stream = stream;
      session_id = session_id;
      heartbeat_interval_ms = heartbeat_interval_ms;
      server_time = server_time;
    })

unfoldable pub parse_subscribed : Json → Option Subscribed
parse_subscribed r = do
  stream ← require_stream "stream" r
  accepted ← require_string_array "accepted" r
  rejected ← require_string_array "rejected" r
  some (record {
    request_id = optional_string "requestId" r;
    stream = stream;
    accepted = accepted;
    rejected = rejected;
  })

unfoldable pub parse_unsubscribed : Json → Option Unsubscribed
parse_unsubscribed r = do
  accepted ← require_string_array "accepted" r
  some (record { request_id = optional_string "requestId" r; accepted = accepted })

unfoldable pub parse_tick : Json → Option Tick
parse_tick r = do
  s ← require_string "s" r
  p ← require_price "p" r
  q ← require_number "q" r
  k ← require_tick_kind "k" r
  t ← require_iso "t" r
  id ← require_string "id" r
  st ← require_stream "st" r
  some (record { s = s; p = p; q = q; k = k; t = t; id = id; st = st })

-- `parseSnapshot(record['snapshot'], …)`, where `undefined` is no record.
unfoldable pub snapshot_in : Option Json → Option Snapshot
snapshot_in none = none
snapshot_in (some v) = parse_snapshot v

unfoldable pub parse_error : Json → Option ErrorMsg
parse_error r = do
  code ← require_error_code "code" r
  message ← require_string "message" r
  some (record { code = code; message = message; request_id = optional_string "requestId" r })

unfoldable pub parse_entitlement_changed : Json → Option EntitlementChanged
parse_entitlement_changed r = do
  stream ← require_stream "stream" r
  resubscribe_required ← require_boolean "resubscribeRequired" r
  effective_from ← require_iso "effectiveFrom" r
  some (record {
    stream = stream;
    resubscribe_required = resubscribe_required;
    effective_from = effective_from;
  })

unfoldable pub parse_typed : String → Json → Option ServerMessage
parse_typed type r =
    if str_eq type "connected"
    then parse_connected r >>= (λ m. some (ServerMessage.connected m))
    else if str_eq type "subscribed"
    then parse_subscribed r >>= (λ m. some (ServerMessage.subscribed m))
    else if str_eq type "unsubscribed"
    then parse_unsubscribed r >>= (λ m. some (ServerMessage.unsubscribed m))
    else if str_eq type "tick"
    then parse_tick r >>= (λ m. some (ServerMessage.tick m))
    else if str_eq type "snapshot"
    then snapshot_in (field "snapshot" r) >>= (λ m. some (ServerMessage.snapshot m))
    else if str_eq type "heartbeat"
    then require_iso "serverTime" r >>= (λ server_time. some (ServerMessage.heartbeat server_time))
    else if str_eq type "error"
    then parse_error r >>= (λ m. some (ServerMessage.error m))
    else if str_eq type "entitlementChanged"
    then parse_entitlement_changed r >>= (λ m. some (ServerMessage.entitlement_changed m))
    else none

-- `parseServerMessage` of what `JSON.parse` returned, with `none` where it threw.
unfoldable pub parse_server_message : Option Json → Option ServerMessage
unfolding parse_typed
parse_server_message none = none
parse_server_message (some r) =
    if not (is_record r) then none else require_string "type" r >>= (λ type. parse_typed type r)

unfoldable pub strings : List String → Items
strings [] = nil
strings (s ∷ ss) = cons (string s) (strings ss)

-- `pickDefined`: a request id only where there is one.
abbrev pub with_id : Option String → Fields
with_id none = end
with_id (some id) = entry "requestId" (string id) end

-- `serializeClientMessage`, before `JSON.stringify`.
unfoldable pub serialize_client_message : ClientMessage → Json
unfolding strings
serialize_client_message (ClientMessage.subscribe symbols id) =
    object
      (entry "type" (string "subscribe") (entry "symbols" (array (strings symbols)) (with_id id)))
serialize_client_message (ClientMessage.unsubscribe symbols id) =
    object
      (entry "type" (string "unsubscribe") (entry "symbols" (array (strings symbols)) (with_id id)))
serialize_client_message (ClientMessage.ping id) =
    object (entry "type" (string "ping") (with_id id))
