-- ===== src/Contracts.antt =====
-- client/Tckr.MarketWatch/src/contracts/messages.ts, rest.ts and closeCodes.ts: the data that the
-- client exchanges with a gateway. A `number` on the wire is a whole number here: fractions, and the
-- rounding of doubles beyond 2 ^ 53, are not modelled. `IsoUtc` is a text that is never read.
use tckr.Prelude.{String, Option, List, Bool}
use tckr.Prelude.Int.{ℤ}
use tckr.Text.{Text}

pub data Stream : Type 0 where
  live delayed : Stream

pub data TickKind : Type 0 where
  trade bid ask : TickKind

-- Fields `s`, `p`, `q`, `k`, `t`, `id` and `st`.
pub record Tick : Type 0 where
  pub s : String
  pub p : Text
  pub q : ℤ
  pub k : TickKind
  pub t : String
  pub id : String
  pub st : Stream

pub record Snapshot : Type 0 where
  pub symbol : String
  pub stream : Stream
  pub price : Text
  pub change : Text
  pub change_percent : String
  pub open_price : Text
  pub previous_close : Option Text
  pub high : Text
  pub low : Text
  pub volume : ℤ
  pub last_event_id : String
  pub exchange_timestamp : String
  pub snapshot_age : ℤ
  pub simulated : Bool

pub data ErrorCode : Type 0 where
  unknown_symbol subscription_limit not_entitled rate_limited internal : ErrorCode

pub record Connected : Type 0 where
  pub user_id : String
  pub stream : Stream
  pub session_id : String
  pub heartbeat_interval_ms : ℤ
  pub server_time : String

pub record Subscribed : Type 0 where
  pub request_id : Option String
  pub stream : Stream
  pub accepted : List String
  pub rejected : List String

pub record Unsubscribed : Type 0 where
  pub request_id : Option String
  pub accepted : List String

pub record ErrorMsg : Type 0 where
  pub code : ErrorCode
  pub message : String
  pub request_id : Option String

pub record EntitlementChanged : Type 0 where
  pub stream : Stream
  pub resubscribe_required : Bool
  pub effective_from : String

pub data ServerMessage : Type 0 where
  connected : Connected → ServerMessage
  subscribed : Subscribed → ServerMessage
  unsubscribed : Unsubscribed → ServerMessage
  tick : Tick → ServerMessage
  snapshot : Snapshot → ServerMessage
  heartbeat : String → ServerMessage
  error : ErrorMsg → ServerMessage
  entitlement_changed : EntitlementChanged → ServerMessage

-- Outbound messages carry symbols and an optional request id, and nothing else.
pub data ClientMessage : Type 0 where
  subscribe : List String → Option String → ClientMessage
  unsubscribe : List String → Option String → ClientMessage
  ping : Option String → ClientMessage

abbrev pub request_id_of : ClientMessage → Option String
request_id_of (subscribe symbols request_id) = request_id
request_id_of (unsubscribe symbols request_id) = request_id
request_id_of (ping request_id) = request_id

pub record SymbolDefinition : Type 0 where
  pub symbol : String
  pub name : String
  pub currency : String
  pub tick_size : Text
  pub lot_size : ℤ
  pub reference_price : Text

pub record SymbolUniverseResponse : Type 0 where
  pub as_of : String
  pub simulated : Bool
  pub symbols : List SymbolDefinition

pub record HistoryPoint : Type 0 where
  pub t : String
  pub p : Text

pub record SymbolHistoryResponse : Type 0 where
  pub symbol : String
  pub points : List HistoryPoint
