-- ===== src/Gateway/State.antt =====
-- The state of client/Tckr.MarketWatch/src/data/TckrGatewaySource.ts, with the tick dispatcher and
-- the symbol store that it feeds, and what its handlers put out. A timer is a field that says whether
-- it is set; promises are the jobs that wait to run and the openers that wait for a socket.
use tckr.Prelude.{ℕ, Bool, false, Option, none, List, [], ◌∷◌, ◌++◌, String}
use tckr.Contracts.{Stream, Tick, Snapshot, ErrorMsg, EntitlementChanged, ClientMessage}
use tckr.Dispatcher.{TickDispatcher, fresh}
use tckr.Store.{Store, empty_store}
use tckr.Reconnect.{CloseCode, normal, Watchdog}

-- `readyState` of a socket: 0, 1, 2 and 3.
pub data ReadyState : Type 0 where
  socket_connecting socket_open socket_closing socket_closed : ReadyState

pub record Identity : Type 0 where
  pub user_id : String
  pub stream : Stream
  pub session_id : String

-- `since` is a time; `next_retry_ms` is the numerator of the delay that `next_delay` returns.
pub data ConnectionState : Type 0 where
  connecting : (attempt : ℕ) → ConnectionState
  connected : (since : ℕ) → ConnectionState
  reconnecting : (attempt : ℕ) (next_retry_ms : ℕ) → ConnectionState
  closed : (code : CloseCode) (reason : String) → ConnectionState

-- Who awaits the promise of `#openSocket`: the caller of `connect`, or `#reconnectNow`.
pub data Opener : Type 0 where
  caller reconnect : Opener

-- The rest of a `#reconnectNow` that can run: after the socket has opened, and after
-- authentication.
pub data Job : Type 0 where
  after_open after_auth : Job

pub data Output : Type 0 where
  create_socket : Output
  close_socket : (code : CloseCode) (reason : String) → Output
  wire : ClientMessage → Output
  status : ConnectionState → Output
  error_event : ErrorMsg → Output
  tick_event : Tick → Output
  snapshot_event : Snapshot → Output
  entitlement_event : EntitlementChanged → Output
  schedule_frame : Output
  store_calls : List ℕ → Output
  fetch_snapshot : String → Output
  connect_resolved connect_rejected : Output

pub record Gateway : Type 0 where
  pub socket : Option ReadyState
  pub identity : Option Identity
  pub last_status : ConnectionState
  pub subscribed_symbols : List String
  pub pending_outbound : List ClientMessage
  pub auth_waiters : ℕ
  pub authenticated : Bool
  pub throttled_until : ℕ
  pub throttle_timer : Option ℕ
  pub request_seq : ℕ
  pub heartbeat_interval_ms : Option ℕ
  pub heartbeat_watchdog : Option Watchdog
  pub ping_timer : Option ℕ
  pub backoff_attempt : ℕ
  pub connect_attempts : ℕ
  pub intentional_close : Bool
  pub reconnect_timer : Option ℕ
  pub connect_resolvers : Option Opener
  pub jobs : List Job
  pub dispatcher : TickDispatcher
  pub store : Store

abbrev pub initial : Gateway
initial = record {
  socket = none;
  identity = none;
  last_status = closed normal "not yet connected";
  subscribed_symbols = [];
  pending_outbound = [];
  auth_waiters = 0;
  authenticated = false;
  throttled_until = 0;
  throttle_timer = none;
  request_seq = 0;
  heartbeat_interval_ms = none;
  heartbeat_watchdog = none;
  ping_timer = none;
  backoff_attempt = 0;
  connect_attempts = 0;
  intentional_close = false;
  reconnect_timer = none;
  connect_resolvers = none;
  jobs = [];
  dispatcher = fresh;
  store = empty_store;
}

-- What a handler reads from outside: the clock, which stands still while it runs, and the value of
-- `random()` as a fraction.
pub record Env : Type 0 where
  pub now : ℕ
  pub rand_num : ℕ
  pub rand_den : ℕ

-- A part of a handler: the state after it, and its output in order.
abbrev pub Act : Type 0
Act = Gateway → Gateway × List Output

infixr 40 ◌>>◌
abbrev pub ◌>>◌ : Act → Act → Act
(f >> g) s = let first = f s in let second = g first.0 in (second.0, first.1 ++ second.1)

abbrev pub done : Act
done s = (s, [])

abbrev pub emit : Output → Act
emit o s = (s, o ∷ [])

abbrev pub update : (Gateway → Gateway) → Act
update f s = (f s, [])
