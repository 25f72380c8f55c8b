-- ===== src/Gateway/Outbound.antt =====
-- client/Tckr.MarketWatch/src/data/TckrGatewaySource.ts: the outbound queue, request ids, the
-- rate-limit window and the pings. `serializeClientMessage` is applied by whoever reads the wire.
use tckr.Prelude.{
  ℕ, zero, suc, ◌+◌, ◌-◌, ◌/◌, ◌%◌, Bool, true, false, not, ◌&&◌, Option, none, some, List, [], ◌∷◌,
  ◌++◌, String, map, ltb, if◌then◌else◌, str_eq,
}
use Prim.Native.String.{◌++◌ as join, slice}
use tckr.Contracts.{ClientMessage}
use tckr.JsMap.{add, delete}
use tckr.Gateway.State.{
  ReadyState, socket_open, socket_connecting, socket_closing, socket_closed, Gateway, Env, Act,
  ◌>>◌, done, update, wire,
}

-- `RATE_LIMIT_BACKOFF_MS`
abbrev pub rate_limit_backoff_ms : ℕ
rate_limit_backoff_ms = 2000

abbrev pub is_open : Option ReadyState → Bool
is_open (some socket_open) = true
is_open (some socket_connecting) = false
is_open (some socket_closing) = false
is_open (some socket_closed) = false
is_open none = false

-- The condition under which a frame goes to the wire at once.
abbrev pub can_send : ℕ → Gateway → Bool
can_send now s = s.authenticated && (not (ltb now s.throttled_until) && is_open s.socket)

abbrev pub due_or : Option ℕ → ℕ → ℕ
due_or none due = due
due_or (some set_before) due = set_before

-- A timer that is set stays; otherwise the flush is due when the window ends.
unfoldable pub schedule_throttle_flush : Env → Gateway → Gateway
schedule_throttle_flush env s = record s {
  throttle_timer = some (due_or s.throttle_timer (env.now + (s.throttled_until - env.now)));
}

abbrev pub enqueue : ClientMessage → Gateway → Gateway
enqueue message s = record s { pending_outbound = s.pending_outbound ++ message ∷ [] }

unfoldable pub send : Env → ClientMessage → Act
unfolding schedule_throttle_flush
send env message s =
    if can_send env.now s
    then (s, wire message ∷ [])
    else if ltb env.now s.throttled_until
    then (schedule_throttle_flush env (enqueue message s), [])
    else (enqueue message s, [])

unfoldable pub flush_outbound : Env → Act
flush_outbound env s =
    if can_send env.now s
    then (record s { pending_outbound = [] }, map wire s.pending_outbound)
    else (s, [])

-- The callback of the throttle timer.
unfoldable pub throttle_elapsed : Env → Act
unfolding schedule_throttle_flush flush_outbound
throttle_elapsed env s =
    let unset = record s { throttle_timer = none } in
    if ltb env.now s.throttled_until
    then (schedule_throttle_flush env unset, [])
    else flush_outbound env unset

unfoldable pub clear_throttle_timer : Gateway → Gateway
clear_throttle_timer s = record s { throttle_timer = none }

abbrev digit : ℕ → String
digit d = slice "0123456789" d (d + 1)

-- The decimal numeral, on fuel: a number has at most as many digits as itself plus one.
unfoldable pub numeral_fuel : ℕ → ℕ → String
numeral_fuel zero n = ""
numeral_fuel (suc f) n =
    let more = numeral_fuel f (n / 10) in if ltb n 10 then digit n else join more (digit (n % 10))

unfoldable pub request_name : ℕ → String
unfolding numeral_fuel
request_name seq = join "gw-" (numeral_fuel (suc seq) seq)

-- `#nextRequestId`, and the message that is built with it and sent.
unfoldable pub request : Env → (Option String → ClientMessage) → Act
unfolding send request_name
request env message s =
    send env (message (some (request_name (s.request_seq + 1))))
      (record s { request_seq = s.request_seq + 1 })

-- `symbols.filter((s) => s.length > 0)`
unfoldable pub non_empty : List String → List String
non_empty [] = []
non_empty (symbol ∷ symbols) =
    if str_eq symbol "" then non_empty symbols else symbol ∷ non_empty symbols

unfoldable pub add_all : List String → List String → List String
add_all [] tracked = tracked
add_all (symbol ∷ symbols) tracked = add_all symbols (add symbol tracked)

unfoldable pub delete_all : List String → List String → List String
delete_all [] tracked = tracked
delete_all (symbol ∷ symbols) tracked = delete_all symbols (delete symbol tracked)

-- `subscribe` and `unsubscribe` after the empty symbols are taken out.
abbrev pub subscribe_wanted : Env → List String → Act
subscribe_wanted env [] = done
subscribe_wanted env (symbol ∷ symbols) =
    let wanted = symbol ∷ symbols in
    update (λ s. record s { subscribed_symbols = add_all wanted s.subscribed_symbols })
    >> request env (ClientMessage.subscribe wanted)

unfoldable pub subscribe : Env → List String → Act
unfolding request
subscribe env symbols = subscribe_wanted env (non_empty symbols)

abbrev pub unsubscribe_wanted : Env → List String → Act
unsubscribe_wanted env [] = done
unsubscribe_wanted env (symbol ∷ symbols) =
    let wanted = symbol ∷ symbols in
    update (λ s. record s { subscribed_symbols = delete_all wanted s.subscribed_symbols })
    >> request env (ClientMessage.unsubscribe wanted)

unfoldable pub unsubscribe : Env → List String → Act
unfolding request
unsubscribe env symbols = unsubscribe_wanted env (non_empty symbols)

abbrev pub ping_if_set : Option ℕ → Env → Act
ping_if_set none env = done
ping_if_set (some interval_ms) env = request env ClientMessage.ping

-- The callback of the ping timer, which is repeated while it is set.
unfoldable pub ping_elapsed : Env → Act
unfolding request
ping_elapsed env s = ping_if_set s.ping_timer env s

unfoldable pub start_ping : Gateway → Gateway
start_ping s = record s { ping_timer = s.heartbeat_interval_ms }

unfoldable pub stop_ping : Gateway → Gateway
stop_ping s = record s { ping_timer = none }
