-- ===== src/Tests/Wire.antt =====
-- The messages of contracts/messages.ts and the REST bodies of data/TckrGatewaySource.ts, at concrete values.
use tckr.Prelude.{◌+◌, ◌≤◌, ◌≡◌, ◌↔◌, refl, true, false, none, some, List, [], ◌∷◌}
use tckr.Prelude.Int.{pos}
use tckr.Json.{Json, boolean, number, string, object, end, entry, is_record, get}
use tckr.Contracts.{live, trade, ServerMessage, ClientMessage}
use tckr.Decimal.{to_decimal, is_decimal}
use tckr.Messages.{
  require_string, require_price, require_number, require_tick_kind, require_iso, require_stream,
  parse_tick, units, parse_server_message, refuses_interval,
}
use tckr.Messages.Readers.{TextAt}
use tckr.Messages.Typed.{type_name}
use tckr.Messages.Carried.{Carries}
use tckr.Messages.Accepted.{parse_server_message_iff}
use tckr.Rest.{
  get_universe, universe_answered, Response, Universe, fetch_universe, rejected, http_base,
  universe_from,
}
use tckr.Rest.Fetches.{
  UniverseEvent, call, answer, run, replies, fetches, calls, answers, in_flight, run-settles,
}
use tckr.Store.{empty_store}

abbrev tick_value : Json
tick_value = object (
    entry "type" (string "tick") (
      entry "s" (string "COMI") (
        entry "p" (string "81.5") (
          entry "q" (number (pos 200)) (
            entry "k" (string "TRADE") (
              entry "t" (string "2026-09-24T09:00:00Z")
                (entry "id" (string "e1") (entry "st" (string "LIVE") end))))))))

abbrev tick_message : ServerMessage
tick_message = ServerMessage.tick (record {
  s = "COMI";
  p = units "81.5";
  q = pos 200;
  k = trade;
  t = "2026-09-24T09:00:00Z";
  id = "e1";
  st = live;
})

tick-read : parse_server_message (some tick_value) ≡ some tick_message
unfolding parse_server_message require_string get parse_tick require_price to_decimal is_decimal
    units require_number require_tick_kind require_iso require_stream
tick-read = refl

no_json : parse_server_message none ≡ none
unfolding parse_server_message
no_json = refl

-- A heartbeat interval below a second is refused.
fast_heartbeat : refuses_interval (pos 999) ≡ true
unfolding refuses_interval
fast_heartbeat = refl

parse_server_message_iff_example : (parse_server_message (some tick_value) ≡ some tick_message) ↔ (
    (is_record tick_value ≡ true)
    × TextAt "type" tick_value (type_name tick_message)
    × Carries tick_value tick_message)
parse_server_message_iff_example = parse_server_message_iff tick_value tick_message

abbrev subscription : ClientMessage
subscription = ClientMessage.subscribe ("COMI" ∷ "HRHO" ∷ []) (some "r1")

abbrev snapshot_value : Json
snapshot_value = object (
    entry "symbol" (string "COMI") (
      entry "stream" (string "DELAYED") (
        entry "price" (string "81.5") (
          entry "change" (string "1.5") (
            entry "changePercent" (string "1.88") (
              entry "open" (string "80") (
                entry "high" (string "82") (
                  entry "low" (string "79.5") (
                    entry "volume" (number (pos 1200)) (
                      entry "lastEventId" (string "e9") (
                        entry "exchangeTimestamp" (string "2026-09-24T09:00:00Z") (
                          entry "snapshotAge" (number (pos 3))
                            (entry "simulated" (boolean true) end)))))))))))))

secure_base : http_base (units "wss://tckr.example") ≡ units "https://tckr.example"
unfolding http_base units
secure_base = refl

plain_base : http_base (units "ws://localhost:5000") ≡ units "http://localhost:5000"
unfolding http_base units
plain_base = refl

abbrev no_universe : Universe
no_universe = record { cache = none; waiting = 0; store = empty_store }

abbrev server_error : Response
server_error = record { is_ok = false; body = none }

-- Two calls share a request that fails, and a third one sends another.
abbrev three_calls : List UniverseEvent
three_calls = call ∷ call ∷ answer server_error ∷ call ∷ []

shared_fetch :
    (run three_calls no_universe).1 ≡ fetch_universe ∷ rejected ∷ rejected ∷ fetch_universe ∷ []
unfolding run get_universe universe_answered universe_from
shared_fetch = refl

run-settles_example :
    (replies ((run three_calls no_universe).1) + ((run three_calls no_universe).0).waiting
      ≡ no_universe.waiting + calls three_calls)
    × (fetches ((run three_calls no_universe).1) + in_flight no_universe
        ≤ answers three_calls + in_flight ((run three_calls no_universe).0))
run-settles_example = run-settles three_calls no_universe
