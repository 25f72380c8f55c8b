-- ===== src/Rest.antt =====
-- client/Tckr.MarketWatch/src/data/TckrGatewaySource.ts: the REST side of the gateway source, its own
-- copy of the validators, and the cache of the universe. A failure is `none`, without its text; the
-- bodies are the values that `res.json()` gives, with `none` where it rejects.
pub mod Bodies
pub mod Fetches
use tckr.Prelude.{
  ℕ, ◌+◌, Bool, true, false, not, Option, none, some, List, [], ◌∷◌, ◌++◌, ◌&&◌, String, str_eq,
  if◌then◌else◌, ◌==◌, map, replicate, drop,
}
use tckr.Prelude.Int.{ℤ}
use tckr.Text.{Text}
use tckr.Decimal.{to_decimal}
use tckr.Json.{Json, Items, nil, cons, is_record, field, as_string, as_number, as_boolean, as_array}
use tckr.Contracts.{
  Stream, live, delayed, Snapshot, SymbolDefinition, SymbolUniverseResponse, HistoryPoint,
  SymbolHistoryResponse,
}
use tckr.Messages.{◌>>=◌, units}
use tckr.Store.{Store, SymbolDef, prime_universe}

unfoldable pub req_string : String → Json → Option String
req_string key r = as_string (field key r)

unfoldable pub req_number : String → Json → Option ℤ
req_number key r = as_number (field key r)

unfoldable pub req_boolean : String → Json → Option Bool
req_boolean key r = as_boolean (field key r)

abbrev pub stream_of : String → Option Stream
stream_of name =
    if not (str_eq name "LIVE") && not (str_eq name "DELAYED")
    then none
    else if str_eq name "LIVE"
    then some live
    else some delayed

unfoldable pub req_stream : String → Json → Option Stream
unfolding req_string
req_stream key r = req_string key r >>= stream_of

unfoldable pub req_price : String → Json → Option Text
unfolding req_string
req_price key r = req_string key r >>= (λ raw. to_decimal (units raw))

unfoldable pub req_iso : String → Json → Option String
unfolding req_string
req_iso key r = req_string key r

unfoldable pub price_unless_undefined : Option Json → Option (Option Text)
price_unless_undefined none = some none
price_unless_undefined (some v) =
    as_string (some v) >>= (λ raw. to_decimal (units raw)) >>= (λ p. some (some p))

unfoldable pub parse_snapshot_body : Json → Option Snapshot
unfolding req_string req_number req_boolean req_stream req_price req_iso price_unless_undefined
parse_snapshot_body r = if not (is_record r) then none else do
  symbol ← req_string "symbol" r
  stream ← req_stream "stream" r
  price ← req_price "price" r
  change ← req_price "change" r
  change_percent ← req_string "changePercent" r
  open_price ← req_price "open" r
  previous_close ← price_unless_undefined (field "previousClose" r)
  high ← req_price "high" r
  low ← req_price "low" r
  volume ← req_number "volume" r
  last_event_id ← req_string "lastEventId" r
  exchange_timestamp ← req_iso "exchangeTimestamp" r
  snapshot_age ← req_number "snapshotAge" r
  simulated ← req_boolean "simulated" r
  some (record {
    symbol = symbol;
    stream = stream;
    price = price;
    change = change;
    change_percent = change_percent;
    open_price = open_price;
    previous_close = previous_close;
    high = high;
    low = low;
    volume = volume;
    last_event_id = last_event_id;
    exchange_timestamp = exchange_timestamp;
    snapshot_age = snapshot_age;
    simulated = simulated;
  })

-- `raw.map(parse)` where `parse` may throw.
unfoldable pub each_item {ℓ} : {A : Type ℓ} → (Json → Option A) → Items → Option (List A)
each_item parse nil = some []
each_item parse (cons v items) =
    let rest = each_item parse items in parse v >>= (λ a. rest >>= (λ found. some (a ∷ found)))

unfoldable pub parse_symbol_definition : Json → Option SymbolDefinition
unfolding req_string req_number req_price
parse_symbol_definition r = if not (is_record r) then none else do
  symbol ← req_string "symbol" r
  name ← req_string "name" r
  currency ← req_string "currency" r
  tick_size ← req_price "tickSize" r
  lot_size ← req_number "lotSize" r
  reference_price ← req_price "referencePrice" r
  some (record {
    symbol = symbol;
    name = name;
    currency = currency;
    tick_size = tick_size;
    lot_size = lot_size;
    reference_price = reference_price;
  })

unfoldable pub parse_universe_body : Json → Option SymbolUniverseResponse
unfolding req_boolean req_iso each_item parse_symbol_definition
parse_universe_body r = if not (is_record r) then none else do
  raw_symbols ← as_array (field "symbols" r)
  as_of ← req_iso "asOf" r
  simulated ← req_boolean "simulated" r
  symbols ← each_item parse_symbol_definition raw_symbols
  some (record { as_of = as_of; simulated = simulated; symbols = symbols })

unfoldable pub parse_history_point : Json → Option HistoryPoint
unfolding req_price req_iso
parse_history_point r =
    if not (is_record r)
    then none
    else do t ← req_iso "t" r; p ← req_price "p" r; some (record { t = t; p = p })

unfoldable pub parse_history_body : Json → Option SymbolHistoryResponse
unfolding req_string each_item parse_history_point
parse_history_body r = if not (is_record r) then none else do
  raw_points ← as_array (field "points" r)
  symbol ← req_string "symbol" r
  points ← each_item parse_history_point raw_points
  some (record { symbol = symbol; points = points })

-- `text.startsWith(prefix)`
abbrev pub starts_with : Text → Text → Bool
starts_with [] text = true
starts_with (c ∷ prefix) [] = false
starts_with (c ∷ prefix) (d ∷ text) = (c == d) && starts_with prefix text

unfoldable pub http_base : Text → Text
unfolding units
http_base gateway_url =
    if starts_with (units "wss://") gateway_url
    then units "https://" ++ drop 6 gateway_url
    else if starts_with (units "ws://") gateway_url
    then units "http://" ++ drop 5 gateway_url
    else gateway_url

-- An answer to a request: the status tells whether it is `ok`, and the body is read only then.
pub record Response : Type 0 where
  pub is_ok : Bool
  pub body : Option Json

unfoldable pub answered {ℓ} : {A : Type ℓ} → (Json → Option A) → Response → Option A
answered parse response = if response.is_ok then response.body >>= parse else none

-- `getSnapshot`, `getHistory` and `#fetchUniverse`, from their answers.
unfoldable pub snapshot_from : Response → Option Snapshot
unfolding answered
snapshot_from = answered parse_snapshot_body

unfoldable pub history_from : Response → Option SymbolHistoryResponse
unfolding answered
history_from = answered parse_history_body

unfoldable pub universe_from : Response → Option SymbolUniverseResponse
unfolding answered
universe_from = answered parse_universe_body

abbrev pub primed_definition : SymbolDefinition → SymbolDef
primed_definition d = record {
  symbol = d.symbol;
  name = d.name;
  reference_price = d.reference_price;
}

-- `#universeCache`, and how many calls wait for the request that is `#universeInFlight`, 0 where none
-- is, with the store that an answer primes.
pub record Universe : Type 0 where
  pub cache : Option SymbolUniverseResponse
  pub waiting : ℕ
  pub store : Store

pub data UniverseOutput : Type 0 where
  fetch_universe : UniverseOutput
  resolved : SymbolUniverseResponse → UniverseOutput
  rejected : UniverseOutput

abbrev pub resolve_cached :
    Option SymbolUniverseResponse → Universe → Universe × List UniverseOutput
resolve_cached (some universe) u = (u, resolved universe ∷ [])
resolve_cached none u =
    (record u { waiting = u.waiting + 1 }, if u.waiting == 0 then fetch_universe ∷ [] else [])

unfoldable pub get_universe : Universe → Universe × List UniverseOutput
get_universe u = resolve_cached u.cache u

abbrev pub settle : Option SymbolUniverseResponse → Universe → Universe × List UniverseOutput
settle none u = (record u { waiting = 0 }, replicate u.waiting rejected)
settle (some universe) u = (
  record {
    cache = some universe;
    waiting = 0;
    store = prime_universe (map primed_definition universe.symbols) u.store;
  },
  replicate u.waiting (resolved universe),
)

-- The answer to the request that is in flight; there is none to answer where none is.
unfoldable pub universe_answered : Response → Universe → Universe × List UniverseOutput
unfolding universe_from
universe_answered response u = if u.waiting == 0 then (u, []) else settle (universe_from response) u
