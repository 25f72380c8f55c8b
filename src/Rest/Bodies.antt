-- ===== src/Rest/Bodies.antt =====
-- The two validators of a snapshot, in contracts/messages.ts and in data/TckrGatewaySource.ts.
use tckr.Prelude.{◌≡◌, refl, Option, none, some, String, arith}
use tckr.Json.{Json, field, as_string}
use tckr.Messages.{
  ◌>>=◌, parse_snapshot, stream_named, require_string, require_stream, require_price,
  require_number, require_boolean, require_iso, price_if_present,
}
use tckr.Rest.{
  req_string, req_number, req_boolean, req_stream, req_price, req_iso, price_unless_undefined,
  parse_snapshot_body, stream_of,
}

stream_of-stream_named : (name : String) → stream_of name ≡ stream_named name
stream_of-stream_named name = ground arith

req_stream-require_stream : (key : String) (r : Json) → req_stream key r ≡ require_stream key r
unfolding req_stream require_stream req_string require_string
req_stream-require_stream key r = go (as_string (field key r))
  where
    go : (named : Option String) → named >>= stream_of ≡ named >>= stream_named
    go none = refl
    go (some name) = stream_of-stream_named name

price_unless_undefined-price_if_present :
    (v : Option Json) → price_unless_undefined v ≡ price_if_present v
unfolding price_unless_undefined price_if_present
price_unless_undefined-price_if_present none = refl
price_unless_undefined-price_if_present (some v) = refl

-- The validator of REST bodies reads a snapshot exactly as the validator of messages does.
pub parse_snapshot_body-parse_snapshot : (r : Json) → parse_snapshot_body r ≡ parse_snapshot r
unfolding parse_snapshot_body parse_snapshot req_string req_number req_boolean req_price req_iso
    require_string require_number require_boolean require_price require_iso
parse_snapshot_body-parse_snapshot r =
    rw
      (
        req_stream-require_stream "stream" r,
        price_unless_undefined-price_if_present (field "previousClose" r),
      )
      refl
