-- ===== src/Messages/Outbound.antt =====
-- What contracts/messages.ts lets out: the fields of a serialized client message.
use tckr.Prelude.{
  ◌≡◌, refl, false, Option, none, some, String, str_eq, eq_iff, if◌then◌else◌, arith,
}
use tckr.Json.{Json, string, array, field, get}
use tckr.Contracts.{ClientMessage, request_id_of}
use tckr.Messages.{strings, with_id, serialize_client_message}

abbrev pub kind_of : ClientMessage → String
kind_of (ClientMessage.subscribe symbols id) = "subscribe"
kind_of (ClientMessage.unsubscribe symbols id) = "unsubscribe"
kind_of (ClientMessage.ping id) = "ping"

abbrev pub symbols_field : ClientMessage → Option Json
symbols_field (ClientMessage.subscribe symbols id) = some (array (strings symbols))
symbols_field (ClientMessage.unsubscribe symbols id) = some (array (strings symbols))
symbols_field (ClientMessage.ping id) = none

abbrev pub id_field : Option String → Option Json
id_field none = none
id_field (some id) = some (string id)

get-with_id :
    (key : String) (id : Option String)
    → get key (with_id id) ≡ (if str_eq "requestId" key then id_field id else none)
unfolding get
get-with_id key none = ground arith
get-with_id key (some id) = ground arith

-- A serialized message has its type, its symbols where it has any, its request id where it has one,
-- and no field of any other name: no stream, tier, delay or user id.
pub field-serialize_client_message :
    (message : ClientMessage) (key : String)
    → field key (serialize_client_message message) ≡ (
        if str_eq "type" key
        then some (string (kind_of message))
        else if str_eq "symbols" key
        then symbols_field message
        else if str_eq "requestId" key
        then id_field (request_id_of message)
        else none)
unfolding serialize_client_message get
field-serialize_client_message (ClientMessage.subscribe symbols id) key =
    ground (arith, get-with_id key id)
field-serialize_client_message (ClientMessage.unsubscribe symbols id) key =
    ground (arith, get-with_id key id)
field-serialize_client_message (ClientMessage.ping id) key =
    let differs : str_eq "symbols" "requestId" ≡ false = refl in
    ground (
      arith,
      get-with_id key id,
      eq_iff "symbols" key,
      eq_iff "requestId" key,
      eq_iff "symbols" "requestId",
    )
