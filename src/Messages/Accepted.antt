-- ===== src/Messages/Accepted.antt =====
-- What contracts/messages.ts accepts: a message is read exactly from the values that carry its fields.
use tckr.Prelude.{◌≡◌, ◌↔◌, inl, inr, Bool-cases, ap, ◌∙◌, true, some}
use tckr.Json.{Json, string, is_record, field}
use tckr.Contracts.{ServerMessage}
use tckr.Messages.{require_string, parse_typed, parse_server_message}
use tckr.Messages.Readers.{bind_iff, TextAt, require_string_iff, require_iso_iff}
use tckr.Messages.Typed.{type_name, Parses, typed_there, typed_back}
use tckr.Messages.Carried.{
  Carries, snapshot_in_lem, connected_lem, subscribed_lem, unsubscribed_lem, tick_lem, error_lem,
  entitlement_changed_lem,
}

-- The fields of a message are there exactly when its parser returns the message.
carried : (r : Json) (m : ServerMessage) → Parses r m ↔ Carries r m
carried r (ServerMessage.connected m) = connected_lem r m
carried r (ServerMessage.subscribed m) = subscribed_lem r m
carried r (ServerMessage.unsubscribed m) = unsubscribed_lem r m
carried r (ServerMessage.tick m) = tick_lem r m
carried r (ServerMessage.snapshot m) = snapshot_in_lem (field "snapshot" r) m
carried r (ServerMessage.heartbeat server_time) = require_iso_iff "serverTime" r server_time
carried r (ServerMessage.error m) = error_lem r m
carried r (ServerMessage.entitlement_changed m) = entitlement_changed_lem r m

-- A value is read as a message exactly when it is an object with the message's type and with every
-- field of the message, each of its kind: streams, tick kinds and error codes by their names, prices
-- as decimals, lists of strings only, a heartbeat interval of at least a second. Other fields do not
-- count, and a request id that is no string reads as none.
pub parse_server_message_iff :
    (r : Json) (m : ServerMessage)
    → (parse_server_message (some r) ≡ some m)
      ↔ ((is_record r ≡ true) × TextAt "type" r (type_name m) × Carries r m)
unfolding parse_server_message
parse_server_message_iff r m = elim (Bool-cases (is_record r)) [
  | inl found ↦ (
    λ h.
        let (type, read, parsed) =
          (bind_iff (require_string "type" r) (λ t. parse_typed t r) m).0 (rw found at h) in
        let (named, parses) = typed_there type r m parsed in
        (
          found,
          (require_string_iff "type" r type).0 read ∙ ap (λ t. some (string t)) named,
          (carried r m).0 parses,
        ),
    λ (rec, type, carries). rw found (
        (bind_iff (require_string "type" r) (λ t. parse_typed t r) m).1 (
          type_name m,
          (require_string_iff "type" r (type_name m)).1 type,
          typed_back r m ((carried r m).1 carries),
        )),
  )
  | inr other ↦ (λ h. cc (rw other at h), λ (rec, type, carries). cc (other, rec))
]
