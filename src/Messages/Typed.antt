-- ===== src/Messages/Typed.antt =====
-- contracts/messages.ts: the parser that the type of a message selects.
use tckr.Prelude.{
  ◌≡◌, inl, inr, Bool-cases, refl, Option, none, some, String, str_eq, eq_iff, if◌then◌else◌,
}
use mathlib.Core.Path.{subst}
use tckr.Json.{Json, field}
use tckr.Contracts.{ServerMessage}
use tckr.Messages.{
  ◌>>=◌, require_iso, parse_connected, parse_subscribed, parse_unsubscribed, parse_tick,
  snapshot_in, parse_error, parse_entitlement_changed, parse_typed,
}

-- The value of `type` that goes with a message, and the parser of its other fields.
abbrev pub type_name : ServerMessage → String
type_name (ServerMessage.connected m) = "connected"
type_name (ServerMessage.subscribed m) = "subscribed"
type_name (ServerMessage.unsubscribed m) = "unsubscribed"
type_name (ServerMessage.tick m) = "tick"
type_name (ServerMessage.snapshot m) = "snapshot"
type_name (ServerMessage.heartbeat m) = "heartbeat"
type_name (ServerMessage.error m) = "error"
type_name (ServerMessage.entitlement_changed m) = "entitlementChanged"

abbrev pub Parses : Json → ServerMessage → Type 0
Parses r (ServerMessage.connected m) = parse_connected r ≡ some m
Parses r (ServerMessage.subscribed m) = parse_subscribed r ≡ some m
Parses r (ServerMessage.unsubscribed m) = parse_unsubscribed r ≡ some m
Parses r (ServerMessage.tick m) = parse_tick r ≡ some m
Parses r (ServerMessage.snapshot m) = snapshot_in (field "snapshot" r) ≡ some m
Parses r (ServerMessage.heartbeat server_time) = require_iso "serverTime" r ≡ some server_time
Parses r (ServerMessage.error m) = parse_error r ≡ some m
Parses r (ServerMessage.entitlement_changed m) = parse_entitlement_changed r ≡ some m

some_injective : {a b : ServerMessage} → some a ≡ some b → a ≡ b
some_injective h = cc

-- One test of the chain by which the type selects a parser: what holds of the message that its parser
-- makes, and of what the rest of the chain gives, holds of the result.
typed_step :
    (P : ServerMessage → Type 0) {A : Type 0} (type name : String) (parsed : Option A)
    (made : A → ServerMessage) (rest : Option ServerMessage) (m : ServerMessage)
    → ((a : A) → type ≡ name → parsed ≡ some a → P (made a))
    → (rest ≡ some m → P m)
    → (if str_eq type name then (parsed >>= (λ a. some (made a))) else rest) ≡ some m
    → P m
typed_step P type name none made rest m here later h = elim (Bool-cases (str_eq type name)) [
  | inl same ↦ cc (rw same at h)
  | inr other ↦ later (rw other at h)
]
typed_step P type name (some a) made rest m here later h = elim (Bool-cases (str_eq type name)) [
  | inl same ↦ subst P (some_injective (rw same at h)) (here a ((eq_iff type name).0 same) refl)
  | inr other ↦ later (rw other at h)
]

no_message : (P : ServerMessage → Type 0) (m : ServerMessage) → none ≡ some m → P m
no_message P m h = cc

pub typed_there :
    (type : String) (r : Json) (m : ServerMessage)
    → parse_typed type r ≡ some m
    → (type ≡ type_name m) × Parses r m
unfolding parse_typed
typed_there type r m =
    let P : ServerMessage → Type 0 = λ x. (type ≡ type_name x) × Parses r x in
    typed_step P type "connected" (parse_connected r) ServerMessage.connected _ m (λ a e p. (e, p))
      (typed_step P type "subscribed" (parse_subscribed r) ServerMessage.subscribed _ m
        (λ a e p. (e, p))
        (typed_step P type "unsubscribed" (parse_unsubscribed r) ServerMessage.unsubscribed _ m
          (λ a e p. (e, p))
          (typed_step P type "tick" (parse_tick r) ServerMessage.tick _ m (λ a e p. (e, p))
            (typed_step P type "snapshot" (snapshot_in (field "snapshot" r)) ServerMessage.snapshot
              _ m (λ a e p. (e, p))
              (typed_step P type "heartbeat" (require_iso "serverTime" r) ServerMessage.heartbeat _
                m (λ a e p. (e, p))
                (typed_step P type "error" (parse_error r) ServerMessage.error _ m (λ a e p. (e, p))
                  (typed_step P type "entitlementChanged" (parse_entitlement_changed r)
                    ServerMessage.entitlement_changed _ m (λ a e p. (e, p)) (no_message P m))))))))

pub typed_back : (r : Json) (m : ServerMessage) → Parses r m → parse_typed (type_name m) r ≡ some m
unfolding parse_typed
typed_back r (ServerMessage.connected m) h = rw h refl
typed_back r (ServerMessage.subscribed m) h = rw h refl
typed_back r (ServerMessage.unsubscribed m) h = rw h refl
typed_back r (ServerMessage.tick m) h = rw h refl
typed_back r (ServerMessage.snapshot m) h = rw h refl
typed_back r (ServerMessage.heartbeat m) h = rw h refl
typed_back r (ServerMessage.error m) h = rw h refl
typed_back r (ServerMessage.entitlement_changed m) h = rw h refl
