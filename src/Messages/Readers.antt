-- ===== src/Messages/Readers.antt =====
-- What each reader of a field in contracts/messages.ts accepts.
use tckr.Prelude.{
  ◌≡◌, ◌↔◌, refl, ap, ◌∙◌, Bool, true, Option, none, some, List, [], ◌∷◌, String, eq_iff, arith,
}
use tckr.Prelude.Int.{ℤ}
use tckr.Text.{Text}
use tckr.Decimal.{is_decimal, to_decimal}
use tckr.Json.{
  Json, boolean, number, string, array, Items, nil, cons, field, as_string, as_number, as_boolean,
  as_array, all_strings,
}
use tckr.Contracts.{
  Stream, live, delayed, TickKind, trade, bid, ask, ErrorCode, unknown_symbol, subscription_limit,
  not_entitled, rate_limited, internal,
}
use tckr.Messages.{
  ◌>>=◌, units, require_string, require_number, require_boolean, require_string_array, stream_named,
  require_stream, kind_named, require_tick_kind, code_named, require_error_code, price_of,
  require_price, require_iso, price_if_present, strings,
}

-- What a string's value is read as, in both directions.
as_string_iff : (o : Option Json) (s : String) → (as_string o ≡ some s) ↔ (o ≡ some (string s))
as_string_iff o s = ground arith

as_number_iff : (o : Option Json) (n : ℤ) → (as_number o ≡ some n) ↔ (o ≡ some (number n))
as_number_iff o n = ground arith

as_boolean_iff : (o : Option Json) (b : Bool) → (as_boolean o ≡ some b) ↔ (o ≡ some (boolean b))
as_boolean_iff o b = ground arith

as_array_iff :
    (o : Option Json) (items : Items) → (as_array o ≡ some items) ↔ (o ≡ some (array items))
as_array_iff o items = ground arith

all_strings_iff :
    (items : Items) (ss : List String) → (all_strings items ≡ some ss) ↔ (items ≡ strings ss)
unfolding all_strings strings
all_strings_iff nil [] = ground arith
all_strings_iff nil (s ∷ ss) = ground arith
all_strings_iff (cons v items) [] = ground arith
all_strings_iff (cons v items) (s ∷ ss) = ground (arith, all_strings_iff items ss)

abbrev pub stream_name : Stream → String
stream_name live = "LIVE"
stream_name delayed = "DELAYED"

stream_named_iff :
    (name : String) (st : Stream) → (stream_named name ≡ some st) ↔ (name ≡ stream_name st)
stream_named_iff name st = (there name st, λ e. rw e (back st))
  where
    there : (name : String) (st : Stream) → stream_named name ≡ some st → name ≡ stream_name st
    there name live h = ground (arith, eq_iff name "LIVE")
    there name delayed h = ground (arith, eq_iff name "DELAYED")

    back : (st : Stream) → stream_named (stream_name st) ≡ some st
    back live = refl
    back delayed = refl

abbrev pub kind_name : TickKind → String
kind_name trade = "TRADE"
kind_name bid = "BID"
kind_name ask = "ASK"

kind_named_iff : (name : String) (k : TickKind) → (kind_named name ≡ some k) ↔ (name ≡ kind_name k)
kind_named_iff name k = (there name k, λ e. rw e (back k))
  where
    there : (name : String) (k : TickKind) → kind_named name ≡ some k → name ≡ kind_name k
    there name trade h = ground (arith, eq_iff name "TRADE")
    there name bid h = ground (arith, eq_iff name "BID")
    there name ask h = ground (arith, eq_iff name "ASK")

    back : (k : TickKind) → kind_named (kind_name k) ≡ some k
    back trade = refl
    back bid = refl
    back ask = refl

abbrev pub code_name : ErrorCode → String
code_name unknown_symbol = "UNKNOWN_SYMBOL"
code_name subscription_limit = "SUBSCRIPTION_LIMIT"
code_name not_entitled = "NOT_ENTITLED"
code_name rate_limited = "RATE_LIMITED"
code_name internal = "INTERNAL"

code_named_iff : (name : String) (c : ErrorCode) → (code_named name ≡ some c) ↔ (name ≡ code_name c)
code_named_iff name c = (there name c, λ e. rw e (back c))
  where
    there : (name : String) (c : ErrorCode) → code_named name ≡ some c → name ≡ code_name c
    there name unknown_symbol h = ground (arith, eq_iff name "UNKNOWN_SYMBOL")
    there name subscription_limit h = ground (arith, eq_iff name "SUBSCRIPTION_LIMIT")
    there name not_entitled h = ground (arith, eq_iff name "NOT_ENTITLED")
    there name rate_limited h = ground (arith, eq_iff name "RATE_LIMITED")
    there name internal h = ground (arith, eq_iff name "INTERNAL")

    back : (c : ErrorCode) → code_named (code_name c) ≡ some c
    back unknown_symbol = refl
    back subscription_limit = refl
    back not_entitled = refl
    back rate_limited = refl
    back internal = refl

-- The field `key` is this string, this number, and so on.
abbrev pub TextAt : String → Json → String → Type 0
TextAt key r s = field key r ≡ some (string s)

abbrev pub NumberAt : String → Json → ℤ → Type 0
NumberAt key r n = field key r ≡ some (number n)

abbrev pub TruthAt : String → Json → Bool → Type 0
TruthAt key r b = field key r ≡ some (boolean b)

abbrev pub ListAt : String → Json → List String → Type 0
ListAt key r ss = field key r ≡ some (array (strings ss))

-- The field is a string whose code units are the price, a decimal.
abbrev pub PriceAt : String → Json → Text → Type 0
PriceAt key r p = (raw : String) × TextAt key r raw × (units raw ≡ p) × (is_decimal p ≡ true)

abbrev pub PriceIfAt : String → Json → Option Text → Type 0
PriceIfAt key r none = field key r ≡ none
PriceIfAt key r (some p) = PriceAt key r p

-- The field is this string, or, for none, it is no string.
abbrev pub IdAt : String → Json → Option String → Type 0
IdAt key r id = as_string (field key r) ≡ id

pub bind_iff :
    {A B : Type 0} (m : Option A) (f : A → Option B) (b : B)
    → ((m >>= f) ≡ some b) ↔ ((a : A) × (m ≡ some a) × (f a ≡ some b))
bind_iff none f b = (λ h. cc, λ h. cc)
bind_iff (some a) f b = (λ h. (a, refl, h), λ (c, e, h). cc)

pub require_string_iff :
    (key : String) (r : Json) (s : String) → (require_string key r ≡ some s) ↔ TextAt key r s
unfolding require_string
require_string_iff key r s = as_string_iff (field key r) s

pub require_iso_iff :
    (key : String) (r : Json) (s : String) → (require_iso key r ≡ some s) ↔ TextAt key r s
unfolding require_iso
require_iso_iff key r s = require_string_iff key r s

pub require_number_iff :
    (key : String) (r : Json) (n : ℤ) → (require_number key r ≡ some n) ↔ NumberAt key r n
unfolding require_number
require_number_iff key r n = as_number_iff (field key r) n

pub require_boolean_iff :
    (key : String) (r : Json) (b : Bool) → (require_boolean key r ≡ some b) ↔ TruthAt key r b
unfolding require_boolean
require_boolean_iff key r b = as_boolean_iff (field key r) b

-- A string with a meaning, read through `named` and written as `name`.
module _ {A : Type 0} (named : String → Option A) (name : A → String)
    (agree : (s : String) (a : A) → (named s ≡ some a) ↔ (s ≡ name a)) where
  named_field :
      (key : String) (r : Json) (a : A)
      → ((require_string key r >>= named) ≡ some a) ↔ TextAt key r (name a)
  named_field key r a = (
    λ h.
        let (s, e, p) = (bind_iff (require_string key r) named a).0 h in
        (require_string_iff key r s).0 e ∙ ap (λ x. some (string x)) ((agree s a).0 p),
    λ h.
        (bind_iff (require_string key r) named a).1
          (name a, (require_string_iff key r (name a)).1 h, (agree (name a) a).1 refl),
  )

pub require_stream_iff :
    (key : String) (r : Json) (st : Stream)
    → (require_stream key r ≡ some st) ↔ TextAt key r (stream_name st)
unfolding require_stream
require_stream_iff = named_field stream_named stream_name stream_named_iff

pub require_tick_kind_iff :
    (key : String) (r : Json) (k : TickKind)
    → (require_tick_kind key r ≡ some k) ↔ TextAt key r (kind_name k)
unfolding require_tick_kind
require_tick_kind_iff = named_field kind_named kind_name kind_named_iff

pub require_error_code_iff :
    (key : String) (r : Json) (c : ErrorCode)
    → (require_error_code key r ≡ some c) ↔ TextAt key r (code_name c)
unfolding require_error_code
require_error_code_iff = named_field code_named code_name code_named_iff

pub require_string_array_iff :
    (key : String) (r : Json) (ss : List String)
    → (require_string_array key r ≡ some ss) ↔ ListAt key r ss
unfolding require_string_array
require_string_array_iff key r ss = (
  λ h.
      let (items, e, p) = (bind_iff (as_array (field key r)) all_strings ss).0 h in
      (as_array_iff (field key r) items).0 e
      ∙ ap (λ x. some (array x)) ((all_strings_iff items ss).0 p),
  λ h. (bind_iff (as_array (field key r)) all_strings ss).1 (
    strings ss,
    (as_array_iff (field key r) (strings ss)).1 h,
    (all_strings_iff (strings ss) ss).1 refl,
  ),
)

price_of_iff :
    (raw : String) (p : Text) → (price_of raw ≡ some p) ↔ ((units raw ≡ p) × (is_decimal p ≡ true))
unfolding to_decimal
price_of_iff raw p = ground arith

pub require_price_iff :
    (key : String) (r : Json) (p : Text) → (require_price key r ≡ some p) ↔ PriceAt key r p
unfolding require_price
require_price_iff key r p = (
  λ h.
      let (raw, e, q) = (bind_iff (require_string key r) price_of p).0 h in
      let (written, valid) = (price_of_iff raw p).0 q in
      (raw, (require_string_iff key r raw).0 e, written, valid),
  λ (raw, e, written, valid).
      (bind_iff (require_string key r) price_of p).1
        (raw, (require_string_iff key r raw).1 e, (price_of_iff raw p).1 (written, valid)),
)

price_if_present_iff :
    (o : Option Json) (p : Text)
    → (price_if_present o ≡ some (some p)) ↔ ((as_string o >>= price_of) ≡ some p)
unfolding price_if_present
price_if_present_iff none p = ground arith
price_if_present_iff (some v) p = ground arith

price_absent_iff : (o : Option Json) → (price_if_present o ≡ some none) ↔ (o ≡ none)
unfolding price_if_present
price_absent_iff none = ground arith
price_absent_iff (some v) = ground arith

pub previous_close_iff :
    (key : String) (r : Json) (o : Option Text)
    → (price_if_present (field key r) ≡ some o) ↔ PriceIfAt key r o
unfolding require_price require_string
previous_close_iff key r none = price_absent_iff (field key r)
previous_close_iff key r (some p) = (
  λ h. (require_price_iff key r p).0 ((price_if_present_iff (field key r) p).0 h),
  λ h. (price_if_present_iff (field key r) p).1 ((require_price_iff key r p).1 h),
)
