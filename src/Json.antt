-- ===== src/Json.antt =====
-- JSON values, as the validators of contracts/messages.ts and data/TckrGatewaySource.ts see them after
-- `JSON.parse`: an object's fields have distinct keys, a number is whole. Reading text into a value is
-- the built-in's work.
use tckr.Prelude.{
  Bool, true, false, Option, none, some, List, [], ◌∷◌, String, str_eq, if◌then◌else◌,
}
use tckr.Prelude.Int.{ℤ}

mutual
  pub data Json : Type 0 where
    null : Json
    boolean : Bool → Json
    number : ℤ → Json
    string : String → Json
    array : Items → Json
    object : Fields → Json

  pub data Items : Type 0 where
    nil : Items
    cons : Json → Items → Items

  pub data Fields : Type 0 where
    end : Fields
    entry : String → Json → Fields → Fields

-- `typeof value === 'object' && value !== null`
abbrev pub is_record : Json → Bool
is_record null = false
is_record (boolean b) = false
is_record (number n) = false
is_record (string s) = false
is_record (array items) = true
is_record (object fields) = true

-- An own property of an object, with `none` for `undefined`.
unfoldable pub get : String → Fields → Option Json
get key end = none
get key (entry k v fields) = if str_eq k key then some v else get key fields

-- `value[key]` for the keys of the contract, none of which an array or a prototype has.
abbrev pub field : String → Json → Option Json
field key null = none
field key (boolean b) = none
field key (number n) = none
field key (string s) = none
field key (array items) = none
field key (object fields) = get key fields

-- `typeof value === …`, and what the value then is.
abbrev pub as_string : Option Json → Option String
as_string none = none
as_string (some null) = none
as_string (some (boolean b)) = none
as_string (some (number n)) = none
as_string (some (string s)) = some s
as_string (some (array items)) = none
as_string (some (object fields)) = none

abbrev pub as_number : Option Json → Option ℤ
as_number none = none
as_number (some null) = none
as_number (some (boolean b)) = none
as_number (some (number n)) = some n
as_number (some (string s)) = none
as_number (some (array items)) = none
as_number (some (object fields)) = none

abbrev pub as_boolean : Option Json → Option Bool
as_boolean none = none
as_boolean (some null) = none
as_boolean (some (boolean b)) = some b
as_boolean (some (number n)) = none
as_boolean (some (string s)) = none
as_boolean (some (array items)) = none
as_boolean (some (object fields)) = none

abbrev pub as_array : Option Json → Option Items
as_array none = none
as_array (some null) = none
as_array (some (boolean b)) = none
as_array (some (number n)) = none
as_array (some (string s)) = none
as_array (some (array items)) = some items
as_array (some (object fields)) = none

abbrev pub cons_if : Option String → Option (List String) → Option (List String)
cons_if none rest = none
cons_if (some s) none = none
cons_if (some s) (some ss) = some (s ∷ ss)

-- `value.every((item) => typeof item === 'string')`, with the strings.
unfoldable pub all_strings : Items → Option (List String)
all_strings nil = some []
all_strings (cons v items) = cons_if (as_string (some v)) (all_strings items)
