-- ===== src/Decimal.antt =====
-- client/Tckr.MarketWatch/src/contracts/decimal.ts: prices as decimal strings, and exact arithmetic
-- on their values scaled by 10 ^ 4 (`BigInt`, so without bounds). A `DecimalString` is a text that
-- `is_decimal` accepts; as in the source the brand has no content at run time.
pub mod Grammar
pub mod Reading
pub mod Printing
pub mod Exact
pub mod Percent
pub mod Compact
use tckr.Prelude.{
  ℕ, zero, suc, ◌+◌, ◌-◌, ◌*◌, ◌/◌, ◌%◌, ◌^◌, max, Bool, true, false, ◌&&◌, ◌||◌, not, xor, Option,
  none, some, List, [], ◌∷◌, ◌++◌, leb, ltb, ◌==◌, if◌then◌else◌, length, take, drop, replicate,
}
use tckr.Prelude.Int.{ℤ, pos, is_neg, abs, signed, ◌-ℤ◌, ◌*ℤ◌, ◌/ℤ◌, ltb_ℤ}
use tckr.Text.{Text, is_digit, all_digits, of_digits, to_digits, pad_start, pad_end, index_of}

-- `SCALE_DIGITS`
abbrev pub scale_digits : ℕ
scale_digits = 4

-- `(\.\d{1,4})?$`
abbrev pub fraction_ok : Text → Bool
fraction_ok [] = true
fraction_ok (c ∷ s) = c == b'.' && (all_digits s && (leb 1 (length s) && leb (length s) 4))

-- `\d*(\.\d{1,4})?$`: a dot is no digit, so the greedy run of digits never has to give one back.
abbrev pub digits_then_fraction : Text → Bool
digits_then_fraction [] = true
digits_then_fraction (c ∷ s) = if is_digit c then digits_then_fraction s else fraction_ok (c ∷ s)

abbrev pub unsigned_ok : Text → Bool
unsigned_ok [] = false
unsigned_ok (c ∷ s) = is_digit c && digits_then_fraction s

-- `DECIMAL_PATTERN.test(raw)`
unfoldable pub is_decimal : Text → Bool
is_decimal [] = false
is_decimal (c ∷ s) = if c == b'+' || c == b'-' then unsigned_ok s else unsigned_ok (c ∷ s)

-- `none` is the `RangeError`.
unfoldable pub to_decimal : Text → Option Text
to_decimal raw = if is_decimal raw then some raw else none

unfoldable pub decimal_places : Text → ℕ
decimal_places value = elim (index_of b'.' value) [ none ↦ 0 | some dot ↦ length value - dot - 1 ]

-- `value.charAt(0) === c`
abbrev pub starts : ℕ → Text → Bool
starts c [] = false
starts c (x ∷ s) = x == c

abbrev pub int_part : Text → Text
int_part unsigned = elim (index_of b'.' unsigned) [ none ↦ unsigned | some dot ↦ take dot unsigned ]

abbrev pub frac_raw : Text → Text
frac_raw unsigned = elim (index_of b'.' unsigned) [ none ↦ [] | some dot ↦ drop (dot + 1) unsigned ]

abbrev pub magnitude_of : Text → ℕ
magnitude_of unsigned = of_digits 0 (int_part unsigned ++ pad_end scale_digits (frac_raw unsigned))

unfoldable pub to_scaled_int : Text → ℤ
to_scaled_int value =
    let negative = starts b'-' value in
    let has_sign = negative || starts b'+' value in
    let unsigned = if has_sign then drop 1 value else value in
    signed negative (magnitude_of unsigned)

-- The digits of a scaled magnitude, at least one before the last four.
abbrev pub scaled_digits : ℕ → Text
scaled_digits magnitude = pad_start (scale_digits + 1) (to_digits magnitude)

abbrev pub scaled_whole : ℕ → Text
scaled_whole magnitude =
    take (length (scaled_digits magnitude) - scale_digits) (scaled_digits magnitude)

abbrev pub scaled_frac : ℕ → Text
scaled_frac magnitude =
    drop (length (scaled_digits magnitude) - scale_digits) (scaled_digits magnitude)

-- `intPart` alone, or with a dot and `decimals` fractional digits.
abbrev pub scaled_body : ℕ → ℕ → Text
scaled_body magnitude decimals =
    let frac = pad_end decimals (take decimals (scaled_frac magnitude)) in
    if ltb 0 decimals then scaled_whole magnitude ++ b'.' ∷ frac else scaled_whole magnitude

unfoldable pub from_scaled_int : ℤ → ℕ → Text
from_scaled_int scaled decimals =
    let body = scaled_body (abs scaled) decimals in if is_neg scaled then b'-' ∷ body else body

-- `-1 | 0 | 1`
pub data Sign3 : Type 0 where
  less equal greater : Sign3

abbrev pub sign_of : ℤ → Sign3
sign_of diff = if ltb_ℤ diff (pos 0) then less else if ltb_ℤ (pos 0) diff then greater else equal

unfoldable pub compare : Text → Text → Sign3
compare a b = sign_of (to_scaled_int a -ℤ to_scaled_int b)

unfoldable pub subtract : Text → Text → Text
subtract a b =
    from_scaled_int (to_scaled_int a -ℤ to_scaled_int b) (max (decimal_places a) (decimal_places b))

-- `Number.isSafeInteger` fails beyond 2 ^ 53 - 1 on either side; `none` is the `RangeError`.
unfoldable pub multiply_by_quantity : Text → ℤ → Option Text
multiply_by_quantity value quantity =
    if ltb (abs quantity) (2 ^ 53)
    then some (from_scaled_int (to_scaled_int value *ℤ quantity) (decimal_places value))
    else none

-- `format(value, {decimals, sign})`, with `none` where `decimals` is not given.
unfoldable pub format : Text → Option ℕ → Bool → Text
format value opt_decimals sign =
    let decimals : ℕ = elim opt_decimals [ none ↦ decimal_places value | some d ↦ d ] in
    let scaled = to_scaled_int value in
    let body = scaled_body (abs scaled) decimals in
    let is_zero = abs scaled == 0 in
    if is_neg scaled then b'-' ∷ body else if sign && not is_zero then b'+' ∷ body else body
