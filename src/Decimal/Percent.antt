-- ===== src/Decimal/Percent.antt =====
-- client/Tckr.MarketWatch/src/contracts/decimal.ts: `percentChange` and `percentChangeText`.
-- The `number` that `percentChange` returns is modelled by its exact value in ten-thousandths of a
-- percent, which is what the numeral handed to `JSON.parse` denotes; the rounding of that numeral to
-- the nearest double is not modelled.
pub mod Number
pub mod Numerals
pub mod Rounded
use tckr.Prelude.{
  ℕ, ◌+◌, ◌-◌, ◌*◌, ◌/◌, ◌%◌, ◌^◌, Bool, xor, [], ◌∷◌, ◌++◌, ltb, leb, ◌==◌, if◌then◌else◌, length,
  take, drop, replicate,
}
use tckr.Prelude.Int.{ℤ, pos, is_neg, abs, ◌-ℤ◌, ◌*ℤ◌, ◌/ℤ◌}
use tckr.Text.{Text, to_digits, pad_start}
use tckr.Decimal.{to_scaled_int}

-- `x === 0n`
abbrev pub is_zero : ℤ → Bool
is_zero z = abs z == 0

-- The numeral that `percentChange` hands to `JSON.parse`.
abbrev pub percent_numeral : ℤ → Text
percent_numeral scaled_percent =
    let m = abs scaled_percent in
    let digits = to_digits (m / 10000) ++ b'.' ∷ pad_start 4 (to_digits (m % 10000)) in
    if is_neg scaled_percent then b'-' ∷ digits else digits

unfoldable pub percent_change : Text → Text → ℤ
percent_change from to =
    let from_scaled = to_scaled_int from in
    let diff = to_scaled_int to -ℤ from_scaled in
    let scaled_percent = (diff *ℤ pos 100 *ℤ pos 10000) /ℤ from_scaled in
    if is_zero from_scaled then pos 0 else to_scaled_int (percent_numeral scaled_percent)

-- The quotient of magnitudes, rounded half up.
abbrev pub round_half : ℕ → ℕ → ℕ
round_half n d = if leb d (n % d * 2) then n / d + 1 else n / d

-- `digits` with a point before its last `decimals` digits.
abbrev pub point_at : ℕ → Text → Text
point_at decimals digits =
    let whole = take (length digits - decimals) digits in
    if ltb 0 decimals then whole ++ b'.' ∷ drop (length digits - decimals) digits else whole

abbrev pub zero_text : ℕ → Text
zero_text decimals = if ltb 0 decimals then b'0' ∷ b'.' ∷ replicate decimals b'0' else b'0' ∷ []

-- The rounded magnitude of the change, in units of the last decimal.
abbrev pub percent_units : ℤ → ℤ → ℕ → ℕ
percent_units from_scaled diff decimals =
    round_half (abs (diff *ℤ pos 100 *ℤ pos (10 ^ decimals))) (abs from_scaled)

abbrev pub percent_text : ℤ → ℤ → ℕ → Text
percent_text from_scaled diff decimals =
    let negative = xor (is_neg (diff *ℤ pos 100 *ℤ pos (10 ^ decimals))) (is_neg from_scaled) in
    let units = percent_units from_scaled diff decimals in
    let text = point_at decimals (pad_start (decimals + 1) (to_digits units)) in
    if units == 0 then zero_text decimals else (if negative then b'-' else b'+') ∷ text

unfoldable pub percent_change_text : Text → Text → ℕ → Text
percent_change_text from to decimals =
    let from_scaled = to_scaled_int from in
    let text = percent_text from_scaled (to_scaled_int to -ℤ from_scaled) decimals in
    if is_zero from_scaled then zero_text decimals else text
