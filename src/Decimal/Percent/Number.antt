-- ===== src/Decimal/Percent/Number.antt =====
-- The number that `percentChange` of contracts/decimal.ts returns.
use tckr.Prelude.{
  ℕ, zero, suc, ◌*◌, ◌/◌, ◌%◌, ◌<◌, ◌≡◌, refl, ap, sym, ◌∙◌, false, xor, ◌∷◌, ◌≢◌, ◌++◌, arith,
  if◌then◌else◌, length,
}
use tckr.Prelude.Int.{
  ℤ, pos, negsuc, signed, is_neg, abs, ◌-ℤ◌, ◌*ℤ◌, ◌/ℤ◌, abs-signed, signed-abs, is_neg-signed,
}
use tckr.Text.{Text, to_digits, pad_start}
use tckr.Text.Digits.{
  of_digits-to_digits, of_digits-pad_start, to_digits-IsDigits, length-to_digits_pos,
  length-to_digits_le, IsDigits-pad_start, length-pad_start,
}
use tckr.Decimal.{to_scaled_int}
use tckr.Decimal.Printing.{frac_text_of_pos}
use tckr.Decimal.Grammar.{unsigned, minus, Numeral, IsNumeral, body, render, is_minus, magnitude}
use tckr.Decimal.Reading.{to_scaled_int-render}
use tckr.Decimal.Percent.{is_zero, percent_numeral, percent_change}

abbrev json_numeral : ℤ → Numeral
json_numeral z = record {
  sign = if is_neg z then minus else unsigned;
  whole = to_digits (abs z / 10000);
  frac = pad_start 4 (to_digits (abs z % 10000));
}

length-frac4 : (r : ℕ) → r < 10000 → length (pad_start 4 (to_digits r)) ≡ 4
length-frac4 r h =
    omega (arith, length-pad_start 4 (to_digits r), length-to_digits_le r 4 (omega arith) h)

json_numeral-IsNumeral : (z : ℤ) → IsNumeral (json_numeral z)
json_numeral-IsNumeral z = record {
  some_whole = length-to_digits_pos (abs z / 10000);
  whole_digits = to_digits-IsDigits (abs z / 10000);
  frac_digits =
      IsDigits-pad_start 4 (to_digits (abs z % 10000)) (to_digits-IsDigits (abs z % 10000));
  frac_short = omega (arith, length-frac4 (abs z % 10000) (omega arith));
}

magnitude-json_numeral : (z : ℤ) → magnitude (json_numeral z) ≡ abs z
magnitude-json_numeral z =
    rw
      (
        of_digits-to_digits (abs z / 10000),
        length-frac4 (abs z % 10000) (omega arith),
        of_digits-pad_start 4 (to_digits (abs z % 10000)),
        of_digits-to_digits (abs z % 10000),
      )
      (omega arith)

json_body :
    (z : ℤ)
    → to_digits (abs z / 10000) ++ b'.' ∷ pad_start 4 (to_digits (abs z % 10000))
      ≡ body (json_numeral z)
json_body z =
    ap (λ (s : Text). to_digits (abs z / 10000) ++ s)
      (sym (
        frac_text_of_pos (pad_start 4 (to_digits (abs z % 10000)))
          (omega (arith, length-frac4 (abs z % 10000) (omega arith)))))

percent_numeral-render : (z : ℤ) → percent_numeral z ≡ render (json_numeral z)
percent_numeral-render (pos n) = json_body (pos n)
percent_numeral-render (negsuc n) = ap (λ (s : Text). b'-' ∷ s) (json_body (negsuc n))

is_minus-json_numeral : (z : ℤ) → is_minus (json_numeral z).sign ≡ is_neg z
is_minus-json_numeral (pos n) = refl
is_minus-json_numeral (negsuc n) = refl

to_scaled_int-percent_numeral : (z : ℤ) → to_scaled_int (percent_numeral z) ≡ z
to_scaled_int-percent_numeral z = rw (percent_numeral-render z) (
    to_scaled_int-render (json_numeral z) (json_numeral-IsNumeral z)
    ∙ rw (is_minus-json_numeral z, magnitude-json_numeral z) (signed-abs z))

pub is_zero-false : (z : ℤ) → z ≢ pos 0 → is_zero z ≡ false
is_zero-false (pos zero) h = absurd (h refl)
is_zero-false (pos (suc n)) h = ground arith
is_zero-false (negsuc n) h = ground arith

pub abs-mul : (x : ℤ) (k : ℕ) → abs (x *ℤ pos k) ≡ abs x * k
unfolding ◌*ℤ◌
abs-mul x k = abs-signed (xor (is_neg x) false) (abs x * k)

pub is_neg-mul : (x : ℤ) (k : ℕ) → 0 < k → is_neg (x *ℤ pos k) ≡ is_neg x
unfolding ◌*ℤ◌ mathlib.Core.Bool.xor
is_neg-mul (pos n) k h = refl
is_neg-mul (negsuc n) k h = is_neg-signed (suc n * k) (grind arith)

percent_quotient :
    (x y : ℤ)
    → (x *ℤ pos 100 *ℤ pos 10000) /ℤ y
      ≡ signed (xor (is_neg x) (is_neg y)) (abs x * 1000000 / abs y)
unfolding ◌/ℤ◌
percent_quotient x y =
    rw
      (
        is_neg-mul (x *ℤ pos 100) 10000 (omega arith),
        is_neg-mul x 100 (omega arith),
        abs-mul (x *ℤ pos 100) 10000,
        abs-mul x 100,
      )
      (ap (λ (n : ℕ). signed (xor (is_neg x) (is_neg y)) (n / abs y)) (omega arith))

-- From a base other than zero, the numeral that is built denotes the change in ten-thousandths of a
-- percent, truncated towards zero.
pub percent_change-truncates :
    (from to : Text)
    → to_scaled_int from ≢ pos 0
    → percent_change from to
      ≡ signed
          (xor (is_neg (to_scaled_int to -ℤ to_scaled_int from)) (is_neg (to_scaled_int from)))
          (abs (to_scaled_int to -ℤ to_scaled_int from) * 1000000 / abs (to_scaled_int from))
unfolding percent_change
percent_change-truncates from to ne = rw (is_zero-false (to_scaled_int from) ne) (
    to_scaled_int-percent_numeral _
    ∙ percent_quotient (to_scaled_int to -ℤ to_scaled_int from) (to_scaled_int from))
