-- ===== src/Decimal/Percent/Rounded.antt =====
-- The text that `percentChangeText` of contracts/decimal.ts returns, and how far it is rounded.
use native.Mathlib.Nat.{pow-suc, div-add-mod, mod-lt, mul_comm}
use tckr.Prelude.{
  ℕ, zero, suc, ◌+◌, ◌-◌, ◌*◌, ◌/◌, ◌%◌, ◌^◌, ◌≤◌, ◌<◌, ◌≡◌, refl, ap, ◌∙◌, Bool, true, xor, ◌∷◌,
  ◌≢◌, arith, leb, leb→le, leb_false→lt, ◌==◌, if◌then◌else◌, Bool-cases, inl, inr, ==_iff,
}
use tckr.Prelude.Int.{ℤ, pos, signed, is_neg, abs, ◌-ℤ◌, ◌*ℤ◌}
use tckr.Text.{Text, of_digits, to_digits, pad_start, pad_end, index_of}
use tckr.Text.Digits.{length-pad_start}
use tckr.Decimal.{to_scaled_int, is_decimal, decimal_places}
use tckr.Decimal.Grammar.{render, render-is_decimal}
use tckr.Decimal.Reading.{to_scaled_int-render, decimal_places-render}
use tckr.Decimal.Percent.{
  round_half, point_at, zero_text, percent_units, percent_text, percent_change_text,
}
use tckr.Decimal.Percent.Number.{is_zero-false, is_neg-mul, abs-mul}
use tckr.Decimal.Percent.Numerals.{
  digits, text_numeral, text_numeral-IsNumeral, length-frac, magnitude-text_numeral,
  sign_text-negative, is_minus-negative, point_at-frac_text,
}

-- What is printed for a change that does not round to zero.
module _ (negative : Bool) (units decimals : ℕ) (h : decimals ≤ 4) where
  signed_text : Text
  signed_text =
      (if negative then b'-' else b'+')
      ∷ point_at decimals (pad_start (decimals + 1) (to_digits units))

  signed_text-render : signed_text ≡ render (text_numeral negative units decimals h)
  unfolding signed_text digits
  signed_text-render = rw (sign_text-negative negative units decimals h) (
      ap (λ (s : Text). (if negative then b'-' else b'+') ∷ s)
        (point_at-frac_text decimals (pad_start (decimals + 1) (to_digits units))
          (omega (arith, length-pad_start (decimals + 1) (to_digits units)))))

  signed_text-reads :
      (to_scaled_int signed_text ≡ signed negative (units * 10 ^ (4 - decimals)))
      × (is_decimal signed_text ≡ true)
      × (decimal_places signed_text ≡ decimals)
  signed_text-reads =
      let n = text_numeral negative units decimals h in
      let ok = text_numeral-IsNumeral negative units decimals h in
      rw signed_text-render (
        to_scaled_int-render n ok
            ∙ rw
                (
                  is_minus-negative negative units decimals h,
                  magnitude-text_numeral negative units decimals h,
                )
                refl,
        render-is_decimal n ok,
        decimal_places-render n ok ∙ length-frac negative units decimals h,
      )

-- What a text says of a change: its value at a precision, in a decimal string.
abbrev pub Reads : Text → ℤ → ℕ → Type 0
Reads t z decimals = (to_scaled_int t ≡ z) × (is_decimal t ≡ true) × (decimal_places t ≡ decimals)

zero_text-Reads : (decimals : ℕ) → decimals ≤ 4 → Reads (zero_text decimals) (pos 0) decimals
unfolding to_scaled_int is_decimal decimal_places of_digits pad_end index_of
zero_text-Reads zero h = (refl, refl, refl)
zero_text-Reads (suc zero) h = (refl, refl, refl)
zero_text-Reads (suc (suc zero)) h = (refl, refl, refl)
zero_text-Reads (suc (suc (suc zero))) h = (refl, refl, refl)
zero_text-Reads (suc (suc (suc (suc zero)))) h = (refl, refl, refl)
zero_text-Reads (suc (suc (suc (suc (suc d))))) h = absurd (omega arith)

signed-zero : (b : Bool) (u e : ℕ) → u ≡ 0 → signed b (u * e) ≡ pos 0
signed-zero b u e h = rw h (ground arith)

percent_text-Reads :
    (x y : ℤ) (decimals : ℕ)
    → decimals ≤ 4
    → Reads
        (percent_text y x decimals)
        (signed (xor (is_neg x) (is_neg y)) (percent_units y x decimals * 10 ^ (4 - decimals)))
        decimals
unfolding signed_text
percent_text-Reads x y decimals h =
    let units = percent_units y x decimals in
    let negative = xor (is_neg x) (is_neg y) in
    let same : is_neg (x *ℤ pos 100 *ℤ pos (10 ^ decimals)) ≡ is_neg x =
      is_neg-mul (x *ℤ pos 100) (10 ^ decimals) (pow_pos decimals)
      ∙ is_neg-mul x 100 (omega arith) in
    elim (Bool-cases (units == 0)) [
      | inl none_left ↦
          rw
            (
              none_left,
              signed-zero negative units (10 ^ (4 - decimals)) ((==_iff units 0).0 none_left),
            )
            (zero_text-Reads decimals h)
      | inr some_left ↦ rw (some_left, same) (signed_text-reads negative units decimals h)
    ]
  where
    pow_pos : (d : ℕ) → 0 < 10 ^ d
    pow_pos zero = omega arith
    pow_pos (suc d) = rw (pow-suc 10 d) (omega (arith, pow_pos d))

-- From a base other than zero, the text of the change has the decimals asked for (at most four) and
-- denotes the change in percent, rounded to that many decimals on its magnitude.
pub percent_change_text-Reads :
    (from to : Text) (decimals : ℕ)
    → decimals ≤ 4
    → to_scaled_int from ≢ pos 0
    → Reads
        (percent_change_text from to decimals)
        (signed
          (xor (is_neg (to_scaled_int to -ℤ to_scaled_int from)) (is_neg (to_scaled_int from)))
          (percent_units (to_scaled_int from) (to_scaled_int to -ℤ to_scaled_int from) decimals
            * 10 ^ (4 - decimals)))
        decimals
unfolding percent_change_text
percent_change_text-Reads from to decimals h ne =
    rw (is_zero-false (to_scaled_int from) ne)
      (percent_text-Reads (to_scaled_int to -ℤ to_scaled_int from) (to_scaled_int from) decimals h)

round_half-nearest :
    (n d : ℕ)
    → 0 < d
    → (2 * n < 2 * (round_half n d * d) + d) × (2 * (round_half n d * d) ≤ 2 * n + d)
round_half-nearest n d h =
    let e = div-add-mod n d in
    let lt : n % d < d = mod-lt n h in
    elim (Bool-cases (leb d (n % d * 2))) [
      | inl up ↦ let ge = leb→le d (n % d * 2) up in rw up (omega (arith, e, mul_comm d (n / d)))
      | inr down ↦
          let less : n % d * 2 < d = leb_false→lt d (n % d * 2) down in
          rw down (omega (arith, e, mul_comm d (n / d)))
    ]

-- The units that are printed are the nearest to the exact change: of two at the same distance, the
-- one farther from zero.
pub percent_units-nearest :
    (from_scaled diff : ℤ) (decimals : ℕ)
    → 0 < abs from_scaled
    → let exact = abs diff * 100 * 10 ^ decimals in
      let shown = percent_units from_scaled diff decimals * abs from_scaled in
      (2 * exact < 2 * shown + abs from_scaled) × (2 * shown ≤ 2 * exact + abs from_scaled)
percent_units-nearest from_scaled diff decimals h =
    rw (abs-mul (diff *ℤ pos 100) (10 ^ decimals), abs-mul diff 100)
      (round_half-nearest (abs diff * 100 * 10 ^ decimals) (abs from_scaled) h)
