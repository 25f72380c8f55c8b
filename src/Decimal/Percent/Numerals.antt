-- ===== src/Decimal/Percent/Numerals.antt =====
-- The digits that `percentChangeText` of contracts/decimal.ts prints, as a numeral.
use tckr.Prelude.{
  ℕ, zero, suc, ◌+◌, ◌-◌, ◌*◌, ◌^◌, ◌≤◌, ◌≡◌, refl, ap, sym, ◌∙◌, Bool, true, false, [], ◌∷◌, ◌++◌,
  arith, if◌then◌else◌, length, take, drop, append-nil, All-take, All-drop, length-take,
  length-drop, take-append-drop, lt→ltb,
}
use tckr.Text.{Text, of_digits, to_digits, pad_start, IsDigits}
use tckr.Text.Digits.{
  of_digits-to_digits, of_digits-pad_start, to_digits-IsDigits, IsDigits-pad_start,
  length-pad_start,
}
use tckr.Decimal.Exact.{pow-cut}
use tckr.Decimal.Printing.{of_digits-cut, frac_text_of_pos}
use tckr.Decimal.Grammar.{
  plus, minus, Numeral, IsNumeral, sign_text, frac_text, is_minus, magnitude,
}
use tckr.Decimal.Percent.{point_at}

module _ (negative : Bool) (units decimals : ℕ) (h : decimals ≤ 4) where
  unfoldable pub digits : Text
  digits = pad_start (decimals + 1) (to_digits units)

  abbrev pub text_numeral : Numeral
  text_numeral = record {
    sign = if negative then minus else plus;
    whole = take (length digits - decimals) digits;
    frac = drop (length digits - decimals) digits;
  }

  length-digits : decimals + 1 ≤ length digits
  unfolding digits
  length-digits = omega (arith, length-pad_start (decimals + 1) (to_digits units))

  digits-IsDigits : IsDigits digits
  unfolding digits
  digits-IsDigits = IsDigits-pad_start (decimals + 1) (to_digits units) (to_digits-IsDigits units)

  of_digits-digits : of_digits 0 digits ≡ units
  unfolding digits
  of_digits-digits =
      of_digits-pad_start (decimals + 1) (to_digits units) ∙ of_digits-to_digits units

  pub length-frac : length text_numeral.frac ≡ decimals
  length-frac = omega (arith, length-digits, length-drop {0} (length digits - decimals) digits)

  pub text_numeral-IsNumeral : IsNumeral text_numeral
  text_numeral-IsNumeral = record {
    some_whole = omega (arith, length-digits, length-take {0} (length digits - decimals) digits);
    whole_digits = All-take _ (length digits - decimals) digits digits-IsDigits;
    frac_digits = All-drop _ (length digits - decimals) digits digits-IsDigits;
    frac_short = omega (arith, length-frac);
  }

  parts : of_digits 0 text_numeral.whole * 10 ^ decimals + of_digits 0 text_numeral.frac ≡ units
  parts =
      ap (λ (k : ℕ). of_digits 0 text_numeral.whole * 10 ^ k + of_digits 0 text_numeral.frac)
        (sym length-frac)
      ∙ sym (of_digits-cut text_numeral.whole text_numeral.frac)
      ∙ ap (λ (t : Text). of_digits 0 t) (take-append-drop (length digits - decimals) digits)
      ∙ of_digits-digits

  pub magnitude-text_numeral : magnitude text_numeral ≡ units * 10 ^ (4 - decimals)
  magnitude-text_numeral =
      rw (length-frac, pow-cut decimals (4 - decimals) 4 (omega arith))
        (omega (arith, ap (λ (k : ℕ). k * 10 ^ (4 - decimals)) parts))

  pub sign_text-negative : sign_text text_numeral.sign ≡ (if negative then b'-' else b'+') ∷ []
  sign_text-negative =
      elim negative
        as (λ b. sign_text (if b then minus else plus) ≡ (if b then b'-' else b'+') ∷ []) [
          | true ↦ refl
          | false ↦ refl
        ]

  pub is_minus-negative : is_minus text_numeral.sign ≡ negative
  is_minus-negative = elim negative as (λ b. is_minus (if b then minus else plus) ≡ b) [
    | true ↦ refl
    | false ↦ refl
  ]

drop-length : (s : Text) → drop (length s) s ≡ []
drop-length [] = refl
drop-length (c ∷ s) = drop-length s

pub point_at-frac_text :
    (decimals : ℕ) (s : Text)
    → decimals ≤ length s
    → point_at decimals s ≡ take (length s - decimals) s ++ frac_text (drop (length s - decimals) s)
point_at-frac_text zero s h =
    let all_of : length s - 0 ≡ length s = omega arith in
    rw (all_of, drop-length s) (sym (append-nil _))
point_at-frac_text (suc d) s h = rw (lt→ltb 0 (suc d) (omega arith)) (
    ap (λ (f : Text). take (length s - suc d) s ++ f)
      (sym (
        frac_text_of_pos (drop (length s - suc d) s)
          (omega (arith, length-drop {0} (length s - suc d) s)))))
