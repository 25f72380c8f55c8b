-- ===== src/Decimal/Printing.antt =====
-- What `from_scaled_int` of decimal.ts prints, against the grammar: reading it back truncates the
-- value to the precision that was asked for, and is exact where no digit is lost.
use tckr.Prelude.{
  ℕ, zero, suc, ◌+◌, ◌-◌, ◌*◌, ◌/◌, ◌^◌, ◌≤◌, ◌<◌, ◌≡◌, refl, ap, sym, ◌∙◌, true, [], ◌∷◌, ◌++◌,
  arith, if◌then◌else◌, length, take, drop, take-append-drop, lt→ltb, length-take, length-drop,
  All-take, All-drop, append-nil,
}
use tckr.Prelude.Int.{ℤ, pos, negsuc, signed, is_neg, abs}
use tckr.Text.{Text, of_digits, to_digits, pad_end, IsDigits}
use tckr.Text.Digits.{
  of_digits-append, of_digits-acc, of_digits-lt, of_digits-to_digits, of_digits-pad_start,
  to_digits-IsDigits, IsDigits-pad_start, length-pad_start,
}
use tckr.Decimal.{
  scaled_digits, scaled_whole, scaled_frac, scaled_body, from_scaled_int, to_scaled_int, is_decimal,
  decimal_places,
}
use tckr.Decimal.Grammar.{
  unsigned, minus, Numeral, IsNumeral, frac_text, body, render, is_minus, magnitude,
  render-is_decimal,
}
use tckr.Decimal.Reading.{to_scaled_int-render, decimal_places-render}

scaled_digits-IsDigits : (m : ℕ) → IsDigits (scaled_digits m)
scaled_digits-IsDigits m = IsDigits-pad_start 5 (to_digits m) (to_digits-IsDigits m)

length-scaled_digits : (m : ℕ) → 5 ≤ length (scaled_digits m)
length-scaled_digits m = omega (arith, length-pad_start 5 (to_digits m))

length-scaled_whole : (m : ℕ) → 0 < length (scaled_whole m)
length-scaled_whole m = omega (
  arith,
  length-scaled_digits m,
  length-take {0} (length (scaled_digits m) - 4) (scaled_digits m),
)

length-scaled_frac : (m : ℕ) → length (scaled_frac m) ≡ 4
length-scaled_frac m = omega (
  arith,
  length-scaled_digits m,
  length-drop {0} (length (scaled_digits m) - 4) (scaled_digits m),
)

scaled_whole-IsDigits : (m : ℕ) → IsDigits (scaled_whole m)
scaled_whole-IsDigits m =
    All-take _ (length (scaled_digits m) - 4) (scaled_digits m) (scaled_digits-IsDigits m)

scaled_frac-IsDigits : (m : ℕ) → IsDigits (scaled_frac m)
scaled_frac-IsDigits m =
    All-drop _ (length (scaled_digits m) - 4) (scaled_digits m) (scaled_digits-IsDigits m)

-- The value of a run of digits that is cut in two.
pub of_digits-cut :
    (s t : Text) → of_digits 0 (s ++ t) ≡ of_digits 0 s * 10 ^ length t + of_digits 0 t
of_digits-cut s t = of_digits-append 0 s t ∙ of_digits-acc (of_digits 0 s) t

scaled_parts : (m : ℕ) → of_digits 0 (scaled_whole m) * 10 ^ 4 + of_digits 0 (scaled_frac m) ≡ m
scaled_parts m =
    rw (ap (λ (k : ℕ). 10 ^ k) (length-scaled_frac m)) at
      (sym (of_digits-cut (scaled_whole m) (scaled_frac m)))
    ∙ ap (λ (t : Text). of_digits 0 t)
        (take-append-drop (length (scaled_digits m) - 4) (scaled_digits m))
    ∙ of_digits-pad_start 5 (to_digits m)
    ∙ of_digits-to_digits m

cut_at :
    (d w f t r : ℕ)
    → d ≤ 4
    → f ≡ t * 10 ^ (4 - d) + r
    → r < 10 ^ (4 - d)
    → w * 10 ^ 4 + t * 10 ^ (4 - d) ≡ (w * 10 ^ 4 + f) / 10 ^ (4 - d) * 10 ^ (4 - d)
cut_at zero w f t r d_le e lt = omega arith
cut_at (suc zero) w f t r d_le e lt = omega arith
cut_at (suc (suc zero)) w f t r d_le e lt = omega arith
cut_at (suc (suc (suc zero))) w f t r d_le e lt = omega arith
cut_at (suc (suc (suc (suc zero)))) w f t r d_le e lt = omega arith
cut_at (suc (suc (suc (suc (suc d))))) w f t r d_le e lt = absurd (omega arith)

-- The numeral that is printed.
abbrev pub printed : ℤ → ℕ → Numeral
printed z d = record {
  sign = if is_neg z then minus else unsigned;
  whole = scaled_whole (abs z);
  frac = take d (scaled_frac (abs z));
}

length-printed : (z : ℤ) (d : ℕ) → d ≤ 4 → length (printed z d).frac ≡ d
length-printed z d h =
    omega (arith, length-take {0} d (scaled_frac (abs z)), length-scaled_frac (abs z))

pub printed-IsNumeral : (z : ℤ) (d : ℕ) → d ≤ 4 → IsNumeral (printed z d)
printed-IsNumeral z d h = record {
  some_whole = length-scaled_whole (abs z);
  whole_digits = scaled_whole-IsDigits (abs z);
  frac_digits = All-take _ d (scaled_frac (abs z)) (scaled_frac-IsDigits (abs z));
  frac_short = omega (arith, length-printed z d h);
}

pub magnitude-printed :
    (z : ℤ) (d : ℕ) → d ≤ 4 → magnitude (printed z d) ≡ abs z / 10 ^ (4 - d) * 10 ^ (4 - d)
magnitude-printed z d h =
    let f = scaled_frac (abs z) in
    let l : length (drop d f) ≡ 4 - d =
      omega (arith, length-drop {0} d f, length-scaled_frac (abs z)) in
    let e : of_digits 0 f ≡ of_digits 0 (take d f) * 10 ^ (4 - d) + of_digits 0 (drop d f) =
      ap (λ (t : Text). of_digits 0 t) (sym (take-append-drop d f))
      ∙ of_digits-cut (take d f) (drop d f)
      ∙ ap (λ (k : ℕ). of_digits 0 (take d f) * 10 ^ k + of_digits 0 (drop d f)) l in
    let lt : of_digits 0 (drop d f) < 10 ^ (4 - d) =
      rw (← l) (of_digits-lt (drop d f) (All-drop _ d f (scaled_frac-IsDigits (abs z)))) in
    ap
      (λ (k : ℕ).
        of_digits 0 (scaled_whole (abs z)) * 10 ^ 4 + of_digits 0 (take d f) * 10 ^ (4 - k))
      (length-printed z d h)
    ∙ cut_at d (of_digits 0 (scaled_whole (abs z))) (of_digits 0 f) (of_digits 0 (take d f))
        (of_digits 0 (drop d f)) h e lt
    ∙ ap (λ (k : ℕ). k / 10 ^ (4 - d) * 10 ^ (4 - d)) (scaled_parts (abs z))

pub frac_text_of_pos : (s : Text) → 0 < length s → frac_text s ≡ b'.' ∷ s
frac_text_of_pos [] h = elim h [ ]
frac_text_of_pos (c ∷ s) h = refl

pad_end-exact : (d : ℕ) (s : Text) → length s ≡ d → pad_end d s ≡ s
unfolding pad_end
pad_end-exact d s e = let none_left : d - length s ≡ 0 = omega arith in rw none_left (append-nil s)

pub scaled_body-printed : (z : ℤ) (d : ℕ) → d ≤ 4 → scaled_body (abs z) d ≡ body (printed z d)
scaled_body-printed z zero h = sym (append-nil (scaled_whole (abs z)))
scaled_body-printed z (suc d) h =
    let l = length-printed z (suc d) h in
    let exact : pad_end (suc d) (take (suc d) (scaled_frac (abs z)))
        ≡ take (suc d) (scaled_frac (abs z)) =
      pad_end-exact (suc d) (take (suc d) (scaled_frac (abs z))) l in
    rw (lt→ltb 0 (suc d) (omega arith)) (
      ap (λ (s : Text). scaled_whole (abs z) ++ s)
        (ap (λ (s : Text). b'.' ∷ s) exact
          ∙ sym (frac_text_of_pos (take (suc d) (scaled_frac (abs z))) (omega (arith, l)))))

from_scaled_int-printed : (z : ℤ) (d : ℕ) → d ≤ 4 → from_scaled_int z d ≡ render (printed z d)
unfolding from_scaled_int
from_scaled_int-printed (pos n) d h = scaled_body-printed (pos n) d h
from_scaled_int-printed (negsuc n) d h =
    ap (λ (s : Text). b'-' ∷ s) (scaled_body-printed (negsuc n) d h)

is_minus-printed : (z : ℤ) (d : ℕ) → is_minus (printed z d).sign ≡ is_neg z
is_minus-printed (pos n) d = refl
is_minus-printed (negsuc n) d = refl

-- What is printed with at most four fractional digits is a decimal string with as many.
pub from_scaled_int-is_decimal :
    (z : ℤ) (d : ℕ)
    → d ≤ 4
    → (is_decimal (from_scaled_int z d) ≡ true) × (decimal_places (from_scaled_int z d) ≡ d)
from_scaled_int-is_decimal z d h = rw (from_scaled_int-printed z d h) (
  render-is_decimal (printed z d) (printed-IsNumeral z d h),
  decimal_places-render (printed z d) (printed-IsNumeral z d h) ∙ length-printed z d h,
)

-- Reading back what was printed at `d` decimals drops the digits beyond them, towards zero.
pub to_scaled_int-from_scaled_int :
    (z : ℤ) (d : ℕ)
    → d ≤ 4
    → to_scaled_int (from_scaled_int z d) ≡ signed (is_neg z) (abs z / 10 ^ (4 - d) * 10 ^ (4 - d))
to_scaled_int-from_scaled_int z d h = rw (from_scaled_int-printed z d h) (
    to_scaled_int-render (printed z d) (printed-IsNumeral z d h)
    ∙ rw (is_minus-printed z d, magnitude-printed z d h) refl)
