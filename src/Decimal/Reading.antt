-- ===== src/Decimal/Reading.antt =====
-- The value and the precision that decimal.ts reads from a decimal string, against the grammar.
use native.Mathlib.Numerals.{add-one}
use tckr.Prelude.{
  ℕ, suc, ◌-◌, ◌*◌, ◌^◌, ◌≤◌, ◌<◌, ◌≡◌, refl, ap, ◌∙◌, true, false, [], ◌∷◌, ◌++◌, arith, ◌==◌,
  length, drop, length-append, take-append, none, some, append-nil,
}
use tckr.Prelude.Int.{signed}
use tckr.Text.{Text, of_digits, pad_end, index_of, IsDigits}
use tckr.Text.Digits.{
  index_of-digits, index_of-digits_none, of_digits-append, of_digits-acc, of_digits-pad_end,
  length-pad_end,
}
use tckr.Decimal.{decimal_places, to_scaled_int, starts, int_part, frac_raw, magnitude_of}
use tckr.Decimal.Grammar.{
  Sign, unsigned, plus, minus, Numeral, IsNumeral, sign_text, frac_text, body, render, is_minus,
  magnitude, value,
}

int_part-body : (w f : Text) → IsDigits w → int_part (w ++ frac_text f) ≡ w
int_part-body w [] h = rw append-nil (rw (index_of-digits_none w h, int_part))
int_part-body w (c ∷ f) h = rw (index_of-digits w (c ∷ f) h, int_part) (take-append w _)

drop-suc : (w f : Text) → drop (suc (length w)) (w ++ b'.' ∷ f) ≡ f
drop-suc [] f = refl
drop-suc (c ∷ w) f = drop-suc w f

frac_raw-body : (w f : Text) → IsDigits w → frac_raw (w ++ frac_text f) ≡ f
frac_raw-body w [] h = rw append-nil (rw (index_of-digits_none w h, frac_raw))
frac_raw-body w (c ∷ f) h =
    rw (index_of-digits w (c ∷ f) h, frac_raw) (rw (add-one (length w)) (drop-suc w (c ∷ f)))

scaled_pad :
    (f : Text)
    → length f ≤ 4
    → (of_digits 0 (pad_end 4 f) ≡ of_digits 0 f * 10 ^ (4 - length f)) × (length (pad_end 4 f) ≡ 4)
scaled_pad f h = (of_digits-pad_end 4 f, omega (arith, length-pad_end 4 f))

magnitude_of-body : (n : Numeral) → IsNumeral n → magnitude_of (body n) ≡ magnitude n
magnitude_of-body n h =
    let (scaled, width) = scaled_pad n.frac h.frac_short in
    ap (λ (w : Text). of_digits 0 (w ++ pad_end 4 (frac_raw (body n))))
      (int_part-body n.whole n.frac h.whole_digits)
    ∙ ap (λ (f : Text). of_digits 0 (n.whole ++ pad_end 4 f))
        (frac_raw-body n.whole n.frac h.whole_digits)
    ∙ of_digits-append 0 n.whole (pad_end 4 n.frac)
    ∙ of_digits-acc (of_digits 0 n.whole) (pad_end 4 n.frac)
    ∙ rw (scaled, width) refl

starts-digits :
    (w t : Text)
    → 0 < length w
    → IsDigits w
    → (starts b'-' (w ++ t) ≡ false) × (starts b'+' (w ++ t) ≡ false)
starts-digits [] t p h = elim p [ ]
starts-digits (c ∷ w) t p (q, h) = (ground arith, ground arith)

-- A decimal string reads as the number that it denotes, in ten-thousandths.
pub to_scaled_int-render : (n : Numeral) → IsNumeral n → to_scaled_int (render n) ≡ value n
unfolding to_scaled_int
to_scaled_int-render n h = go n.sign
  where
    m : magnitude_of (body n) ≡ magnitude n
    m = magnitude_of-body n h

    go : (s : Sign) → to_scaled_int (sign_text s ++ body n) ≡ signed (is_minus s) (magnitude n)
    go unsigned =
        let (no_minus, no_plus) =
          starts-digits n.whole (frac_text n.frac) h.some_whole h.whole_digits in
        rw (no_minus, no_plus) (ap (λ k. signed false k) m)
    go plus = ap (λ k. signed false k) m
    go minus = ap (λ k. signed true k) m

places_of : (t : Text) (d : ℕ) → index_of b'.' t ≡ some d → decimal_places t ≡ length t - d - 1
unfolding decimal_places
places_of t d h = rw (h, decimal_places)

places_none : (t : Text) → index_of b'.' t ≡ none → decimal_places t ≡ 0
unfolding decimal_places
places_none t h = rw (h, decimal_places)

places-body : (w f : Text) → IsDigits w → decimal_places (w ++ frac_text f) ≡ length f
places-body w [] h = rw append-nil (places_none w (index_of-digits_none w h))
places-body w (c ∷ f) h =
    places_of _ (length w) (index_of-digits w (c ∷ f) h)
    ∙ omega (arith, length-append {0} w (b'.' ∷ c ∷ f))

places-sign : (x : ℕ) (t : Text) → (x == b'.') ≡ false → decimal_places (x ∷ t) ≡ decimal_places t
unfolding decimal_places index_of
places-sign x t h = ground arith

-- The precision of a decimal string is the length of its fraction.
pub decimal_places-render : (n : Numeral) → IsNumeral n → decimal_places (render n) ≡ length n.frac
decimal_places-render n h = go n.sign
  where
    p : decimal_places (body n) ≡ length n.frac
    p = places-body n.whole n.frac h.whole_digits

    go : (s : Sign) → decimal_places (sign_text s ++ body n) ≡ length n.frac
    go unsigned = p
    go plus = places-sign b'+' (body n) refl ∙ p
    go minus = places-sign b'-' (body n) refl ∙ p
