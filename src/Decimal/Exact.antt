-- ===== src/Decimal/Exact.antt =====
-- The arithmetic of decimal.ts is exact: no digit is lost in `subtract`, `multiplyByQuantity`,
-- `compare` and `format`.
use native.Mathlib.Nat.{pow-suc, add-zero, add-suc, mul_assoc}
use tckr.Prelude.{
  ℕ, zero, suc, ◌+◌, ◌-◌, ◌*◌, ◌/◌, ◌^◌, ◌≤◌, ◌<◌, ◌≡◌, ap, sym, ◌∙◌, ◌↔◌, true, arith, length, max,
  some, lt→ltb, xor,
}
use tckr.Prelude.Int.{
  ℤ, pos, negsuc, signed, is_neg, abs, ◌-ℤ◌, ◌*ℤ◌, ◌≤ℤ◌, signed-abs, abs-signed, -ℤ_parts,
  eq_of_parts,
}
use tckr.Text.{Text, of_digits}
use tckr.Decimal.{
  from_scaled_int, to_scaled_int, is_decimal, decimal_places, subtract, compare, sign_of,
  multiply_by_quantity, less, equal, greater,
}
use tckr.Decimal.Grammar.{
  Numeral, IsNumeral, magnitude, is_minus, render, value, is_decimal-Numeral,
}
use tckr.Decimal.Reading.{to_scaled_int-render, decimal_places-render}
use tckr.Decimal.Printing.{from_scaled_int-is_decimal, to_scaled_int-from_scaled_int}

-- `n` is a whole multiple of the value of the last of `d` decimals.
abbrev HasDecimals : ℕ → ℕ → Type 0
HasDecimals d n = (k : ℕ) × (n ≡ k * 10 ^ (4 - d))

pow-add : (a b : ℕ) → 10 ^ (a + b) ≡ 10 ^ a * 10 ^ b
pow-add a zero = rw (add-zero a) (omega arith)
pow-add a (suc b) =
    rw (add-suc a b, pow-suc 10 (a + b), pow-suc 10 b, pow-add a b) (mul_assoc (10 ^ a) (10 ^ b) 10)

pub pow-cut : (c d e : ℕ) → c + d ≡ e → 10 ^ e ≡ 10 ^ c * 10 ^ d
pow-cut c d e h = rw (← h) (pow-add c d)

numeral-HasDecimals : (n : Numeral) → IsNumeral n → HasDecimals (length n.frac) (magnitude n)
numeral-HasDecimals n h =
    let l = length n.frac in
    (
      of_digits 0 n.whole * 10 ^ l + of_digits 0 n.frac,
      rw (pow-cut l (4 - l) 4 (omega (arith, h.frac_short))) (omega arith),
    )

HasDecimals-le : (d e n : ℕ) → d ≤ e → e ≤ 4 → HasDecimals d n → HasDecimals e n
HasDecimals-le d e n h k (i, p) = (
  i * 10 ^ (e - d),
  p
      ∙ rw (pow-cut (e - d) (4 - e) (4 - d) (omega arith))
          (sym (mul_assoc i (10 ^ (e - d)) (10 ^ (4 - e)))),
)

dist_mul : (i j u : ℕ) → (i * u - j * u) + (j * u - i * u) ≡ ((i - j) + (j - i)) * u
dist_mul i j u = grind arith

sub-HasDecimals :
    (a b : ℤ) (d : ℕ) → HasDecimals d (abs a) → HasDecimals d (abs b) → HasDecimals d (abs (a -ℤ b))
unfolding ◌-ℤ◌
sub-HasDecimals (pos m) (pos n) d (i, p) (j, q) =
    ((i - j) + (j - i), ground (arith, dist_mul i j (10 ^ (4 - d))))
sub-HasDecimals (pos m) (negsuc n) d (i, p) (j, q) = (i + j, ground arith)
sub-HasDecimals (negsuc m) (pos n) d (i, p) (j, q) = (i + j, ground arith)
sub-HasDecimals (negsuc m) (negsuc n) d (i, p) (j, q) =
    ((i - j) + (j - i), ground (arith, dist_mul i j (10 ^ (4 - d))))

mul-HasDecimals : (a b : ℤ) (d : ℕ) → HasDecimals d (abs a) → HasDecimals d (abs (a *ℤ b))
unfolding ◌*ℤ◌
mul-HasDecimals a b d (i, p) =
    (i * abs b, abs-signed (xor (is_neg a) (is_neg b)) (abs a * abs b) ∙ rw p (omega arith))

-- A decimal string has at most four decimals, and its value has no more.
pub decimal-HasDecimals :
    (t : Text)
    → is_decimal t ≡ true
    → (decimal_places t ≤ 4) × HasDecimals (decimal_places t) (abs (to_scaled_int t))
decimal-HasDecimals t h =
    let (n, ok, e) = is_decimal-Numeral t h in
    rw
      (
        e,
        to_scaled_int-render n ok,
        decimal_places-render n ok,
        abs-signed (is_minus n.sign) (magnitude n),
      )
      (ok.frac_short, numeral-HasDecimals n ok)

cut-exact : (d k : ℕ) → d ≤ 4 → k * 10 ^ (4 - d) / 10 ^ (4 - d) * 10 ^ (4 - d) ≡ k * 10 ^ (4 - d)
cut-exact zero k h = omega arith
cut-exact (suc zero) k h = omega arith
cut-exact (suc (suc zero)) k h = omega arith
cut-exact (suc (suc (suc zero))) k h = omega arith
cut-exact (suc (suc (suc (suc zero)))) k h = omega arith
cut-exact (suc (suc (suc (suc (suc d))))) k h = absurd (omega arith)

-- A value is printed exactly at a precision that it has.
pub print-exact :
    (z : ℤ) (d : ℕ) → d ≤ 4 → HasDecimals d (abs z) → to_scaled_int (from_scaled_int z d) ≡ z
print-exact z d h (k, e) =
    to_scaled_int-from_scaled_int z d h
    ∙ ap (λ (n : ℕ). signed (is_neg z) (n / 10 ^ (4 - d) * 10 ^ (4 - d))) e
    ∙ ap (λ (n : ℕ). signed (is_neg z) n) (cut-exact d k h ∙ sym e)
    ∙ signed-abs z

diff-HasDecimals :
    (a b : Text)
    → is_decimal a ≡ true
    → is_decimal b ≡ true
    → (max (decimal_places a) (decimal_places b) ≤ 4)
      × HasDecimals
          (max (decimal_places a) (decimal_places b))
          (abs (to_scaled_int a -ℤ to_scaled_int b))
diff-HasDecimals a b ha hb =
    let (la, ea) = decimal-HasDecimals a ha in
    let (lb, eb) = decimal-HasDecimals b hb in
    let d = max (decimal_places a) (decimal_places b) in
    let le : d ≤ 4 = omega arith in
    (
      le,
      sub-HasDecimals (to_scaled_int a) (to_scaled_int b) d
          (HasDecimals-le (decimal_places a) d (abs (to_scaled_int a)) (omega arith) le ea)
          (HasDecimals-le (decimal_places b) d (abs (to_scaled_int b)) (omega arith) le eb),
    )

-- The difference of two decimal strings is a decimal string with as many decimals as the more
-- precise of the two, and its value is exactly the difference of their values.
pub subtract-exact :
    (a b : Text)
    → is_decimal a ≡ true
    → is_decimal b ≡ true
    → (to_scaled_int (subtract a b) ≡ to_scaled_int a -ℤ to_scaled_int b)
      × (is_decimal (subtract a b) ≡ true)
      × (decimal_places (subtract a b) ≡ max (decimal_places a) (decimal_places b))
unfolding subtract
subtract-exact a b ha hb =
    let (le, e) = diff-HasDecimals a b ha hb in
    let diff = to_scaled_int a -ℤ to_scaled_int b in
    let d = max (decimal_places a) (decimal_places b) in
    let (valid, places) = from_scaled_int-is_decimal diff d le in
    (print-exact diff d le e, valid, places)

-- The product with a quantity that is a safe integer is a decimal string with the decimals of the
-- price, and its value is exactly the product.
pub multiply_by_quantity-exact :
    (a : Text) (q : ℤ)
    → is_decimal a ≡ true
    → abs q < 2 ^ 53
    → (t : Text) × (multiply_by_quantity a q ≡ some t)
      × (is_decimal t ≡ true)
      × (decimal_places t ≡ decimal_places a)
      × (to_scaled_int t ≡ to_scaled_int a *ℤ q)
unfolding multiply_by_quantity
multiply_by_quantity-exact a q ha lt =
    let (le, e) = decimal-HasDecimals a ha in
    let product = to_scaled_int a *ℤ q in
    let (valid, places) = from_scaled_int-is_decimal product (decimal_places a) le in
    (
      from_scaled_int product (decimal_places a),
      rw (lt→ltb (abs q) (2 ^ 53) lt),
      valid,
      places,
      print-exact product (decimal_places a) le
          (mul-HasDecimals (to_scaled_int a) q (decimal_places a) e),
    )

sign_of-less : (x y : ℤ) → (sign_of (x -ℤ y) ≡ less) ↔ ¬ (y ≤ℤ x)
sign_of-less x y = (λ e. ground (arith, -ℤ_parts x y), λ h. ground (arith, -ℤ_parts x y))

sign_of-greater : (x y : ℤ) → (sign_of (x -ℤ y) ≡ greater) ↔ ¬ (x ≤ℤ y)
sign_of-greater x y = (λ e. ground (arith, -ℤ_parts x y), λ h. ground (arith, -ℤ_parts x y))

sign_of-equal : (x y : ℤ) → (sign_of (x -ℤ y) ≡ equal) ↔ (x ≡ y)
sign_of-equal x y =
    (λ e. eq_of_parts x y (ground (arith, -ℤ_parts x y)), λ e. rw e (ground (arith, -ℤ_parts y y)))

-- `compare` orders decimal strings, each a sign, a whole part and at most four decimals, by the numbers
-- that they are in ten-thousandths, whatever their signs, leading and trailing zeros.
pub compare-order :
    (m n : Numeral)
    → IsNumeral m
    → IsNumeral n
    → ((compare (render m) (render n) ≡ less) ↔ ¬ (value n ≤ℤ value m))
      × ((compare (render m) (render n) ≡ equal) ↔ (value m ≡ value n))
      × ((compare (render m) (render n) ≡ greater) ↔ ¬ (value m ≤ℤ value n))
unfolding compare
compare-order m n hm hn =
    rw (to_scaled_int-render m hm, to_scaled_int-render n hn)
      (
        sign_of-less (value m) (value n),
        sign_of-equal (value m) (value n),
        sign_of-greater (value m) (value n),
      )
