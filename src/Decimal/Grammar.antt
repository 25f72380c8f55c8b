-- ===== src/Decimal/Grammar.antt =====
-- What decimal.ts accepts: the regular expression as a grammar, and the value that
-- `to_scaled_int` reads from a sentence of the grammar.
use tckr.Prelude.{
  ℕ, ◌+◌, ◌-◌, ◌*◌, ◌^◌, ◌≤◌, ◌<◌, ◌≡◌, refl, ap, Bool, true, false, [], ◌∷◌, ◌++◌, arith, ◌==◌,
  length, Bool-cases, inl, inr, and_split, leb→le, ==_iff,
}
use tckr.Prelude.Int.{ℤ, signed}
use tckr.Text.{Text, is_digit, all_digits, of_digits, IsDigits}
use tckr.Text.Digits.{IsDigits-chars}
use tckr.Decimal.{fraction_ok, digits_then_fraction, unsigned_ok, is_decimal}

pub data Sign : Type 0 where
  unsigned plus minus : Sign

pub record Numeral : Type 0 where
  pub sign : Sign
  pub whole : Text
  pub frac : Text

abbrev pub sign_text : Sign → Text
sign_text unsigned = []
sign_text plus = b'+' ∷ []
sign_text minus = b'-' ∷ []

abbrev pub frac_text : Text → Text
frac_text [] = []
frac_text (c ∷ s) = b'.' ∷ c ∷ s

abbrev pub body : Numeral → Text
body n = n.whole ++ frac_text n.frac

abbrev pub render : Numeral → Text
render n = sign_text n.sign ++ body n

-- At least one digit before the dot and at most four behind it.
pub record IsNumeral (n : Numeral) : Type 0 where
  pub some_whole : 0 < length n.whole
  pub whole_digits : IsDigits n.whole
  pub frac_digits : IsDigits n.frac
  pub frac_short : length n.frac ≤ 4

abbrev pub is_minus : Sign → Bool
is_minus minus = true
is_minus _ = false

-- The value in ten-thousandths.
abbrev pub magnitude : Numeral → ℕ
magnitude n = of_digits 0 n.whole * 10 ^ 4 + of_digits 0 n.frac * 10 ^ (4 - length n.frac)

abbrev pub value : Numeral → ℤ
value n = signed (is_minus n.sign) (magnitude n)

-- Completeness of the pattern.
fraction_ok-frac_text : (s : Text) → IsDigits s → length s ≤ 4 → fraction_ok (frac_text s) ≡ true
fraction_ok-frac_text [] h k = refl
fraction_ok-frac_text (c ∷ s) (p, h) k = ground (arith, IsDigits-chars s h)

digits_then_fraction-append :
    (w s : Text)
    → IsDigits w
    → fraction_ok (frac_text s) ≡ true
    → digits_then_fraction (w ++ frac_text s) ≡ true
digits_then_fraction-append [] [] h k = refl
digits_then_fraction-append [] (c ∷ s) h k = k
digits_then_fraction-append (d ∷ w) s (p, h) k = rw p (digits_then_fraction-append w s h k)

unsigned_ok-body : (n : Numeral) → IsNumeral n → unsigned_ok (body n) ≡ true
unsigned_ok-body n h = go n.whole h.some_whole h.whole_digits
  where
    go : (w : Text) → 0 < length w → IsDigits w → unsigned_ok (w ++ frac_text n.frac) ≡ true
    go [] p q = elim p [ ]
    go (d ∷ w) p (q, r) = rw q (
        digits_then_fraction-append w n.frac r
          (fraction_ok-frac_text n.frac h.frac_digits h.frac_short))

unsigned-is_decimal : (t : Text) → unsigned_ok t ≡ true → is_decimal t ≡ true
unfolding is_decimal
unsigned-is_decimal [] h = cc
unsigned-is_decimal (c ∷ s) h = ground arith

pub render-is_decimal : (n : Numeral) → IsNumeral n → is_decimal (render n) ≡ true
render-is_decimal n h = go n.sign
  where
    go : (s : Sign) → is_decimal (sign_text s ++ body n) ≡ true
    go unsigned = unsigned-is_decimal (body n) (unsigned_ok-body n h)
    go plus = unfold is_decimal in unsigned_ok-body n h
    go minus = unfold is_decimal in unsigned_ok-body n h

-- Soundness.
all_digits-IsDigits : (s : Text) → all_digits s ≡ true → IsDigits s
all_digits-IsDigits [] h = tt
all_digits-IsDigits (c ∷ s) h = let (p, q) = and_split _ _ h in (p, all_digits-IsDigits s q)

record Split (t : Text) : Type 0 where
  whole : Text
  frac : Text
  whole_digits : IsDigits whole
  frac_digits : IsDigits frac
  frac_short : length frac ≤ 4
  split : t ≡ whole ++ frac_text frac

fraction-Split : (t : Text) → fraction_ok t ≡ true → Split t
fraction-Split [] h = record {
  whole = [];
  frac = [];
  whole_digits = tt;
  frac_digits = tt;
  frac_short = omega arith;
  split = refl;
}
fraction-Split (c ∷ []) h = absurd (ground arith)
fraction-Split (c ∷ d ∷ s) h =
    let (dot, rest) = and_split _ _ h in
    let (digits, lengths) = and_split _ _ rest in
    let (some_frac, short) = and_split _ _ lengths in
    record {
      whole = [];
      frac = d ∷ s;
      whole_digits = tt;
      frac_digits = all_digits-IsDigits (d ∷ s) digits;
      frac_short = leb→le _ _ short;
      split = ap (λ x. x ∷ d ∷ s) ((==_iff c b'.').0 dot);
    }

digits-Split : (t : Text) → digits_then_fraction t ≡ true → Split t
digits-Split [] h = fraction-Split [] refl
digits-Split (c ∷ s) h = elim (Bool-cases (is_digit c)) [
  | inl digit ↦
      let r = digits-Split s (rw digit at h) in
      record {
        whole = c ∷ r.whole;
        frac = r.frac;
        whole_digits = (digit, r.whole_digits);
        frac_digits = r.frac_digits;
        frac_short = r.frac_short;
        split = ap (λ x. c ∷ x) r.split;
      }
  | inr other ↦ fraction-Split (c ∷ s) (rw other at h)
]

unsigned-Numeral :
    (s : Sign) (t : Text)
    → unsigned_ok t ≡ true
    → (n : Numeral) × IsNumeral n × (sign_text s ++ t ≡ render n)
unsigned-Numeral s [] h = cc
unsigned-Numeral s (c ∷ t) h =
    let (digit, rest) = and_split _ _ h in
    let r = digits-Split t rest in
    (
      record { sign = s; whole = c ∷ r.whole; frac = r.frac },
      record {
        some_whole = omega arith;
        whole_digits = (digit, r.whole_digits);
        frac_digits = r.frac_digits;
        frac_short = r.frac_short;
      },
      ap (λ x. sign_text s ++ c ∷ x) r.split,
    )

pub is_decimal-Numeral :
    (t : Text) → is_decimal t ≡ true → (n : Numeral) × IsNumeral n × (t ≡ render n)
unfolding is_decimal
is_decimal-Numeral [] h = cc
is_decimal-Numeral (c ∷ s) h = elim (Bool-cases (c == b'+')) [
  | inl p ↦ rw ((==_iff c b'+').0 p) (unsigned-Numeral plus s (rw p at h))
  | inr not_plus ↦ elim (Bool-cases (c == b'-')) [
    | inl m ↦ rw ((==_iff c b'-').0 m) (unsigned-Numeral minus s (rw (not_plus, m) at h))
    | inr not_minus ↦ unsigned-Numeral unsigned (c ∷ s) (rw (not_plus, not_minus) at h)
  ]
]
