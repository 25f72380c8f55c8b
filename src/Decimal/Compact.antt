-- ===== src/Decimal/Compact.antt =====
-- contracts/decimal.ts: `formatCompact`, a magnitude in thousands, millions or billions.
use tckr.Prelude.{
  ℕ, ◌+◌, ◌*◌, ◌/◌, ◌%◌, ◌≤◌, ◌<◌, ◌≡◌, refl, Bool, true, false, not, ◌&&◌, Option, none, some,
  List, [], ◌∷◌, ◌++◌, leb, ◌==◌, if◌then◌else◌, ◌⊎◌, inl, inr, Bool-cases, leb→le, leb_false→lt,
  arith,
}
use tckr.Prelude.Int.{is_neg, abs}
use tckr.Text.{Text, to_digits, pad_start}
use tckr.Decimal.{to_scaled_int}

-- `COMPACT_UNITS`, a suffix as its code unit.
abbrev pub compact_units : List (ℕ × ℕ)
compact_units = (1000000000, b'B') ∷ (1000000, b'M') ∷ (1000, b'K') ∷ []

-- `one`
abbrev pub scaled_one : ℕ
scaled_one = 10000

-- Hundredths of a unit, rounded half away from zero.
abbrev pub hundredths : ℕ → ℕ → ℕ
hundredths magnitude unit =
    let divisor = unit * scaled_one in (magnitude * 100 + divisor / 2) / divisor

-- The first unit that the value comes to, with its suffix and the hundredths of it.
abbrev pub compact_unit : ℕ → List (ℕ × ℕ) → Option (ℕ × ℕ × ℕ)
compact_unit magnitude [] = none
compact_unit magnitude ((unit, suffix) ∷ units) =
    if leb 100 (hundredths magnitude unit)
    then some (unit, suffix, hundredths magnitude unit)
    else compact_unit magnitude units

abbrev pub is_nothing : Text → Bool
is_nothing [] = true
is_nothing (c ∷ s) = false

-- `text.replace(/0+$/, '')`
unfoldable pub strip_zeros : Text → Text
strip_zeros [] = []
strip_zeros (c ∷ s) =
    let rest = strip_zeros s in if is_nothing rest && c == b'0' then [] else c ∷ rest

unfoldable pub compact_frac : Bool → ℕ → Text
unfolding strip_zeros
compact_frac fixed_fraction count =
    let padded = pad_start 2 (to_digits (count % 100)) in
    if fixed_fraction then padded else strip_zeros padded

abbrev pub whole_units : ℕ → ℕ
whole_units magnitude = (magnitude + scaled_one / 2) / scaled_one

abbrev pub compact_body : Bool → ℕ → Option (ℕ × ℕ × ℕ) → Text
compact_body fixed_fraction magnitude none = to_digits (whole_units magnitude)
compact_body fixed_fraction magnitude (some (unit, suffix, count)) =
    let frac = compact_frac fixed_fraction count in
    to_digits (count / 100) ++ ((if is_nothing frac then [] else b'.' ∷ frac) ++ (suffix ∷ []))

abbrev pub is_zero_text : Text → Bool
is_zero_text [] = false
is_zero_text (c ∷ []) = c == b'0'
is_zero_text (c ∷ d ∷ s) = false

unfoldable pub format_compact : Text → Bool → Text
unfolding compact_frac
format_compact value fixed_fraction =
    let scaled = to_scaled_int value in
    let body = compact_body fixed_fraction (abs scaled) (compact_unit (abs scaled) compact_units) in
    if is_neg scaled && not (is_zero_text body) then b'-' ∷ body else body

-- A figure of at least one and, but for the last unit, below a thousand, at most half of a hundredth
-- from the value; without a unit, a whole number below a thousand.
abbrev pub IsCompact : ℕ → Option (ℕ × ℕ × ℕ) → Type 0
IsCompact magnitude none = whole_units magnitude < 1000
IsCompact magnitude (some (unit, suffix, count)) =
    (100 ≤ count)
    × ((unit ≡ 1000000000) ⊎ (count < 100000))
    × (count * (unit * scaled_one) ≤ magnitude * 100 + unit * 5000)
    × (magnitude * 100 + unit * 5000 < count * (unit * scaled_one) + unit * scaled_one)

-- The figure that formatCompact shows of any magnitude, in ten-thousandths, is at least one unit and,
-- but for billions, below a thousand of them, and within half of a hundredth of a unit of the value;
-- where it shows no unit, the whole number is below a thousand.
pub compact_unit-IsCompact :
    (magnitude : ℕ) → IsCompact magnitude (compact_unit magnitude compact_units)
compact_unit-IsCompact magnitude = elim (Bool-cases (leb 100 (hundredths magnitude 1000000000))) [
  | inl b ↦
      let le = leb→le 100 (hundredths magnitude 1000000000) b in
      rw b (omega (le, arith), inl refl, omega arith, omega arith)
  | inr b ↦
      let lb = leb_false→lt 100 (hundredths magnitude 1000000000) b in
      elim (Bool-cases (leb 100 (hundredths magnitude 1000000))) [
        | inl m ↦
            let le = leb→le 100 (hundredths magnitude 1000000) m in
            rw (b, m) (omega (le, arith), inr (omega (lb, arith)), omega arith, omega arith)
        | inr m ↦
            let lm = leb_false→lt 100 (hundredths magnitude 1000000) m in
            elim (Bool-cases (leb 100 (hundredths magnitude 1000))) [
              | inl k ↦
                  let le = leb→le 100 (hundredths magnitude 1000) k in
                  rw (b, m, k)
                    (omega (le, arith), inr (omega (lm, arith)), omega arith, omega arith)
              | inr k ↦
                  let lk = leb_false→lt 100 (hundredths magnitude 1000) k in
                  rw (b, m, k) (omega (lk, arith))
            ]
      ]
]
