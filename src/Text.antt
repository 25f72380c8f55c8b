-- ===== src/Text.antt =====
-- JavaScript strings, as the modules of client/Tckr.MarketWatch/src/contracts use them: a string
-- is the list of its UTF-16 code units, and each helper is the built-in function of that name.
pub mod Digits
use tckr.Prelude.{
  ℕ, zero, suc, ◌+◌, ◌-◌, ◌*◌, ◌/◌, ◌%◌, ◌≡◌, Bool, true, ◌&&◌, Option, none, some, List, [], ◌∷◌,
  ◌++◌, leb, ltb, ◌==◌, if◌then◌else◌, length, replicate, All,
}

abbrev pub Text : Type 0
Text = List ℕ

-- `\d`
abbrev pub is_digit : ℕ → Bool
is_digit c = leb b'0' c && leb c b'9'

-- `^\d*$`
abbrev pub all_digits : Text → Bool
all_digits [] = true
all_digits (c ∷ s) = is_digit c && all_digits s

-- `BigInt(s)` of a run of digits, with the digits read so far.
unfoldable pub of_digits : ℕ → Text → ℕ
of_digits acc [] = acc
of_digits acc (c ∷ s) = of_digits (acc * 10 + (c - b'0')) s

-- `n.toString()`, on fuel.
unfoldable pub to_digits_fuel : ℕ → ℕ → Text
to_digits_fuel zero n = []
to_digits_fuel (suc f) n =
    let more = to_digits_fuel f (n / 10) ++ (b'0' + n % 10) ∷ [] in
    if ltb n 10 then (b'0' + n) ∷ [] else more

unfoldable pub to_digits : ℕ → Text
unfolding to_digits_fuel
to_digits n = to_digits_fuel (suc n) n

-- `s.padStart(n, '0')`
unfoldable pub pad_start : ℕ → Text → Text
pad_start n s = replicate (n - length s) b'0' ++ s

-- `s.padEnd(n, '0')`
unfoldable pub pad_end : ℕ → Text → Text
pad_end n s = s ++ replicate (n - length s) b'0'

-- `s.indexOf(c)`, with `none` for -1.
unfoldable pub index_of : ℕ → Text → Option ℕ
index_of c [] = none
index_of c (x ∷ s) =
    if x == c then some 0 else elim (index_of c s) [ none ↦ none | some i ↦ some (suc i) ]

-- Every code unit is a digit.
abbrev pub IsDigits : Text → Type 0
IsDigits = All (λ c. is_digit c ≡ true)
