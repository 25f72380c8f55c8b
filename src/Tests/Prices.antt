-- ===== src/Tests/Prices.antt =====
-- Tests of the model of contracts/decimal.ts, and its theorems at concrete prices.
use Prim.{tt}
use tckr.Prelude.{
  ◌+◌, ◌-◌, ◌*◌, ◌/◌, ◌^◌, ◌≤◌, ◌<◌, ◌≡◌, ◌≢◌, ◌↔◌, refl, xor, max, true, false, some, arith, List,
}
use Prim.Native.Char.{code}
use Prim.Native.String.{String}
use tckr.Prelude.Int.{pos, negsuc, signed, is_neg, abs, ◌-ℤ◌, ◌*ℤ◌, ◌≤ℤ◌}
use tckr.Text.{Text, of_digits, to_digits, pad_start, pad_end, index_of}
use tckr.Decimal.{
  is_decimal, decimal_places, to_scaled_int, from_scaled_int, subtract, compare,
  multiply_by_quantity, less, equal, greater,
}
use tckr.Decimal.Printing.{from_scaled_int-is_decimal, to_scaled_int-from_scaled_int}
use tckr.Decimal.Grammar.{unsigned, Numeral, IsNumeral, render, value}
use tckr.Decimal.Exact.{compare-order, subtract-exact, multiply_by_quantity-exact}
use tckr.Decimal.Compact.{format_compact, compact_frac, strip_zeros}
use tckr.Decimal.Percent.{percent_change, percent_change_text, percent_units}
use tckr.Decimal.Percent.Number.{percent_change-truncates}
use tckr.Decimal.Percent.Rounded.{Reads, percent_change_text-Reads, percent_units-nearest}

abbrev codes : String → Text
codes String.[] = List.[]
codes (String.◌∷◌ c s) = List.◌∷◌ (code c) (codes s)

accepts_signs : is_decimal (codes "+1.05") ≡ true
unfolding is_decimal
accepts_signs = refl

refuses_five_places : is_decimal (codes "1.00005") ≡ false
unfolding is_decimal
refuses_five_places = refl

subtract_test : subtract (codes "82.5") (codes "82.75") ≡ codes "-0.25"
unfolding subtract to_scaled_int from_scaled_int decimal_places of_digits to_digits pad_start
    pad_end index_of ◌-ℤ◌
subtract_test = refl

percent_test : percent_change_text (codes "100") (codes "99.765") 2 ≡ codes "-0.24"
unfolding percent_change_text to_scaled_int of_digits to_digits pad_start pad_end index_of ◌-ℤ◌ ◌*ℤ◌
    mathlib.Core.Bool.xor
percent_test = refl

abbrev last_price : Text
last_price = codes "82.5"

abbrev close_price : Text
close_price = codes "-0.75"

last_price-valid : is_decimal last_price ≡ true
unfolding is_decimal
last_price-valid = refl

close_price-valid : is_decimal close_price ≡ true
unfolding is_decimal
close_price-valid = refl

last_price-value : to_scaled_int last_price ≡ pos 825000
unfolding to_scaled_int of_digits pad_end index_of
last_price-value = refl

last_price-ne-zero : to_scaled_int last_price ≢ pos 0
last_price-ne-zero e = grind (arith, last_price-value)

to_scaled_int-from_scaled_int_example :
    to_scaled_int (from_scaled_int (negsuc 12345) 2)
    ≡ signed (is_neg (negsuc 12345)) (abs (negsuc 12345) / 10 ^ (4 - 2) * 10 ^ (4 - 2))
to_scaled_int-from_scaled_int_example = to_scaled_int-from_scaled_int (negsuc 12345) 2 (omega arith)

subtract-exact_example :
    (to_scaled_int (subtract last_price close_price)
      ≡ to_scaled_int last_price -ℤ to_scaled_int close_price)
    × (is_decimal (subtract last_price close_price) ≡ true)
    × (decimal_places (subtract last_price close_price)
        ≡ max (decimal_places last_price) (decimal_places close_price))
subtract-exact_example = subtract-exact last_price close_price last_price-valid close_price-valid

percent_change-truncates_example :
    percent_change last_price close_price
    ≡ signed
        (xor
          (is_neg (to_scaled_int close_price -ℤ to_scaled_int last_price))
          (is_neg (to_scaled_int last_price)))
        (abs (to_scaled_int close_price -ℤ to_scaled_int last_price)
          * 1000000
          / abs (to_scaled_int last_price))
percent_change-truncates_example =
    percent_change-truncates last_price close_price last_price-ne-zero

percent_change_text-Reads_example :
    Reads
      (percent_change_text last_price close_price 2)
      (signed
        (xor
          (is_neg (to_scaled_int close_price -ℤ to_scaled_int last_price))
          (is_neg (to_scaled_int last_price)))
        (percent_units
            (to_scaled_int last_price)
            (to_scaled_int close_price -ℤ to_scaled_int last_price)
            2
          * 10 ^ (4 - 2)))
      2
percent_change_text-Reads_example =
    percent_change_text-Reads last_price close_price 2 (omega arith) last_price-ne-zero

percent_units-nearest_example :
    let exact = abs (negsuc 2349) * 100 * 10 ^ 2 in
    let shown = percent_units (pos 1000000) (negsuc 2349) 2 * abs (pos 1000000) in
    (2 * exact < 2 * shown + abs (pos 1000000)) × (2 * shown ≤ 2 * exact + abs (pos 1000000))
percent_units-nearest_example = percent_units-nearest (pos 1000000) (negsuc 2349) 2 (omega arith)

from_scaled_int-is_decimal_example :
    (is_decimal (from_scaled_int (negsuc 12345) 2) ≡ true)
    × (decimal_places (from_scaled_int (negsuc 12345) 2) ≡ 2)
from_scaled_int-is_decimal_example = from_scaled_int-is_decimal (negsuc 12345) 2 (omega arith)

multiply_by_quantity-exact_example :
    (t : Text) × (multiply_by_quantity last_price (pos 300) ≡ some t)
    × (is_decimal t ≡ true)
    × (decimal_places t ≡ decimal_places last_price)
    × (to_scaled_int t ≡ to_scaled_int last_price *ℤ pos 300)
multiply_by_quantity-exact_example =
    multiply_by_quantity-exact last_price (pos 300) last_price-valid (omega arith)

-- 1.5 and 1.25, of which the shorter is the greater.
abbrev three_halves : Numeral
three_halves = record { sign = unsigned; whole = codes "1"; frac = codes "5" }

abbrev five_quarters : Numeral
five_quarters = record { sign = unsigned; whole = codes "1"; frac = codes "25" }

three_halves-IsNumeral : IsNumeral three_halves
three_halves-IsNumeral = record {
  some_whole = omega arith;
  whole_digits = (refl, tt);
  frac_digits = (refl, tt);
  frac_short = omega arith;
}

five_quarters-IsNumeral : IsNumeral five_quarters
five_quarters-IsNumeral = record {
  some_whole = omega arith;
  whole_digits = (refl, tt);
  frac_digits = (refl, (refl, tt));
  frac_short = omega arith;
}

compare-order_example :
    ((compare (render three_halves) (render five_quarters) ≡ less)
      ↔ ¬ (value five_quarters ≤ℤ value three_halves))
    × ((compare (render three_halves) (render five_quarters) ≡ equal)
        ↔ (value three_halves ≡ value five_quarters))
    × ((compare (render three_halves) (render five_quarters) ≡ greater)
        ↔ ¬ (value three_halves ≤ℤ value five_quarters))
compare-order_example =
    compare-order three_halves five_quarters three_halves-IsNumeral five_quarters-IsNumeral

millions : format_compact (codes "25234000.50") false ≡ codes "25.23M"
unfolding format_compact compact_frac strip_zeros to_scaled_int pad_end pad_start index_of of_digits
    to_digits
millions = refl

next_unit : format_compact (codes "-999999") false ≡ codes "-1M"
unfolding format_compact compact_frac strip_zeros to_scaled_int pad_end pad_start index_of of_digits
    to_digits
next_unit = refl

no_minus_zero : format_compact (codes "-0.2") true ≡ codes "0"
unfolding format_compact compact_frac strip_zeros to_scaled_int pad_end pad_start index_of of_digits
    to_digits
no_minus_zero = refl
