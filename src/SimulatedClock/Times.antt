-- ===== src/SimulatedClock/Times.antt =====
-- A time written with two digits for each of its parts is read back.
use tckr.Prelude.{
  ℕ, ◌<◌, ◌≡◌, refl, ap, ◌∙◌, true, false, some, [], ◌∷◌, ◌++◌, length, ◌==◌, lt→ltb, arith,
}
use tckr.Text.{Text, IsDigits, is_digit, to_digits}
use tckr.Text.Digits.{IsDigits-chars, length-pad_start, length-to_digits_le}
use tckr.Messages.{units}
use tckr.Calendar.{split, pad2}
use tckr.Calendar.Keys.{
  digit-is_no_separator, split-digits_first, split-digits, pad2-IsDigits, of_digits-pad2,
}
use tckr.SimulatedClock.{
  ClockTime, parse_cairo_time, time_of_pieces, if_in_range, is_hour_text, is_two_digits, text_eq,
}

abbrev pub time_text : ClockTime → Text
time_text time = pad2 time.hour ++ (b':' ∷ (pad2 time.minute ++ (b':' ∷ pad2 time.second)))

length-pad2 : (n : ℕ) → n < 100 → length (pad2 n) ≡ 2
unfolding pad2
length-pad2 n h =
    omega (length-pad_start 2 (to_digits n), length-to_digits_le n 2 (omega arith) h, arith)

is_two_digits-pad2 : (n : ℕ) → n < 100 → is_two_digits (pad2 n) ≡ true
is_two_digits-pad2 n h = rw (IsDigits-chars (pad2 n) (pad2-IsDigits n), length-pad2 n h) refl

is_hour_text-pad2 : (n : ℕ) → n < 100 → is_hour_text (pad2 n) ≡ true
is_hour_text-pad2 n h = rw (IsDigits-chars (pad2 n) (pad2-IsDigits n), length-pad2 n h) refl

split-time_text :
    (time : ClockTime)
    → split b':' (time_text time) ≡ pad2 time.hour ∷ pad2 time.minute ∷ pad2 time.second ∷ []
split-time_text time =
    split-digits_first b':' (pad2 time.hour) (pad2 time.minute ++ (b':' ∷ pad2 time.second)) refl
      (pad2-IsDigits time.hour)
    ∙ ap (λ pieces. pad2 time.hour ∷ pieces)
        (split-digits_first b':' (pad2 time.minute) (pad2 time.second) refl
          (pad2-IsDigits time.minute))
    ∙ ap (λ pieces. pad2 time.hour ∷ pad2 time.minute ∷ pieces)
        (split-digits b':' (pad2 time.second) refl (pad2-IsDigits time.second))

-- A text of digits that ends in a colon is none of the words.
text_eq-digits :
    (s t : Text) (c : ℕ) (w : Text)
    → IsDigits s
    → is_digit c ≡ false
    → (b':' == c) ≡ false
    → text_eq (s ++ b':' ∷ t) (c ∷ w) ≡ false
unfolding text_eq
text_eq-digits [] t c w digits apart other = rw other refl
text_eq-digits (d ∷ s) t c w (here, rest) apart other =
    rw (digit-is_no_separator c d apart here) refl

time_of_pieces-pad2 :
    (time : ClockTime)
    → time.hour < 100
    → time.minute < 100
    → time.second < 100
    → time_of_pieces (pad2 time.hour ∷ pad2 time.minute ∷ pad2 time.second ∷ []) ≡ some time
time_of_pieces-pad2 time h m s =
    rw
      (
        is_hour_text-pad2 time.hour h,
        is_two_digits-pad2 time.minute m,
        is_two_digits-pad2 time.second s,
        of_digits-pad2 time.hour,
        of_digits-pad2 time.minute,
        of_digits-pad2 time.second,
      )
      refl

pub in_range_lem :
    (time : ClockTime)
    → time.hour < 24
    → time.minute < 60
    → time.second < 60
    → if_in_range (some time) ≡ some time
in_range_lem time h m s =
    rw (lt→ltb time.hour 24 h, lt→ltb time.minute 60 m, lt→ltb time.second 60 s) refl

-- Two digits for each part are read as those numbers, where they are a time of a day.
pub parse_cairo_time-if_in_range :
    (time : ClockTime)
    → time.hour < 100
    → time.minute < 100
    → time.second < 100
    → parse_cairo_time (time_text time) ≡ if_in_range (some time)
unfolding parse_cairo_time units
parse_cairo_time-if_in_range time h m s =
    let rest = pad2 time.minute ++ (b':' ∷ pad2 time.second) in
    rw
      (
        text_eq-digits (pad2 time.hour) rest b'o' (b'p' ∷ b'e' ∷ b'n' ∷ [])
            (pad2-IsDigits time.hour) refl refl,
        text_eq-digits (pad2 time.hour) rest b'b' (b'e' ∷ b'l' ∷ b'l' ∷ [])
            (pad2-IsDigits time.hour) refl refl,
        split-time_text time,
      )
      (ap if_in_range (time_of_pieces-pad2 time h m s))

-- Any time of a day, written with two digits for each part, is read as that time.
parse_cairo_time-time_text :
    (time : ClockTime)
    → time.hour < 24
    → time.minute < 60
    → time.second < 60
    → parse_cairo_time (time_text time) ≡ some time
parse_cairo_time-time_text time h m s =
    parse_cairo_time-if_in_range time (omega arith) (omega arith) (omega arith)
    ∙ in_range_lem time h m s
