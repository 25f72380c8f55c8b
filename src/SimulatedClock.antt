-- ===== src/SimulatedClock.antt =====
-- client/Tckr.MarketWatch/src/data/simulatedClock.ts: the times that it accepts, the instant they name,
-- and the shifted clock. A thrown error is `none`; `trim` and `toLowerCase` are parameters.
pub mod Times
pub mod Targets
use tckr.Prelude.{
  ℕ, zero, suc, ◌*◌, Bool, true, false, Option, none, some, List, [], ◌∷◌, ◌&&◌, ◌||◌,
  if◌then◌else◌, ltb, ◌==◌, length,
}
use tckr.Prelude.Int.{ℤ, pos, ◌+ℤ◌, ◌-ℤ◌}
use tckr.Text.{Text, all_digits, of_digits}
use tckr.Messages.{◌>>=◌, units}
use tckr.Calendar.{
  FormattedParts, DateKey, split, is_trading_day, get_cairo_parts, cairo_date_key, cairo_epoch_for,
}
use tckr.Calendar.Market.{previous_trading_date_key}

pub record ClockTime : Type 0 where
  pub hour : ℕ
  pub minute : ℕ
  pub second : ℕ

abbrev pub clock_time : ℕ → ℕ → ℕ → ClockTime
clock_time hour minute second = record { hour = hour; minute = minute; second = second }

abbrev pub opens_at : ClockTime
opens_at = clock_time 12 0 0

abbrev pub bell_at : ClockTime
bell_at = clock_time 9 59 45

-- `a === b` of two strings.
unfoldable pub text_eq : Text → Text → Bool
text_eq [] [] = true
text_eq [] (d ∷ t) = false
text_eq (c ∷ s) [] = false
text_eq (c ∷ s) (d ∷ t) = (c == d) && text_eq s t

-- `\d{1,2}` and `\d{2}`
abbrev pub is_hour_text : Text → Bool
is_hour_text s = all_digits s && ((length s == 1) || (length s == 2))

abbrev pub is_two_digits : Text → Bool
is_two_digits s = all_digits s && (length s == 2)

-- The groups of `TIME_PATTERN` as numbers, from the pieces between its colons.
abbrev pub time_of_pieces : List Text → Option ClockTime
time_of_pieces [] = none
time_of_pieces (h ∷ []) = none
time_of_pieces (h ∷ m ∷ []) =
    if is_hour_text h && is_two_digits m
    then some (clock_time (of_digits 0 h) (of_digits 0 m) 0)
    else none
time_of_pieces (h ∷ m ∷ s ∷ []) =
    if is_hour_text h && is_two_digits m && is_two_digits s
    then some (clock_time (of_digits 0 h) (of_digits 0 m) (of_digits 0 s))
    else none
time_of_pieces (h ∷ m ∷ s ∷ t ∷ pieces) = none

abbrev pub in_range : ClockTime → Bool
in_range time = ltb time.hour 24 && ltb time.minute 60 && ltb time.second 60

abbrev pub if_in_range : Option ClockTime → Option ClockTime
if_in_range none = none
if_in_range (some time) = if in_range time then some time else none

unfoldable pub parse_cairo_time : Text → Option ClockTime
unfolding text_eq split units
parse_cairo_time spec =
    if text_eq spec (units "open")
    then some opens_at
    else if text_eq spec (units "bell")
    then some bell_at
    else if_in_range (time_of_pieces (split b':' spec))

-- What the shifted clock reads when the real one reads `real_ms`: it was installed at `installed_ms`.
unfoldable pub shifted_now : ℤ → ℤ → ℤ → ℤ
shifted_now target_ms installed_ms real_ms = real_ms +ℤ (target_ms -ℤ installed_ms)

module _ (cairo_formatter : ℤ → FormattedParts) (trim to_lower_case : Text → Text) where
  -- The day of the session: today where it trades, else the one before.
  unfoldable pub target_day : ℤ → Option DateKey
  target_day real_now_ms =
      let today = cairo_date_key cairo_formatter real_now_ms in
      if is_trading_day ((get_cairo_parts cairo_formatter real_now_ms).weekday)
      then some today
      else previous_trading_date_key cairo_formatter today

  unfoldable pub resolve_simulated_clock_target : Text → ℤ → Option ℤ
  unfolding parse_cairo_time target_day
  resolve_simulated_clock_target spec real_now_ms = do
    time ← parse_cairo_time (to_lower_case (trim spec))
    day ← target_day real_now_ms
    some (cairo_epoch_for cairo_formatter day time.hour time.minute +ℤ pos (time.second * 1000))
