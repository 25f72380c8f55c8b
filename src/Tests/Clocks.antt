-- ===== src/Tests/Clocks.antt =====
-- The market calendar and the simulated clock at concrete instants, with a clock two hours ahead of UTC.
use Prim.{tt}
use mathlib.Core.Bool.{xor}
use tckr.Prelude.{
  ◌↔◌, arith, ℕ, ◌+◌, ◌-◌, ◌*◌, ◌/◌, ◌%◌, ◌≡◌, refl, none, some, String, if◌then◌else◌, ltb, ◌==◌,
}
use tckr.Prelude.Int.{ℤ, pos, negsuc, pos_part, ◌-ℤ◌, ◌+ℤ◌, ◌*ℤ◌}
use tckr.Text.{Text, to_digits, of_digits, pad_start}
use tckr.Messages.{units}
use tckr.Calendar.{
  FormattedParts, DateKey, date_key_text, days_from_epoch, date_utc, cairo_date_key,
  cairo_epoch_for, walk, get_cairo_parts, weekday_of_date_key, shift_date_key, split,
  cairo_weekday_index, is_trading_day, correct, cairo_offset_ms_at, pad2,
}
use tckr.Calendar.Walk.{MovesWeekday}
use tckr.Calendar.Market.{
  MarketStatus, opened, closed, session_on, get_market_status, open_at, close_at,
  format_cairo_clock, format_next_open, twelve_hour, format_cairo_time_short, text_at,
  cairo_weekday_short_names, next_trading_date_key,
}
use tckr.Calendar.Sessions.{Describes, get_market_status-Describes, get_market_status-returns}
use tckr.Calendar.Market.{previous_trading_date_key}
use tckr.SimulatedClock.{
  ClockTime, clock_time, parse_cairo_time, text_eq, target_day, resolve_simulated_clock_target,
}
use tckr.SimulatedClock.Targets.{IsTarget, resolve_simulated_clock_target_iff}

abbrev weekday_name : ℕ → String
weekday_name n =
    if n == 0
    then "Sun"
    else if n == 1
    then "Mon"
    else if n == 2
    then "Tue"
    else if n == 3
    then "Wed"
    else if n == 4
    then "Thu"
    else if n == 5
    then "Fri"
    else "Sat"

-- The civil date of a number of days since 0000-03-01, and the time of day.
abbrev formatted : ℕ → ℕ → FormattedParts
formatted days seconds =
    let doe = days % 146097 in
    let yoe = (doe + doe / 36524 - doe / 1460 - doe / 146096) / 365 in
    let doy = doe + yoe / 100 - (365 * yoe + yoe / 4) in
    let mp = (5 * doy + 2) / 153 in
    record {
      year = yoe + days / 146097 * 400 + (if ltb mp 10 then 0 else 1);
      month = if ltb mp 10 then mp + 3 else mp - 9;
      day = doy - (153 * mp + 2) / 5 + 1;
      weekday = weekday_name ((days + 3) % 7);
      hour = seconds / 3600;
      minute = seconds % 3600 / 60;
      second = seconds % 60;
    }

-- Standard time in Cairo, from 1970 on.
abbrev pub standard_time : ℤ → FormattedParts
standard_time epoch_ms =
    let local = pos_part epoch_ms / 1000 + 7200 in
    formatted (719468 + local / 86400) (local % 86400)

-- Thursday, 2026-11-26.
abbrev pub thursday : DateKey
thursday = record { year = 2026; month = 11; day = 26 }

key_text : date_key_text thursday ≡ units "2026-11-26"
unfolding date_key_text units to_digits pad_start
key_text = refl

abbrev pub thursday_noon : ℤ
thursday_noon = pos 1795687200000

abbrev thursday_evening : ℤ
thursday_evening = pos 1795708800000

abbrev next_sunday : DateKey
next_sunday = record { year = 2026; month = 11; day = 29 }

-- In the session, and after it: the weekend is skipped.
pub at_noon :
    get_market_status standard_time thursday_noon
    ≡ some (opened (session_on standard_time thursday))
unfolding get_market_status cairo_date_key get_cairo_parts cairo_weekday_index is_trading_day
    open_at close_at cairo_epoch_for correct cairo_offset_ms_at date_utc days_from_epoch ◌-ℤ◌ ◌+ℤ◌
    ◌*ℤ◌ xor
at_noon = refl

in_the_evening :
    get_market_status standard_time thursday_evening
    ≡ some (closed (session_on standard_time thursday) (open_at standard_time next_sunday))
unfolding get_market_status cairo_date_key get_cairo_parts cairo_weekday_index is_trading_day
    open_at close_at cairo_epoch_for correct cairo_offset_ms_at date_utc days_from_epoch ◌-ℤ◌ ◌+ℤ◌
    ◌*ℤ◌ next_trading_date_key walk shift_date_key weekday_of_date_key xor
in_the_evening = refl

get_market_status-Describes_example :
    Describes standard_time thursday_evening
      (closed (session_on standard_time thursday) (open_at standard_time next_sunday))
get_market_status-Describes_example =
    get_market_status-Describes standard_time thursday_evening
      (closed (session_on standard_time thursday) (open_at standard_time next_sunday))
      in_the_evening

days_before :
    MovesWeekday standard_time 6 3 (negsuc 0) (cairo_date_key standard_time thursday_evening)
unfolding cairo_date_key get_cairo_parts cairo_weekday_index cairo_epoch_for correct
    cairo_offset_ms_at date_utc days_from_epoch ◌-ℤ◌ ◌+ℤ◌ ◌*ℤ◌ shift_date_key weekday_of_date_key
    xor
days_before = (refl, (refl, (refl, tt)))

days_after : MovesWeekday standard_time 1 3 (pos 1) (cairo_date_key standard_time thursday_evening)
unfolding cairo_date_key get_cairo_parts cairo_weekday_index cairo_epoch_for correct
    cairo_offset_ms_at date_utc days_from_epoch ◌-ℤ◌ ◌+ℤ◌ ◌*ℤ◌ shift_date_key weekday_of_date_key
    xor
days_after = (refl, (refl, (refl, tt)))

get_market_status-returns_example :
    (status : MarketStatus) × (get_market_status standard_time thursday_evening ≡ some status)
get_market_status-returns_example =
    get_market_status-returns standard_time thursday_evening days_before days_after

noon_clock : format_cairo_clock standard_time thursday_noon ≡ units "12:00:00 PM"
unfolding format_cairo_clock units get_cairo_parts cairo_weekday_index to_digits pad_start
    twelve_hour pad2
noon_clock = refl

evening_words :
    format_next_open standard_time (pos 1795939200000) (some thursday_evening)
    ≡ units "Sun 10:00 AM"
unfolding format_next_open format_cairo_time_short units get_cairo_parts cairo_weekday_index
    to_digits pad_start twelve_hour pad2 text_at cairo_weekday_short_names ◌+ℤ◌
evening_words = refl

abbrev unchanged : Text → Text
unchanged s = s

abbrev bell_time : ClockTime
bell_time = clock_time 9 59 45

no_such_hour : parse_cairo_time (units "24:00") ≡ none
unfolding parse_cairo_time text_eq units split of_digits
no_such_hour = refl

short_hour : parse_cairo_time (units "9:05") ≡ some (clock_time 9 5 0)
unfolding parse_cairo_time text_eq units split of_digits
short_hour = refl

-- On a Friday, the bell is that of Thursday.
bell_of_thursday :
    resolve_simulated_clock_target standard_time unchanged unchanged
      (units "bell")
      (pos 1795795200000)
    ≡ some (pos 1795679985000)
unfolding resolve_simulated_clock_target target_day parse_cairo_time text_eq units cairo_date_key
    get_cairo_parts cairo_weekday_index is_trading_day cairo_epoch_for correct cairo_offset_ms_at
    date_utc days_from_epoch ◌-ℤ◌ ◌+ℤ◌ ◌*ℤ◌ previous_trading_date_key walk shift_date_key
    weekday_of_date_key xor
bell_of_thursday = refl

-- A quarter to ten and five seconds, on a Saturday of which Thursday is the trading day before.
abbrev quarter_to_ten : ClockTime
quarter_to_ten = clock_time 9 45 5

resolve_simulated_clock_target_iff_example :
    (resolve_simulated_clock_target standard_time unchanged unchanged
        (units "09:45:05")
        (pos 1795795200000)
      ≡ some (pos 1795679105000))
    ↔ IsTarget standard_time unchanged unchanged
        (units "09:45:05")
        (pos 1795795200000)
        quarter_to_ten
        (pos 1795679105000)
unfolding units pad2 pad_start to_digits
resolve_simulated_clock_target_iff_example =
    resolve_simulated_clock_target_iff standard_time unchanged unchanged (units "09:45:05")
      (pos 1795795200000) quarter_to_ten (pos 1795679105000) refl (omega arith) (omega arith)
      (omega arith)
