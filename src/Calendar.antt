-- ===== src/Calendar.antt =====
-- client/Tckr.MarketWatch/src/data/marketCalendar.ts. What `Intl.DateTimeFormat` formats for Cairo is the
-- parameter `cairo_formatter` of the definitions; an instant is an integer of milliseconds, and a
-- year has four digits (`Date.UTC` moves the years below 100).
pub mod Market
pub mod Walk
pub mod Sessions
pub mod Keys
use tckr.Prelude.{
  ℕ, zero, suc, ◌+◌, ◌-◌, ◌*◌, ◌/◌, ◌%◌, Bool, true, false, not, Option, none, some, List, [], ◌∷◌,
  ◌++◌, ◌&&◌, String, str_eq, if◌then◌else◌, leb, ltb, ◌==◌,
}
use tckr.Prelude.Int.{ℤ, pos, ◌+ℤ◌, ◌-ℤ◌, ◌*ℤ◌, ltb_ℤ}
use tckr.Text.{Text, to_digits, of_digits, pad_start}
use tckr.Messages.{◌>>=◌, units}

-- The parts that `formatToParts` gives, the numbers as `Number` reads them.
pub record FormattedParts : Type 0 where
  pub year : ℕ
  pub month : ℕ
  pub day : ℕ
  pub weekday : String
  pub hour : ℕ
  pub minute : ℕ
  pub second : ℕ

pub record CairoParts : Type 0 where
  pub year : ℕ
  pub month : ℕ
  pub day : ℕ
  pub weekday : ℕ
  pub hour : ℕ
  pub minute : ℕ
  pub second : ℕ

pub record TimeOfDay : Type 0 where
  pub hour : ℕ
  pub minute : ℕ

abbrev pub market_open : TimeOfDay
market_open = record { hour = 10; minute = 0 }

abbrev pub market_close : TimeOfDay
market_close = record { hour = 14; minute = 30 }

abbrev pub pre_open_auction_ms : ℤ
pre_open_auction_ms = pos 1800000

-- `CAIRO_WEEKDAY_INDEX[name] ?? 0`
unfoldable pub cairo_weekday_index : String → ℕ
cairo_weekday_index name =
    if str_eq name "Sun"
    then 0
    else if str_eq name "Mon"
    then 1
    else if str_eq name "Tue"
    then 2
    else if str_eq name "Wed"
    then 3
    else if str_eq name "Thu"
    then 4
    else if str_eq name "Fri"
    then 5
    else if str_eq name "Sat"
    then 6
    else 0

-- A date key is kept as the three numbers of its text, which `date_key_text` writes.
pub record DateKey : Type 0 where
  pub year : ℕ
  pub month : ℕ
  pub day : ℕ

-- `padStart(2, '0')` of a number.
unfoldable pub pad2 : ℕ → Text
pad2 value = pad_start 2 (to_digits value)

unfoldable pub date_key_text : DateKey → Text
unfolding pad2
date_key_text key = to_digits key.year ++ (b'-' ∷ (pad2 key.month ++ (b'-' ∷ pad2 key.day)))

-- `text.split(separator)` for a separator of one code unit, with the piece read so far in front.
abbrev pub extend_first : ℕ → List Text → List Text
extend_first c [] = (c ∷ []) ∷ []
extend_first c (piece ∷ pieces) = (c ∷ piece) ∷ pieces

unfoldable pub split : ℕ → Text → List Text
split separator [] = [] ∷ []
split separator (c ∷ text) =
    let rest = split separator text in if c == separator then [] ∷ rest else extend_first c rest

-- `[year, month, day] = dateKey.split('-').map(Number)`, with `none` where a piece is missing.
abbrev pub key_of_pieces : List Text → Option DateKey
key_of_pieces [] = none
key_of_pieces (y ∷ []) = none
key_of_pieces (y ∷ m ∷ []) = none
key_of_pieces (y ∷ m ∷ d ∷ pieces) =
    some (record { year = of_digits 0 y; month = of_digits 0 m; day = of_digits 0 d })

unfoldable pub read_date_key : Text → Option DateKey
unfolding split
read_date_key text = key_of_pieces (split b'-' text)

-- The years that `Date.UTC` counts: in a year that starts in March.
abbrev pub shifted_year : ℕ → ℕ → ℕ
shifted_year year month = if ltb month 3 then year - 1 else year

abbrev pub shifted_month : ℕ → ℕ
shifted_month month = if ltb month 3 then month + 9 else month - 3

-- The days from 1970-01-01, in the Gregorian calendar.
unfoldable pub days_from_epoch : ℕ → ℕ → ℕ → ℤ
days_from_epoch year month day =
    let y = shifted_year year month in
    pos (y * 365 + y / 4 + y / 400 + (153 * shifted_month month + 2) / 5 + day)
    -ℤ pos (y / 100 + 719469)

-- `Date.UTC(year, month - 1, day, hour, minute, second, 0)`
unfoldable pub date_utc : ℕ → ℕ → ℕ → ℕ → ℕ → ℕ → ℤ
unfolding days_from_epoch
date_utc year month day hour minute second =
    days_from_epoch year month day *ℤ pos 86400000
    +ℤ pos (hour * 3600000 + minute * 60000 + second * 1000)

unfoldable pub is_trading_day : ℕ → Bool
is_trading_day weekday = leb 0 weekday && leb weekday 4

abbrev pub day_ms : ℤ
day_ms = pos 86400000

module _ (cairo_formatter : ℤ → FormattedParts) where
  unfoldable pub get_cairo_parts : ℤ → CairoParts
  unfolding cairo_weekday_index
  get_cairo_parts epoch_ms =
      let parts = cairo_formatter epoch_ms in
      record {
        year = parts.year;
        month = parts.month;
        day = parts.day;
        weekday = cairo_weekday_index parts.weekday;
        hour = parts.hour % 24;
        minute = parts.minute;
        second = parts.second;
      }

  unfoldable pub cairo_date_key : ℤ → DateKey
  unfolding get_cairo_parts
  cairo_date_key epoch_ms =
      let p = get_cairo_parts epoch_ms in record { year = p.year; month = p.month; day = p.day }

  unfoldable pub cairo_offset_ms_at : ℤ → ℤ
  unfolding get_cairo_parts
  cairo_offset_ms_at epoch_ms =
      let p = get_cairo_parts epoch_ms in
      date_utc p.year p.month p.day p.hour p.minute p.second -ℤ epoch_ms

  -- `epoch = targetWallAsUtc - cairoOffsetMsAt(epoch)`, that many times.
  unfoldable pub correct : ℕ → ℤ → ℤ → ℤ
  unfolding cairo_offset_ms_at
  correct zero target epoch = epoch
  correct (suc n) target epoch = correct n target (target -ℤ cairo_offset_ms_at epoch)

  unfoldable pub cairo_epoch_for : DateKey → ℕ → ℕ → ℤ
  unfolding correct
  cairo_epoch_for key hour minute =
      let target = date_utc key.year key.month key.day hour minute 0 in correct 2 target target

  unfoldable pub weekday_of_date_key : DateKey → ℕ
  unfolding get_cairo_parts cairo_epoch_for
  weekday_of_date_key key = (get_cairo_parts (cairo_epoch_for key 12 0)).weekday

  unfoldable pub shift_date_key : DateKey → ℤ → DateKey
  unfolding cairo_date_key cairo_epoch_for
  shift_date_key key delta_days =
      let anchor_epoch = cairo_epoch_for key 12 0 in
      cairo_date_key (anchor_epoch +ℤ delta_days *ℤ day_ms)

  -- The loop of the two searches, with the rounds left; `none` is the error that no day was found.
  unfoldable pub walk : ℕ → ℤ → DateKey → Option DateKey
  unfolding weekday_of_date_key shift_date_key
  walk zero delta candidate = none
  walk (suc rounds) delta candidate =
      let next = shift_date_key candidate delta in
      let rest = walk rounds delta next in
      if is_trading_day (weekday_of_date_key next) then some next else rest
