-- ===== src/Calendar/Market.antt =====
-- client/Tckr.MarketWatch/src/data/marketCalendar.ts: the searches for a trading day, the market's status,
-- and the texts that a page shows of it. A thrown error is `none`.
use tckr.Prelude.{
  ℕ, zero, suc, ◌%◌, Bool, false, Option, none, some, List, [], ◌∷◌, ◌++◌, ◌&&◌, String, not,
  if◌then◌else◌, ltb, ◌==◌,
}
use tckr.Prelude.Int.{ℤ, pos, negsuc, ◌+ℤ◌, ◌-ℤ◌, ltb_ℤ}
use tckr.Text.{Text, to_digits}
use tckr.Messages.{◌>>=◌, units}
use tckr.Calendar.{
  FormattedParts, CairoParts, DateKey, market_open, market_close, pre_open_auction_ms, pad2,
  is_trading_day, day_ms, get_cairo_parts, cairo_date_key, cairo_epoch_for, walk,
}

pub record Session : Type 0 where
  pub session_date_key : DateKey
  pub session_open_at : ℤ
  pub session_close_at : ℤ

pub data MarketStatus : Type 0 where
  opened : Session → MarketStatus
  closed : Session → (next_open_at : ℤ) → MarketStatus

abbrev pub session_of : MarketStatus → Session
session_of (opened session) = session
session_of (closed session next_open_at) = session

-- `twelveHour`: the hour, and whether it is AM.
unfoldable pub twelve_hour : ℕ → ℕ × Bool
twelve_hour hour = (if hour % 12 == 0 then 12 else hour % 12, ltb hour 12)

abbrev pub period : Bool → Text
period am = if am then units "AM" else units "PM"

-- An array's item, with "undefined" past its end, as a template writes it.
unfoldable pub text_at : List String → ℕ → Text
text_at [] i = units "undefined"
text_at (s ∷ ss) zero = units s
text_at (s ∷ ss) (suc i) = text_at ss i

unfoldable pub cairo_weekday_short_names : List String
cairo_weekday_short_names = "Sun" ∷ "Mon" ∷ "Tue" ∷ "Wed" ∷ "Thu" ∷ "Fri" ∷ "Sat" ∷ []

unfoldable pub month_short_names : List String
month_short_names =
    "Jan" ∷ "Feb" ∷ "Mar" ∷ "Apr" ∷ "May" ∷ "Jun" ∷ "Jul" ∷ "Aug" ∷ "Sep" ∷ "Oct" ∷ "Nov" ∷ "Dec"
    ∷ []

-- `MONTH_SHORT_NAMES[month - 1]`; there is no item -1.
abbrev pub month_name : ℕ → Text
month_name zero = units "undefined"
month_name (suc m) = text_at month_short_names m

abbrev pub same_day : CairoParts → CairoParts → Bool
same_day a b = (a.year == b.year) && (a.month == b.month) && (a.day == b.day)

unfoldable pub is_pre_open_auction : MarketStatus → ℤ → Bool
is_pre_open_auction (opened session) now_ms = false
is_pre_open_auction (closed session next_open_at) now_ms =
    let until_open = next_open_at -ℤ now_ms in
    ltb_ℤ (pos 0) until_open && not (ltb_ℤ pre_open_auction_ms until_open)

module _ (cairo_formatter : ℤ → FormattedParts) where
  unfoldable pub previous_trading_date_key : DateKey → Option DateKey
  previous_trading_date_key key = walk cairo_formatter 7 (negsuc 0) key

  unfoldable pub next_trading_date_key : DateKey → Option DateKey
  next_trading_date_key key = walk cairo_formatter 7 (pos 1) key

  unfoldable pub open_at : DateKey → ℤ
  open_at key = cairo_epoch_for cairo_formatter key (market_open.hour) (market_open.minute)

  unfoldable pub close_at : DateKey → ℤ
  close_at key = cairo_epoch_for cairo_formatter key (market_close.hour) (market_close.minute)

  abbrev pub session_on : DateKey → Session
  unfolding open_at close_at
  session_on key = record {
    session_date_key = key;
    session_open_at = open_at key;
    session_close_at = close_at key;
  }

  unfoldable pub get_market_status : ℤ → Option MarketStatus
  unfolding previous_trading_date_key next_trading_date_key open_at close_at
  get_market_status now_ms =
      let today = cairo_date_key cairo_formatter now_ms in
      let trades = is_trading_day ((get_cairo_parts cairo_formatter now_ms).weekday) in
      let open_at_today = open_at today in
      let close_at_today = close_at today in
      if trades && not (ltb_ℤ now_ms open_at_today) && ltb_ℤ now_ms close_at_today
      then some (opened (session_on today))
      else if trades && ltb_ℤ now_ms open_at_today
      then (previous_trading_date_key today
          >>= (λ prev_key. some (closed (session_on prev_key) open_at_today)))
      else if trades && not (ltb_ℤ now_ms close_at_today)
      then (next_trading_date_key today
          >>= (λ next_key. some (closed (session_on today) (open_at next_key))))
      else do
        prev_key ← previous_trading_date_key today
        next_key ← next_trading_date_key today
        some (closed (session_on prev_key) (open_at next_key))

  unfoldable pub format_cairo_clock : ℤ → Text
  unfolding twelve_hour
  format_cairo_clock epoch_ms =
      let p = get_cairo_parts cairo_formatter epoch_ms in
      let clock = twelve_hour p.hour in
      to_digits (clock.0) ++ b':' ∷ pad2 p.minute ++ b':' ∷ pad2 p.second ++ b' ' ∷ period (clock.1)

  unfoldable pub format_cairo_date_short : ℤ → Text
  unfolding text_at
  format_cairo_date_short epoch_ms =
      let p = get_cairo_parts cairo_formatter epoch_ms in
      text_at cairo_weekday_short_names p.weekday
      ++ b' ' ∷ to_digits p.day
      ++ b' ' ∷ month_name p.month

  unfoldable pub format_cairo_time_short : ℤ → Text
  unfolding twelve_hour
  format_cairo_time_short epoch_ms =
      let p = get_cairo_parts cairo_formatter epoch_ms in
      let clock = twelve_hour p.hour in
      to_digits (clock.0) ++ b':' ∷ pad2 p.minute ++ b' ' ∷ period (clock.1)

  abbrev pub day_word : CairoParts → Option ℤ → Text
  day_word open_parts none = text_at cairo_weekday_short_names open_parts.weekday
  day_word open_parts (some now_ms) =
      if same_day open_parts (get_cairo_parts cairo_formatter now_ms)
      then units "today"
      else if same_day open_parts (get_cairo_parts cairo_formatter (now_ms +ℤ day_ms))
      then units "tomorrow"
      else text_at cairo_weekday_short_names open_parts.weekday

  -- `formatNextOpen` of a closed market's next opening.
  unfoldable pub format_next_open : ℤ → Option ℤ → Text
  unfolding format_cairo_time_short
  format_next_open next_open_at now_ms =
      day_word (get_cairo_parts cairo_formatter next_open_at) now_ms
      ++ b' ' ∷ format_cairo_time_short next_open_at
