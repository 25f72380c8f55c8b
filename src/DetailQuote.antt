-- ===== src/DetailQuote.antt =====
-- client/Tckr.MarketWatch/src/pages/detailQuote.ts: the quote that the page of one instrument shows, as a
-- snapshot gives it and a tick changes it. `Intl`'s figure of a percentage is given to what calls it.
pub mod Page
pub mod Latest
pub mod Events
pub mod Streams
pub mod Volumes
use Prim.Native.Nat.{Ordering}
use Prim.Native.String.{compare as compare_strings}
use tckr.Prelude.{
  map, Bool, true, false, not, ◌||◌, Option, none, some, List, [], ◌∷◌, String, str_eq,
  if◌then◌else◌,
}
use tckr.Prelude.Int.{ℤ, pos, ◌+ℤ◌}
use tckr.Text.{Text}
use tckr.Contracts.{Stream, Tick, Snapshot, SymbolDefinition, HistoryPoint}
use tckr.Messages.{units}
use tckr.ClosestInstruments.{closest_instruments}
use tckr.Decimal.{subtract}
use tckr.Decimal.Percent.{percent_change}

pub record DetailQuote : Type 0 where
  pub price : Text
  pub change : Text
  pub change_percent_text : String
  pub volume : ℤ
  pub exchange_timestamp : String
  pub stream : Stream

pub record OhlcExtras : Type 0 where
  pub open_price : Text
  pub baseline : Text
  pub baseline_is_previous_close : Bool
  pub high : Text
  pub low : Text
  pub exchange_timestamp : String

pub data Phase : Type 0 where
  loading ready not_found : Phase

-- `a < b` of two strings; the timestamps are ASCII, where code points and code units agree.
abbrev pub str_lt : String → String → Bool
str_lt a b = elim (compare_strings a b) [ Ordering.lt ↦ true | _ ↦ false ]

abbrev pub snapshot_baseline : Snapshot → Text
snapshot_baseline snapshot = elim snapshot.previous_close [
  | none ↦ snapshot.open_price
  | some p ↦ p
]

abbrev pub has_previous_close : Option Text → Bool
has_previous_close none = false
has_previous_close (some p) = true

unfoldable pub quote_from_snapshot : (ℤ → String) → Snapshot → DetailQuote
quote_from_snapshot format_percent_figure snapshot =
    let baseline = snapshot_baseline snapshot in
    record {
      price = snapshot.price;
      change = subtract snapshot.price baseline;
      change_percent_text = format_percent_figure (percent_change baseline snapshot.price);
      volume = snapshot.volume;
      exchange_timestamp = snapshot.exchange_timestamp;
      stream = snapshot.stream;
    }

abbrev pub or_price : Option Text → Text → Text
or_price none price = price
or_price (some baseline) price = baseline

abbrev pub quote_of_tick : (ℤ → String) → Tick → Option Text → ℤ → DetailQuote
quote_of_tick format_percent_figure tick baseline volume =
    let effective_baseline = or_price baseline tick.p in
    record {
      price = tick.p;
      change = subtract tick.p effective_baseline;
      change_percent_text = format_percent_figure (percent_change effective_baseline tick.p);
      volume = volume;
      exchange_timestamp = tick.t;
      stream = tick.st;
    }

-- `prev && prev.exchangeTimestamp >= time`
abbrev pub is_no_older : Option DetailQuote → String → Bool
is_no_older none time = false
is_no_older (some prev) time = not (str_lt prev.exchange_timestamp time)

unfoldable pub merge_tick_into_quote :
    (ℤ → String) → Option DetailQuote → Tick → Option Text → ℤ → Option DetailQuote
merge_tick_into_quote format_percent_figure prev tick baseline volume =
    if is_no_older prev tick.t
    then prev
    else some (quote_of_tick format_percent_figure tick baseline volume)
