-- ===== src/DetailQuote/Page.antt =====
-- client/Tckr.MarketWatch/src/pages/useDetailQuote.ts: the hook's state and its refs are the fields of a
-- record, and each handler, answer and effect is a function on it; a state setter is taken to run at
-- once. The built-ins on dates, percentages and texts are parameters.
use tckr.Prelude.{
  map, Bool, true, false, not, ◌||◌, Option, none, some, List, [], ◌∷◌, String, str_eq,
  if◌then◌else◌,
}
use tckr.Prelude.Int.{ℤ, pos, ◌+ℤ◌}
use tckr.Text.{Text}
use tckr.Contracts.{Tick, Snapshot, SymbolDefinition, HistoryPoint}
use tckr.Messages.{units}
use tckr.ClosestInstruments.{closest_instruments}
use tckr.DetailQuote.{
  DetailQuote, OhlcExtras, Phase, loading, ready, not_found, str_lt, snapshot_baseline,
  has_previous_close, quote_from_snapshot, merge_tick_into_quote,
}

-- `Intl.NumberFormat` of a percentage, `Date.parse`, and what `closestInstruments` calls.
pub record Builtins : Type 0 where
  pub format_percent_figure : ℤ → String
  pub parse_date : String → ℤ
  pub trim : Text → Text
  pub to_lower_case : Text → Text
  pub words : Text → Text × List Text
  pub locale_less : Text → Text → Bool

pub record ChartHistoryPoint : Type 0 where
  pub t : ℤ
  pub p : Text

-- The state and the refs of `useDetailQuote` for one symbol, and the variables of its effect.
pub record DetailQuoteState : Type 0 where
  pub symbol : String
  pub phase : Phase
  pub quote : Option DetailQuote
  pub extras : Option OhlcExtras
  pub universe_def : Option SymbolDefinition
  pub suggestions : List SymbolDefinition
  pub history_points : Option (List ChartHistoryPoint)
  pub baseline : Option Text
  pub queued_tick : Option Tick
  pub volume_baseline : ℤ
  pub volume_since_baseline : ℤ
  pub pending_tick : Option Tick
  pub cancelled : Bool

-- The state after the resets of a render with a new symbol, and of the effect that follows it.
unfoldable pub mounted : String → DetailQuoteState
mounted symbol = record {
  symbol = symbol;
  phase = loading;
  quote = none;
  extras = none;
  universe_def = none;
  suggestions = [];
  history_points = none;
  baseline = none;
  queued_tick = none;
  volume_baseline = pos 0;
  volume_since_baseline = pos 0;
  pending_tick = none;
  cancelled = false;
}

abbrev pub is_not_found : Phase → Bool
is_not_found not_found = true
is_not_found loading = false
is_not_found ready = false

unfoldable pub mark_not_found : DetailQuoteState → DetailQuoteState
mark_not_found d = if d.cancelled || is_not_found d.phase then d else record d { phase = not_found }

-- `prev && prev.exchangeTimestamp > snapshot.exchangeTimestamp`
abbrev pub quote_is_newer : Option DetailQuote → String → Bool
quote_is_newer none time = false
quote_is_newer (some prev) time = str_lt time prev.exchange_timestamp

abbrev pub extras_are_newer : Option OhlcExtras → String → Bool
extras_are_newer none time = false
extras_are_newer (some prev) time = str_lt time prev.exchange_timestamp

abbrev pub extras_of : Snapshot → OhlcExtras
extras_of snapshot = record {
  open_price = snapshot.open_price;
  baseline = snapshot_baseline snapshot;
  baseline_is_previous_close = has_previous_close snapshot.previous_close;
  high = snapshot.high;
  low = snapshot.low;
  exchange_timestamp = snapshot.exchange_timestamp;
}

-- `ingestSnapshot` past its guard.
abbrev pub ingested : (ℤ → String) → Snapshot → DetailQuoteState → DetailQuoteState
ingested format_percent_figure snapshot d = record d {
  baseline = some (snapshot_baseline snapshot);
  volume_baseline = snapshot.volume;
  volume_since_baseline = pos 0;
  extras =
      if extras_are_newer d.extras snapshot.exchange_timestamp
      then d.extras
      else some (extras_of snapshot);
  quote =
      if quote_is_newer d.quote snapshot.exchange_timestamp
      then d.quote
      else some (quote_from_snapshot format_percent_figure snapshot);
  phase = ready;
}

unfoldable pub ingest_snapshot : (ℤ → String) → Snapshot → DetailQuoteState → DetailQuoteState
unfolding quote_from_snapshot
ingest_snapshot format_percent_figure snapshot d =
    if d.cancelled || not (str_eq snapshot.symbol d.symbol) || is_not_found d.phase
    then d
    else ingested format_percent_figure snapshot d

-- `!pendingTick || tick.t >= pendingTick.t`
abbrev pub latest_tick : Option Tick → Tick → Tick
latest_tick none tick = tick
latest_tick (some pending) tick = if str_lt tick.t pending.t then pending else tick

unfoldable pub throttled_apply_tick : Tick → DetailQuoteState → DetailQuoteState
throttled_apply_tick tick d = record d { pending_tick = some (latest_tick d.pending_tick tick) }

abbrev pub shown_volume : DetailQuoteState → ℤ
shown_volume d = d.volume_baseline +ℤ d.volume_since_baseline

-- `setQuote` of a tick that is merged now.
abbrev pub merged : (ℤ → String) → Tick → DetailQuoteState → DetailQuoteState
merged format_percent_figure tick d = record d {
  quote = merge_tick_into_quote format_percent_figure d.quote tick d.baseline (shown_volume d);
}

-- The listener of the beat, by the pending tick.
abbrev pub painted : (ℤ → String) → Option Tick → DetailQuoteState → DetailQuoteState
painted format_percent_figure none d = d
painted format_percent_figure (some tick) d =
    if d.cancelled then d else merged format_percent_figure tick (record d { pending_tick = none })

unfoldable pub beat : (ℤ → String) → DetailQuoteState → DetailQuoteState
unfolding merge_tick_into_quote
beat format_percent_figure d = painted format_percent_figure d.pending_tick d

-- What `source.on.tick` does with a counted tick, by the phase.
abbrev pub held : Phase → Tick → DetailQuoteState → DetailQuoteState
held loading tick d = record d { queued_tick = some tick }
held ready tick d = throttled_apply_tick tick d
held not_found tick d = d

unfoldable pub tick_arrived : Tick → DetailQuoteState → DetailQuoteState
unfolding throttled_apply_tick
tick_arrived tick d =
    if not (str_eq tick.s d.symbol) || d.cancelled || is_not_found d.phase
    then d
    else held d.phase tick (record d { volume_since_baseline = d.volume_since_baseline +ℤ tick.q })

-- The handler of `on.entitlement`.
unfoldable pub entitlement_changed : DetailQuoteState → DetailQuoteState
entitlement_changed d = record d {
  queued_tick = none;
  pending_tick = none;
  baseline = none;
  volume_baseline = pos 0;
  volume_since_baseline = pos 0;
  quote = none;
  extras = none;
}

-- The second effect, which runs once the phase is `ready`.
abbrev pub applied : (ℤ → String) → Phase → Option Tick → DetailQuoteState → DetailQuoteState
applied format_percent_figure ready (some queued) d =
    merged format_percent_figure queued (record d { queued_tick = none })
applied format_percent_figure _ _ d = d

unfoldable pub apply_queued_tick : (ℤ → String) → DetailQuoteState → DetailQuoteState
unfolding merge_tick_into_quote
apply_queued_tick format_percent_figure d = applied format_percent_figure d.phase d.queued_tick d

-- The answer to `getHistory`, or its failure.
abbrev pub chart_points : Builtins → Option (List HistoryPoint) → List ChartHistoryPoint
chart_points b none = []
chart_points b (some points) =
    map (λ point. record { t = b.parse_date point.t; p = point.p }) points

unfoldable pub history_answered :
    Builtins → Option (List HistoryPoint) → DetailQuoteState → DetailQuoteState
history_answered b answer d =
    if d.cancelled then d else record d { history_points = some (chart_points b answer) }

-- `symbols.find((candidate) => candidate.symbol === symbol)`
unfoldable pub find_symbol : String → List SymbolDefinition → Option SymbolDefinition
find_symbol symbol [] = none
find_symbol symbol (candidate ∷ symbols) =
    if str_eq candidate.symbol symbol then some candidate else find_symbol symbol symbols

-- The answer to `getUniverse`; its failure changes nothing.
abbrev pub universe_found :
    Builtins → List SymbolDefinition → Option SymbolDefinition → DetailQuoteState → DetailQuoteState
universe_found b symbols none d = mark_not_found (record d {
  suggestions =
      closest_instruments b.trim b.to_lower_case b.words b.locale_less (units d.symbol) symbols 3;
})
universe_found b symbols (some def) d = record d { universe_def = some def }

unfoldable pub universe_answered :
    Builtins → List SymbolDefinition → DetailQuoteState → DetailQuoteState
unfolding find_symbol mark_not_found
universe_answered b symbols d =
    if d.cancelled then d else universe_found b symbols (find_symbol d.symbol symbols) d

-- The clean-up of the effect.
unfoldable pub unmounted : DetailQuoteState → DetailQuoteState
unmounted d = record d { cancelled = true }
