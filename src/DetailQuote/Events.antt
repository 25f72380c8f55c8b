-- ===== src/DetailQuote/Events.antt =====
-- client/Tckr.MarketWatch/src/pages/useDetailQuote.ts: everything that can happen to the page of one
-- instrument, one event at a time.
use tckr.Prelude.{Option, List, [], ◌∷◌}
use tckr.Contracts.{
  Tick, Snapshot, ErrorCode, unknown_symbol, subscription_limit, not_entitled, rate_limited,
  internal, SymbolDefinition, HistoryPoint,
}
use tckr.DetailQuote.Page.{
  Builtins, DetailQuoteState, mark_not_found, ingest_snapshot, beat, tick_arrived,
  entitlement_changed, apply_queued_tick, history_answered, universe_answered, unmounted,
}

-- `snapshot_received` is also the answer to `getSnapshot`, and `snapshot_failed` is its failure.
pub data Event : Type 0 where
  snapshot_received : Snapshot → Event
  snapshot_failed : Event
  tick_received : Tick → Event
  error_received : ErrorCode → Event
  stream_switched beat_due effect_due : Event
  history_settled : Option (List HistoryPoint) → Event
  universe_received : List SymbolDefinition → Event
  page_left : Event

-- The handler of `on.error`.
abbrev pub error_handled : ErrorCode → DetailQuoteState → DetailQuoteState
error_handled unknown_symbol d = mark_not_found d
error_handled subscription_limit d = d
error_handled not_entitled d = d
error_handled rate_limited d = d
error_handled internal d = d

unfoldable pub step : Builtins → Event → DetailQuoteState → DetailQuoteState
unfolding ingest_snapshot mark_not_found tick_arrived entitlement_changed beat apply_queued_tick
    history_answered universe_answered unmounted
step b (snapshot_received snapshot) d = ingest_snapshot b.format_percent_figure snapshot d
step b snapshot_failed d = mark_not_found d
step b (tick_received tick) d = tick_arrived tick d
step b (error_received code) d = error_handled code d
step b stream_switched d = entitlement_changed d
step b beat_due d = beat b.format_percent_figure d
step b effect_due d = apply_queued_tick b.format_percent_figure d
step b (history_settled answer) d = history_answered b answer d
step b (universe_received symbols) d = universe_answered b symbols d
step b page_left d = unmounted d

unfoldable pub run : Builtins → List Event → DetailQuoteState → DetailQuoteState
unfolding step
run b [] d = d
run b (event ∷ events) d = run b events (step b event d)
