-- ===== src/DetailQuote/Streams.antt =====
-- pages/useDetailQuote.ts: after a switch of the stream, the page shows nothing of the old stream.
use tckr.Prelude.{
  ◌≡◌, Bool, true, false, not, ◌||◌, if◌then◌else◌, Option, none, some, List, [], ◌∷◌, str_eq,
  Bool-cases, inl, inr, All,
}
use tckr.Prelude.Int.{◌+ℤ◌}
use tckr.Messages.{units}
use tckr.ClosestInstruments.{closest_instruments}
use tckr.Contracts.{
  ErrorCode, unknown_symbol, subscription_limit, not_entitled, rate_limited, internal, HistoryPoint,
  Stream, Tick, Snapshot, SymbolDefinition,
}
use tckr.DetailQuote.{
  DetailQuote, Phase, loading, ready, not_found, quote_from_snapshot, merge_tick_into_quote,
  is_no_older, str_lt,
}
use tckr.DetailQuote.Page.{
  Builtins, DetailQuoteState, is_not_found, mark_not_found, ingest_snapshot, quote_is_newer, merged,
  painted, beat, held, latest_tick, tick_arrived, throttled_apply_tick, entitlement_changed,
  applied, apply_queued_tick, history_answered, chart_points, find_symbol, universe_found,
  universe_answered, unmounted,
}
use tckr.DetailQuote.Events.{
  Event, snapshot_received, snapshot_failed, tick_received, error_received, stream_switched,
  beat_due, effect_due, history_settled, universe_received, page_left, step, run, error_handled,
}

-- An event brings nothing but the one stream.
abbrev pub Brings : Stream → Event → Type 0
Brings stream (snapshot_received snapshot) = snapshot.stream ≡ stream
Brings stream (tick_received tick) = tick.st ≡ stream
Brings stream snapshot_failed = Unit
Brings stream (error_received code) = Unit
Brings stream stream_switched = Unit
Brings stream beat_due = Unit
Brings stream effect_due = Unit
Brings stream (history_settled answer) = Unit
Brings stream (universe_received symbols) = Unit
Brings stream page_left = Unit

abbrev pub QuoteOf : Stream → Option DetailQuote → Type 0
QuoteOf stream none = Unit
QuoteOf stream (some quote) = quote.stream ≡ stream

abbrev pub TickOf : Stream → Option Tick → Type 0
TickOf stream none = Unit
TickOf stream (some tick) = tick.st ≡ stream

-- What is shown, and what waits to be shown, is of the one stream.
abbrev pub IsOf : Stream → DetailQuoteState → Type 0
IsOf stream d = QuoteOf stream d.quote × TickOf stream d.queued_tick × TickOf stream d.pending_tick

module _ (stream : Stream) (b : Builtins) where
  if_IsOf :
      (test : Bool) (x y : DetailQuoteState)
      → IsOf stream x
      → IsOf stream y
      → IsOf stream (if test then x else y)
  if_IsOf true x y hx hy = hx
  if_IsOf false x y hx hy = hy

  merged-IsOf :
      (tick : Tick) (d : DetailQuoteState)
      → tick.st ≡ stream
      → IsOf stream d
      → IsOf stream (merged b.format_percent_figure tick d)
  unfolding merge_tick_into_quote
  merged-IsOf tick d e (quote, queued, pending) = elim (Bool-cases (is_no_older d.quote tick.t)) [
    | inl older ↦ rw older (quote, queued, pending)
    | inr newer ↦ rw newer (e, queued, pending)
  ]

  painted-IsOf :
      (tick : Option Tick) (d : DetailQuoteState)
      → TickOf stream tick
      → IsOf stream d
      → IsOf stream (painted b.format_percent_figure tick d)
  painted-IsOf none d e h = h
  painted-IsOf (some tick) d e h =
      let taken : DetailQuoteState = record d { pending_tick = none } in
      if_IsOf d.cancelled d (merged b.format_percent_figure tick taken) h
        (merged-IsOf tick taken e (h.0, h.1, tt))

  ingest_snapshot-IsOf :
      (snapshot : Snapshot) (d : DetailQuoteState)
      → snapshot.stream ≡ stream
      → IsOf stream d
      → IsOf stream (ingest_snapshot b.format_percent_figure snapshot d)
  unfolding ingest_snapshot quote_from_snapshot
  ingest_snapshot-IsOf snapshot d e (quote, queued, pending) =
      elim (Bool-cases
        (d.cancelled || not (str_eq snapshot.symbol d.symbol) || is_not_found d.phase)) [
          | inl ignored ↦ rw ignored (quote, queued, pending)
          | inr taken ↦ elim (Bool-cases (quote_is_newer d.quote snapshot.exchange_timestamp)) [
            | inl newer ↦ rw (taken, newer) (quote, queued, pending)
            | inr older ↦ rw (taken, older) (e, queued, pending)
          ]
        ]

  apply_queued_tick-IsOf :
      (d : DetailQuoteState)
      → IsOf stream d
      → IsOf stream (apply_queued_tick b.format_percent_figure d)
  unfolding apply_queued_tick
  apply_queued_tick-IsOf d h = applied-IsOf d.phase d.queued_tick h.1
    where
      applied-IsOf :
          (phase : Phase) (queued : Option Tick)
          → TickOf stream queued
          → IsOf stream (applied b.format_percent_figure phase queued d)
      applied-IsOf loading queued e = h
      applied-IsOf not_found queued e = h
      applied-IsOf ready none e = h
      applied-IsOf ready (some tick) e =
          merged-IsOf tick (record d { queued_tick = none }) e (h.0, tt, h.2)

  latest_tick_of :
      (pending : Option Tick) (tick : Tick)
      → TickOf stream pending
      → tick.st ≡ stream
      → (latest_tick pending tick).st ≡ stream
  latest_tick_of none tick h e = e
  latest_tick_of (some pending) tick h e = elim (Bool-cases (str_lt tick.t pending.t)) [
    | inl older ↦ rw older h
    | inr newer ↦ rw newer e
  ]

  held-IsOf :
      (phase : Phase) (tick : Tick) (d : DetailQuoteState)
      → tick.st ≡ stream
      → IsOf stream d
      → IsOf stream (held phase tick d)
  unfolding throttled_apply_tick
  held-IsOf loading tick d e h = (h.0, e, h.2)
  held-IsOf ready tick d e h = (h.0, h.1, latest_tick_of d.pending_tick tick h.2 e)
  held-IsOf not_found tick d e h = h

  tick_arrived-IsOf :
      (tick : Tick) (d : DetailQuoteState)
      → tick.st ≡ stream
      → IsOf stream d
      → IsOf stream (tick_arrived tick d)
  unfolding tick_arrived
  tick_arrived-IsOf tick d e h =
      let counted : DetailQuoteState = record d {
        volume_since_baseline = d.volume_since_baseline +ℤ tick.q;
      } in
      if_IsOf (not (str_eq tick.s d.symbol) || d.cancelled || is_not_found d.phase) d
        (held d.phase tick counted) h (held-IsOf d.phase tick counted e h)

  mark_not_found-IsOf : (d : DetailQuoteState) → IsOf stream d → IsOf stream (mark_not_found d)
  unfolding mark_not_found
  mark_not_found-IsOf d h =
      if_IsOf (d.cancelled || is_not_found d.phase) d (record d { phase = not_found }) h h

  error_handled-IsOf :
      (code : ErrorCode) (d : DetailQuoteState) → IsOf stream d → IsOf stream (error_handled code d)
  error_handled-IsOf unknown_symbol d h = mark_not_found-IsOf d h
  error_handled-IsOf subscription_limit d h = h
  error_handled-IsOf not_entitled d h = h
  error_handled-IsOf rate_limited d h = h
  error_handled-IsOf internal d h = h

  universe_found-IsOf :
      (symbols : List SymbolDefinition) (def : Option SymbolDefinition) (d : DetailQuoteState)
      → IsOf stream d
      → IsOf stream (universe_found b symbols def d)
  universe_found-IsOf symbols none d h =
      mark_not_found-IsOf
        (record d {
          suggestions =
              closest_instruments b.trim b.to_lower_case b.words b.locale_less (units d.symbol)
                symbols 3;
        })
        h
  universe_found-IsOf symbols (some def) d h = h

  universe_answered-IsOf :
      (symbols : List SymbolDefinition) (d : DetailQuoteState)
      → IsOf stream d
      → IsOf stream (universe_answered b symbols d)
  unfolding universe_answered
  universe_answered-IsOf symbols d h =
      if_IsOf d.cancelled d (universe_found b symbols (find_symbol d.symbol symbols) d) h
        (universe_found-IsOf symbols (find_symbol d.symbol symbols) d h)

  history_answered-IsOf :
      (answer : Option (List HistoryPoint)) (d : DetailQuoteState)
      → IsOf stream d
      → IsOf stream (history_answered b answer d)
  unfolding history_answered
  history_answered-IsOf answer d h =
      if_IsOf d.cancelled d (record d { history_points = some (chart_points b answer) }) h h

  step-IsOf :
      (event : Event) (d : DetailQuoteState)
      → Brings stream event
      → IsOf stream d
      → IsOf stream (step b event d)
  unfolding step entitlement_changed beat unmounted
  step-IsOf (snapshot_received snapshot) d e h = ingest_snapshot-IsOf snapshot d e h
  step-IsOf (tick_received tick) d e h = tick_arrived-IsOf tick d e h
  step-IsOf snapshot_failed d e h = mark_not_found-IsOf d h
  step-IsOf (error_received code) d e h = error_handled-IsOf code d h
  step-IsOf stream_switched d e h = (tt, tt, tt)
  step-IsOf beat_due d e h = painted-IsOf d.pending_tick d h.2 h
  step-IsOf effect_due d e h = apply_queued_tick-IsOf d h
  step-IsOf (history_settled answer) d e h = history_answered-IsOf answer d h
  step-IsOf (universe_received symbols) d e h = universe_answered-IsOf symbols d h
  step-IsOf page_left d e h = h

  run-IsOf :
      (events : List Event) (d : DetailQuoteState)
      → All (Brings stream) events
      → IsOf stream d
      → IsOf stream (run b events d)
  unfolding run
  run-IsOf [] d e h = h
  run-IsOf (event ∷ events) d (e, es) h =
      run-IsOf events (step b event d) es (step-IsOf event d e h)

-- After a switch, whatever the page showed and held before: as long as the snapshots and ticks that arrive
-- are of the new stream, so is the quote that is shown, and so are the ticks that wait to be shown.
pub run-entitlement_changed :
    (stream : Stream) (b : Builtins) (events : List Event) (d : DetailQuoteState)
    → All (Brings stream) events
    → IsOf stream (run b events (entitlement_changed d))
unfolding entitlement_changed
run-entitlement_changed stream b events d h =
    run-IsOf stream b events (entitlement_changed d) h (tt, tt, tt)
