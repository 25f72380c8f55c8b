-- ===== src/Dispatcher.antt =====
-- client/Tckr.MarketWatch/src/data/TickDispatcher.ts: ticks are coalesced by symbol, and flushed
-- once for each animation frame. `push` returns whether it called `scheduleFrame`; `flush_now`
-- returns the ticks that it hands to `onFlush`, in order.
use tckr.Prelude.{
  ℕ, ◌+◌, Bool, true, false, Option, none, some, List, [], ◌∷◌, ◌==◌, if◌then◌else◌, length, not,
}
use tckr.Prelude.Int.{ℤ, ◌+ℤ◌}
use tckr.Contracts.{Tick}
use tckr.JsMap.{JsMap, lookup, insert, values}
pub mod Frames
pub mod Quantity

pub record TickDispatcher : Type 0 where
  pub pending : JsMap Tick
  pub frame_requested : Bool
  pub received : ℕ
  pub flushed : ℕ
  pub coalesced : ℕ

abbrev pub fresh : TickDispatcher
fresh = record { pending = []; frame_requested = false; received = 0; flushed = 0; coalesced = 0 }

-- `{ ...tick, q: existing.q + tick.q }`
abbrev pub coalesce : Option Tick → Tick → Tick
coalesce none tick = tick
coalesce (some existing) tick = record tick { q = existing.q +ℤ tick.q }

-- `this.coalesced += 1` where a tick was pending.
abbrev pub coalesced_by : Option Tick → ℕ
coalesced_by none = 0
coalesced_by (some existing) = 1

unfoldable pub push : Tick → TickDispatcher → TickDispatcher × Bool
push tick d =
    let existing = lookup tick.s d.pending in
    (
      record {
        pending = insert tick.s (coalesce existing tick) d.pending;
        frame_requested = true;
        received = d.received + 1;
        flushed = d.flushed;
        coalesced = d.coalesced + coalesced_by existing;
      },
      not d.frame_requested,
    )

unfoldable pub flush_now : TickDispatcher → TickDispatcher × List Tick
flush_now d = if length d.pending == 0 then (record d { frame_requested = false }, []) else (
  record d { pending = []; frame_requested = false; flushed = d.flushed + length d.pending },
  values d.pending,
)
