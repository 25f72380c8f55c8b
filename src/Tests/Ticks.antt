-- ===== src/Tests/Ticks.antt =====
-- The theorems on data/TickDispatcher.ts and data/store.ts at concrete ticks.
use tckr.Prelude.{◌≡◌, refl, [], ◌∷◌, none, some, true}
use tckr.Prelude.Int.{pos, ◌+ℤ◌}
use tckr.Contracts.{Tick, Snapshot, trade, live}
use tckr.JsMap.{lookup, values}
use tckr.Dispatcher.{fresh}
use tckr.Dispatcher.Quantity.{traded, run, arrived, pushed, frame, run-conserves}
use tckr.Dispatcher.Frames.{start, after_push, started, stepped, arrives, IsPaced, Reach-IsPaced}
use tckr.Store.{Store, SymbolMeta, SymbolDef, reset_stream}
use tckr.Store.Sequences.{ticked, snapped, apply_all, all_ticked, ticks_of, volume_at, volume-ticks}
use tckr.Store.Reset.{reset_stream-IsPure, IsPure, baseline_of}

-- "82.5" and "83" as code units.
abbrev first_trade : Tick
first_trade = record {
  s = "COMI";
  p = 56 ∷ 50 ∷ 46 ∷ 53 ∷ [];
  q = pos 300;
  k = trade;
  t = "2026-07-01T10:00:00Z";
  id = "a1";
  st = live;
}

abbrev second_trade : Tick
second_trade = record {
  s = "COMI";
  p = 56 ∷ 51 ∷ [];
  q = pos 200;
  k = trade;
  t = "2026-07-01T10:00:01Z";
  id = "a2";
  st = live;
}

run-conserves_example :
    traded "COMI" (run fresh (pushed first_trade ∷ pushed second_trade ∷ frame ∷ [])).1
      +ℤ traded "COMI"
          (values (run fresh (pushed first_trade ∷ pushed second_trade ∷ frame ∷ [])).0.pending)
    ≡ traded "COMI" (values fresh.pending)
      +ℤ traded "COMI" (arrived (pushed first_trade ∷ pushed second_trade ∷ frame ∷ []))
run-conserves_example =
    run-conserves "COMI" fresh (pushed first_trade ∷ pushed second_trade ∷ frame ∷ []) tt

Reach-IsPaced_example : IsPaced (after_push second_trade (after_push first_trade start))
Reach-IsPaced_example =
    Reach-IsPaced (stepped (stepped started (arrives first_trade)) (arrives second_trade))

abbrev comi : SymbolMeta
comi = record {
  name = "Commercial International Bank";
  reference_price = 56 ∷ 50 ∷ [];
  baseline = 56 ∷ 49 ∷ [];
}

-- A board with one symbol and one listener.
abbrev board : Store
board = record {
  records = ("COMI", record { view = none; listeners = 7 ∷ [] }) ∷ [];
  meta = ("COMI", comi) ∷ [];
  symbol_list = "COMI" ∷ [];
  stream_discard_listeners = 9 ∷ [];
}

board-primed : lookup "COMI" board.meta ≡ some comi
unfolding lookup
board-primed = refl

abbrev opening : Snapshot
opening = record {
  symbol = "COMI";
  stream = live;
  price = 56 ∷ 50 ∷ [];
  change = 48 ∷ [];
  change_percent = "0.00";
  open_price = 56 ∷ 50 ∷ [];
  previous_close = some (56 ∷ 48 ∷ []);
  high = 56 ∷ 50 ∷ [];
  low = 56 ∷ 50 ∷ [];
  volume = pos 1000;
  last_event_id = "a0";
  exchange_timestamp = "2026-07-01T10:00:00Z";
  snapshot_age = pos 3;
  simulated = true;
}

volume-ticks_example :
    volume_at "COMI" (apply_all (all_ticked ((first_trade, 5) ∷ (second_trade, 6) ∷ [])) board)
    ≡ volume_at "COMI" board +ℤ traded "COMI" (ticks_of ((first_trade, 5) ∷ (second_trade, 6) ∷ []))
volume-ticks_example =
    volume-ticks "COMI" comi ((first_trade, 5) ∷ (second_trade, 6) ∷ []) board board-primed

hrho-unprimed : lookup "HRHO" board.meta ≡ none
unfolding lookup
hrho-unprimed = refl

reset_stream-IsPure_example :
    IsPure live (apply_all (snapped opening 5 ∷ ticked first_trade 6 ∷ []) (reset_stream board).0)
reset_stream-IsPure_example =
    reset_stream-IsPure live (snapped opening 5 ∷ ticked first_trade 6 ∷ []) board
      (refl, (refl, tt))

abbrev definition : SymbolDef
definition = record { symbol = "COMI"; name = "CIB"; reference_price = 57 ∷ 48 ∷ [] }

board-baseline : baseline_of (lookup "COMI" board.meta) ≡ some (56 ∷ 49 ∷ [])
unfolding lookup
board-baseline = refl
