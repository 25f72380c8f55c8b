-- ===== src/Tests/Simulator.antt =====
-- The theorems on data/SimulatedSource.ts at concrete runs of a universe of two symbols.
use tckr.Prelude.{ℕ, ◌*◌, ◌<◌, ◌≡◌, refl, arith, false, some, List, [], ◌∷◌, ◌++◌, map, String, All}
use tckr.Prelude.Int.{ℤ, pos}
use tckr.Contracts.{Tick, trade, delayed}
use tckr.Decimal.{is_decimal, to_scaled_int}
use tckr.Text.{of_digits, index_of, pad_end}
use tckr.Calendar.Market.{opened, session_on}
use tckr.Dispatcher.{fresh}
use tckr.Store.{empty_store}
use tckr.Reconnect.{token_expired}
use tckr.Simulated.{
  SimSymbol, Backfill, next, mulberry32, pick, total_weight, compute_backfilled_session,
}
use tckr.Simulated.Answers.{answers_in, HasTick, run-ensure_session_for}
use tckr.Simulated.Delays.{IsDrained, drain_delayed_queue-IsDrained}
use tckr.Simulated.Draws.{IsBand, pick-IsBand}
use tckr.Simulated.Batches.{IsGenerated, generate_times-IsGenerated}
use tckr.Simulated.Engine.{generate_times, drain_delayed_queue}
use tckr.Simulated.Events.{Event, run}
use tckr.Simulated.Listing.{IsListed, IsUniverse}
use tckr.Simulated.Runs.{run-IsListed, run-IsListing}
use tckr.Simulated.Samples.{IsReconstructed, compute_backfilled_session-IsReconstructed}
use tckr.Simulated.Sessions.{ensure_session_for, is_market_open}
use tckr.Simulated.State.{Platform, SimulatedSourceConfig, Simulator, simulated_source}
use tckr.Tests.Clocks.{standard_time, thursday, at_noon}

abbrev comi : SimSymbol
comi = record {
  symbol = "COMI";
  name = "Commercial International Bank";
  reference_price = 56 ∷ 50 ∷ b'.' ∷ 53 ∷ [];
  tick_size = 48 ∷ b'.' ∷ 48 ∷ 53 ∷ [];
  lot_size = 10;
  weight = 300;
}

abbrev hrho : SimSymbol
hrho = record {
  symbol = "HRHO";
  name = "EFG Holding";
  reference_price = 49 ∷ 57 ∷ [];
  tick_size = 48 ∷ b'.' ∷ 48 ∷ 49 ∷ [];
  lot_size = 100;
  weight = 100;
}

abbrev two_symbols : List SimSymbol
two_symbols = comi ∷ hrho ∷ []

abbrev platform : Platform
platform = record {
  cairo_formatter = standard_time;
  to_iso_string = λ t. "2026-11-26T10:00:00.000Z";
  sim_symbols = two_symbols;
}

abbrev slow_tape : SimulatedSourceConfig
slow_tape = record {
  events_per_second = 20;
  delayed_offset_ms = 15000;
  seed = 20260912;
  demo_user = "user-002";
}

-- The first draws of the generator, as mulberry32 gives them for a seed of 1.
first_draws : ((next (mulberry32 1)).1 ≡ 2693262067) × ((next (next (mulberry32 1)).0).1 ≡ 11749833)
unfolding next mulberry32
first_draws = (refl, refl)

two_symbols-IsUniverse : IsUniverse two_symbols
unfolding is_decimal to_scaled_int of_digits index_of pad_end
two_symbols-IsUniverse =
    ((refl, refl, omega arith), (refl, tt), ((refl, refl, omega arith), tt, tt))

some_weight : 0 < total_weight 0 two_symbols
unfolding total_weight
some_weight = omega arith

pick-IsBand_example :
    (picked : SimSymbol) × (pick two_symbols 3500000000 ≡ some picked)
    × IsBand (3500000000 * total_weight 0 two_symbols) 0 two_symbols picked
pick-IsBand_example = pick-IsBand two_symbols 3500000000 (omega arith) some_weight

comi_tick : HasTick comi
unfolding to_scaled_int of_digits index_of pad_end
comi_tick = omega arith

compute_backfilled_session-IsReconstructed_example :
    (session : ℤ × Backfill) × (compute_backfilled_session comi (pos 100000) (pos 250000) 7
      ≡ some session)
    × IsReconstructed comi (pos 100000) (pos 250000) session
compute_backfilled_session-IsReconstructed_example =
    compute_backfilled_session-IsReconstructed comi (pos 100000) (pos 250000) 7 comi_tick

two_ticks : All HasTick two_symbols
unfolding to_scaled_int of_digits index_of pad_end
two_ticks = (comi_tick, (omega arith, tt))

-- A day at the market: a page opens, two snapshots are asked for, one of them of an unknown symbol, and
-- the connection drops.
abbrev noon : ℕ
noon = 1795687200000

abbrev morning : List (ℕ × Event)
morning =
    (noon, Event.connect_called)
    ∷ (noon, Event.subscribe_called ("COMI" ∷ "NONE" ∷ []))
    ∷ (noon, Event.batch_due)
    ∷ (noon, Event.snapshot_called "COMI" 1)
    ∷ (noon, Event.snapshot_called "NONE" 2)
    ∷ []

abbrev new_source : Simulator
new_source = simulated_source platform slow_tape fresh empty_store

run-IsListed_example :
    All
      (IsListed
        (run platform
          (morning ++ (noon, Event.dropped token_expired) ∷ [])
          new_source).0.runtime_by_symbol)
      two_symbols
run-IsListed_example =
    run-IsListed platform slow_tape fresh empty_store
      (morning ++ (noon, Event.dropped token_expired) ∷ []) two_symbols-IsUniverse

run-ensure_session_for_example :
    let s = (run platform morning new_source).0 in
    let o = ensure_session_for platform noon s in
    (o.threw ≡ false)
    × (answers_in o.output ≡ map (λ r. r.id) s.snapshot_requests)
    × (o.state.snapshot_requests ≡ [])
    × (o.state.interval_handle ≡ is_market_open (opened (session_on standard_time thursday)))
run-ensure_session_for_example =
    run-ensure_session_for platform slow_tape fresh empty_store morning noon
      (opened (session_on standard_time thursday)) two_symbols-IsUniverse two_ticks at_noon

abbrev delayed_tick : String → Tick
delayed_tick symbol = record {
  s = symbol;
  p = 56 ∷ 50 ∷ [];
  q = pos 10;
  k = trade;
  t = "2026-11-26T10:00:00.000Z";
  id = "evt-000000000001";
  st = delayed;
}

-- Two of three ticks are due, and one of the two is of a symbol that no one subscribed to.
abbrev delaying : Simulator
delaying = record new_source {
  subscribed = "COMI" ∷ [];
  delay_queue =
      record { tick = delayed_tick "COMI"; release_at = 100 }
      ∷ record { tick = delayed_tick "HRHO"; release_at = 150 }
      ∷ record { tick = delayed_tick "COMI"; release_at = 300 }
      ∷ [];
}

drain_delayed_queue-IsDrained_example :
    IsDrained 200 delaying.delay_queue delaying (drain_delayed_queue 200 delaying)
drain_delayed_queue-IsDrained_example = drain_delayed_queue-IsDrained 200 delaying

generate_times-IsGenerated_example :
    IsGenerated platform noon 100
      (run platform morning new_source).0
      (generate_times platform noon 100 (run platform morning new_source).0)
generate_times-IsGenerated_example =
    generate_times-IsGenerated platform noon 100 (run platform morning new_source).0 some_weight
      (run-IsListing platform slow_tape fresh empty_store morning two_symbols-IsUniverse)
