-- ===== src/Simulated/Batches.antt =====
-- data/SimulatedSource.ts: the ticks that a batch generates, and where they go.
use tckr.Prelude.{
  some, ℕ, zero, suc, ◌+◌, ◌*◌, ◌≤◌, ◌<◌, ◌≡◌, refl, ap, sym, ◌∙◌, arith, false, List, [], ◌∷◌,
  ◌++◌, map, String, All, All-append,
}
use Prim.{tt}
use mathlib.Core.Path.{subst}
use mathlib.Core.List.{map-append}
use tckr.Prelude.Int.{pos}
use Prim.Native.String.{◌++◌ as join}
use tckr.Contracts.{Tick, Stream}
use tckr.JsMap.{lookup}
use tckr.Simulated.{SimSymbol, next, total_weight, pick, scaled_draw, pick_signed_steps}
use tckr.Simulated.Delivered.{
  IsDelivered, IsSteady, IsDelivered-append, none-IsDelivered, announce_lem,
}
use tckr.Simulated.Draws.{next_bound, scaled_draw_bound, pick-IsBand, pick_All}
use tckr.Simulated.Engine.{
  generate_for, generate_one, generate_times, moved_runtime, live_max_steps_per_tick, stream_or,
  current_stream,
}
use tckr.Simulated.Listing.{IsListed, IsOneOf, IsOneOf-self}
use tckr.Simulated.Prices.{Lists, generate_one-Keeps}
use tckr.Simulated.State.{
  SymbolRuntime, Simulator, Platform, Act, SimulatedSourceConfig, Outcome, ◌>>◌, padded,
}

-- The ids of the next ticks after as many as there have been.
abbrev pub event_ids : ℕ → ℕ → List String
event_ids seq zero = []
event_ids seq (suc n) = join "evt-" (padded 12 (seq + 1)) ∷ event_ids (seq + 1) n

-- What a tick of a batch is: of a symbol of the universe, of one to five of its lots, stamped with the
-- stream and the time.
abbrev pub IsGenuine : Platform → ℕ → Stream → Tick → Type 0
IsGenuine w now stream tick =
    ((def : SimSymbol) × IsOneOf w.sim_symbols def
      × (tick.s ≡ def.symbol)
      × (lots : ℕ) × (1 ≤ lots)
      × (lots ≤ 5)
      × (tick.q ≡ pos (def.lot_size * lots)))
    × (tick.st ≡ stream)
    × (tick.t ≡ w.to_iso_string (pos now))

-- An outcome that has generated ticks.
abbrev pub IsGenerated : Platform → ℕ → ℕ → Simulator → Outcome → Type 0
IsGenerated w now n s o =
    (o.threw ≡ false)
    × (o.state.global_event_seq ≡ s.global_event_seq + n)
    × (ticks : List Tick) × (map (λ t. t.id) ticks ≡ event_ids s.global_event_seq n)
    × All (IsGenuine w now (current_stream s)) ticks
    × IsDelivered (current_stream s) (now + s.config.delayed_offset_ms) ticks s.subscribed
        s.delay_queue o

generate_for-IsGenerated :
    (w : Platform) (now : ℕ) (def : SimSymbol) (runtime : SymbolRuntime) (s : Simulator)
    → runtime.decimals ≤ 4
    → IsOneOf w.sim_symbols def
    → IsGenerated w now 1 s (generate_for w now def runtime s)
      × IsSteady s (generate_for w now def runtime s).state
unfolding generate_for
generate_for-IsGenerated w now def runtime s few one =
    let steps = pick_signed_steps s.prng runtime.price runtime.open_price live_max_steps_per_tick in
    let kind_roll = next steps.0 in
    let lots_roll = next kind_roll.0 in
    let lots = scaled_draw lots_roll.1 5 in
    let short : lots < 5 = scaled_draw_bound _ 5 (next_bound kind_roll.0).1 (omega arith) in
    let quantity = def.lot_size * (1 + lots) in
    let event_id = join "evt-" (padded 12 (s.global_event_seq + 1)) in
    let moved = moved_runtime def steps.1 quantity event_id (w.to_iso_string (pos now)) runtime in
    let (threw, seq, steady, delivered) = announce_lem now _ moved.price moved.decimals _ few in
    (
      (
        threw,
        seq,
        _,
        refl,
        (((def, one, refl, 1 + lots, omega arith, omega arith, refl), refl, refl), tt),
        delivered,
      ),
      steady,
    )

generate_one-picked :
    (w : Platform) (now : ℕ) (def : SimSymbol) (r : SymbolRuntime) (s : Simulator)
    → pick w.sim_symbols (next s.prng).1 ≡ some def
    → lookup def.symbol s.runtime_by_symbol ≡ some r
    → generate_one w now s ≡ generate_for w now def r (record s { prng = (next s.prng).0 })
unfolding generate_one
generate_one-picked w now def r s hit found = rw (hit, found, generate_one) refl

rolled-IsGenerated :
    (w : Platform) (now rng : ℕ) (s : Simulator) (o : Outcome)
    → IsGenerated w now 1 (record s { prng = rng }) o × IsSteady (record s { prng = rng }) o.state
    → IsGenerated w now 1 s o × IsSteady s o.state
rolled-IsGenerated w now rng s o h = h

generate_one-IsGenerated :
    (w : Platform) (now : ℕ) (s : Simulator)
    → 0 < total_weight 0 w.sim_symbols
    → Lists w s
    → IsGenerated w now 1 s (generate_one w now s) × IsSteady s (generate_one w now s).state
generate_one-IsGenerated w now s some_weight h =
    let (def, hit, band) =
      pick-IsBand w.sim_symbols (next s.prng).1 (next_bound s.prng).1 some_weight in
    let (r, found, own, sound) =
      pick_All (IsListed s.runtime_by_symbol) w.sim_symbols (next s.prng).1 def h.0 hit in
    let one =
      pick_All (IsOneOf w.sim_symbols) w.sim_symbols (next s.prng).1 def
        (IsOneOf-self w.sim_symbols) hit in
    let rolled : Simulator = record s { prng = (next s.prng).0 } in
    subst (λ (o : Outcome). IsGenerated w now 1 s o × IsSteady s o.state)
      (sym (generate_one-picked w now def r s hit found))
      (rolled-IsGenerated w now (next s.prng).0 s (generate_for w now def r rolled)
        (generate_for-IsGenerated w now def r rolled sound.1 one))

IsGenerated-append :
    (w : Platform) (now n : ℕ) (s : Simulator) (f g : Act)
    → IsGenerated w now 1 s (f s)
    → IsSteady s (f s).state
    → IsGenerated w now n (f s).state (g (f s).state)
    → IsGenerated w now (suc n) s ((f >> g) s)
IsGenerated-append w now n s f g (threw, seq, xs, ids, genuine, delivered)
      (config, identity, subscribed) (threw', seq', ys, ids', genuine', delivered') =
    let stream : current_stream (f s).state ≡ current_stream s =
      ap (λ i. stream_or i (f s).state.config.demo_user) identity
      ∙ ap (λ c. stream_or s.identity_value c.demo_user) config in
    let release_at = now + s.config.delayed_offset_ms in
    let rest : IsDelivered (current_stream s) release_at ys (f s).state.subscribed
        (f s).state.delay_queue (g (f s).state) =
      subst
        (λ (x : Stream).
          IsDelivered x release_at ys (f s).state.subscribed (f s).state.delay_queue
            (g (f s).state))
        stream
        (subst
          (λ (c : SimulatedSourceConfig).
            IsDelivered (current_stream (f s).state) (now + c.delayed_offset_ms) ys
              (f s).state.subscribed (f s).state.delay_queue (g (f s).state))
          config delivered') in
    let both =
      IsDelivered-append (current_stream s) release_at xs ys s f g threw subscribed delivered
        rest in
    (
      rw threw threw',
      rw threw (seq' ∙ omega arith),
      xs ++ ys,
      map-append (λ t. t.id) xs ys
          ∙ ap (λ t. t ++ map (λ t. t.id) ys) ids
          ∙ ap (λ t. event_ids s.global_event_seq 1 ++ t) (ids' ∙ ap (λ k. event_ids k n) seq),
      All-append (IsGenuine w now (current_stream s)) xs ys genuine
          (subst (λ (x : Stream). All (IsGenuine w now x) ys) stream genuine'),
      both,
    )

-- Where the weights are not all zero and each symbol of the universe has its runtime, as it has after any
-- run, as many ticks are generated as are asked for, without an error. Their ids count on, one by one;
-- each is of a symbol of the universe, of one to five of its lots, stamped with the stream and the time.
-- On the live stream those of subscribed symbols, and no others, are told to the handlers, in order; on
-- the delayed one all of them wait at the end of the queue, and none is told.
pub generate_times-IsGenerated :
    (w : Platform) (now n : ℕ) (s : Simulator)
    → 0 < total_weight 0 w.sim_symbols
    → Lists w s
    → IsGenerated w now n s (generate_times w now n s)
unfolding generate_times
generate_times-IsGenerated w now zero s some_weight h =
    (refl, omega arith, [], refl, tt, none-IsDelivered (current_stream s) _ s)
generate_times-IsGenerated w now (suc n) s some_weight h =
    let (generated, steady) = generate_one-IsGenerated w now s some_weight h in
    IsGenerated-append w now n s (generate_one w now) (generate_times w now n) generated steady (
      generate_times-IsGenerated w now n (generate_one w now s).state some_weight
        (generate_one-Keeps w now s h))
