-- ===== src/Simulated/Writes.antt =====
-- data/SimulatedSource.ts: which of its private methods write to a symbol's runtime, and what a generated
-- tick writes there.
use tckr.Prelude.{
  ℕ, ◌+◌, ◌*◌, ◌≡◌, refl, ◌∙◌, arith, Option, none, some, List, [], ◌∷◌, String, ltb, Bool-cases,
  inl, inr,
}
use tckr.Prelude.Int.{ℤ, pos, ◌*ℤ◌, ◌+ℤ◌}
use mathlib.Core.Path.{subst}
use Prim.Native.String.{◌++◌ as join}
use tckr.Text.{Text}
use tckr.Contracts.{Tick}
use tckr.JsMap.{insert}
use tckr.Simulated.{SimSymbol, next, pick_signed_steps, tick_of, scaled_draw}
use tckr.Simulated.Backfills.{move-IsSession}
use tckr.Simulated.Engine.{
  announce, moved_runtime, live_max_steps_per_tick, emit, deliver, drain_queue, generate_for,
}
use tckr.Simulated.Sessions.{answer, answer_each}
use tckr.Simulated.Listing.{IsSound}
use tckr.Simulated.State.{
  padded, SymbolRuntime, DelayedEnvelope, SnapshotRequest, Simulator, Platform, Act, ◌>>◌,
  decimal_from_scaled,
}

-- An act that writes to no runtime.
abbrev pub LeavesRuntimes : Act → Type 0
LeavesRuntimes f = (s : Simulator) → (f s).state.runtime_by_symbol ≡ s.runtime_by_symbol

pub follow_leaves : (f g : Act) → LeavesRuntimes f → LeavesRuntimes g → LeavesRuntimes (f >> g)
follow_leaves f g hf hg s = elim (Bool-cases (f s).threw) [
  | inl threw ↦ rw threw (hf s)
  | inr went_on ↦ rw went_on (hg (f s).state ∙ hf s)
]

pub emit_leaves : (tick : Tick) → LeavesRuntimes (emit tick)
unfolding emit
emit_leaves tick s = ground arith

pub deliver_leaves : (now : ℕ) (tick : Tick) → LeavesRuntimes (deliver now tick)
unfolding deliver emit
deliver_leaves now tick s = ground arith

announce_leaves :
    (now : ℕ) (tick : Text → Tick) (price : Option Text) → LeavesRuntimes (announce now tick price)
announce_leaves now tick none s = refl
announce_leaves now tick (some price) s = deliver_leaves now (tick price) s

pub drain_queue_leaves :
    (now : ℕ) (queue : List DelayedEnvelope) → LeavesRuntimes (drain_queue now queue)
unfolding drain_queue
drain_queue_leaves now [] s = refl
drain_queue_leaves now (head ∷ queue) s =
    let rest =
      follow_leaves (emit head.tick) (drain_queue now queue) (emit_leaves head.tick)
        (drain_queue_leaves now queue) s in
    elim (Bool-cases (ltb now head.release_at)) [
      | inl early ↦ rw early refl
      | inr due ↦ rw due rest
    ]

answer_leaves : (now : ℕ) (request : SnapshotRequest) → LeavesRuntimes (answer now request)
unfolding answer
answer_leaves now request s = ground arith

pub answer_each_leaves :
    (now : ℕ) (requests : List SnapshotRequest) → LeavesRuntimes (answer_each now requests)
unfolding answer_each
answer_each_leaves now [] s = refl
answer_each_leaves now (request ∷ requests) s =
    follow_leaves (answer now request) (answer_each now requests) (answer_leaves now request)
      (answer_each_leaves now requests) s

-- A move of the price, and a sample of it, leave a sound runtime.
moved_runtime-IsSound :
    (steps : ℤ) (quantity : ℕ) (event_id timestamp : String) (r : SymbolRuntime)
    → IsSound r
    → IsSound (moved_runtime r.def steps quantity event_id timestamp r)
moved_runtime-IsSound steps quantity event_id timestamp r (session, places) =
    (move-IsSession session (r.price +ℤ tick_of r.def *ℤ steps), places)

pub generate_for_runtimes :
    (w : Platform) (now : ℕ) (def : SimSymbol) (runtime : SymbolRuntime) (s : Simulator)
    → (moved : SymbolRuntime) × ((generate_for w now def runtime s).state.runtime_by_symbol
        ≡ insert def.symbol moved s.runtime_by_symbol)
      × (moved.def ≡ runtime.def)
      × (runtime.def ≡ def → IsSound runtime → IsSound moved)
unfolding generate_for
generate_for_runtimes w now def runtime s =
    let steps = pick_signed_steps s.prng runtime.price runtime.open_price live_max_steps_per_tick in
    let kind_roll = next steps.0 in
    let lots_roll = next kind_roll.0 in
    let quantity = def.lot_size * (1 + scaled_draw lots_roll.1 5) in
    let event_id = join "evt-" (padded 12 (s.global_event_seq + 1)) in
    let timestamp = w.to_iso_string (pos now) in
    let moved = moved_runtime def steps.1 quantity event_id timestamp runtime in
    (
      moved,
      announce_leaves now _ (decimal_from_scaled moved.price moved.decimals) _,
      refl,
      λ own sound.
          subst (λ d. IsSound (moved_runtime d steps.1 quantity event_id timestamp runtime)) own
            (moved_runtime-IsSound steps.1 quantity event_id timestamp runtime sound),
    )
