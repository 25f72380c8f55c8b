-- ===== src/Simulated/Delivered.antt =====
-- data/SimulatedSource.ts: where a generated tick goes.
use tckr.Prelude.{
  ℕ, ◌+◌, ◌≤◌, ◌≡◌, refl, ap, sym, ◌∙◌, false, List, [], ◌∷◌, ◌++◌, ◌⊎◌, map, String, append-nil,
  append_assoc, if◌then◌else◌, Bool-cases, inl, inr,
}
use mathlib.Core.List.{map-append}
use tckr.Prelude.Int.{ℤ}
use tckr.Text.{Text}
use tckr.Contracts.{Tick, Stream, live, delayed}
use tckr.Decimal.{from_scaled_int}
use tckr.JsMap.{has}
use tckr.Simulated.Answers.{decimal_from_scaled-from_scaled_int}
use tckr.Simulated.Delays.{told, told-append, told-frame_calls}
use tckr.Simulated.Engine.{emit, deliver, announce, current_stream}
use tckr.Dispatcher.{push}
use tckr.Simulated.State.{DelayedEnvelope, Simulator, Act, done, Outcome, ◌>>◌, decimal_from_scaled}

-- The ticks of subscribed symbols.
abbrev pub subscribed_of : List String → List Tick → List Tick
subscribed_of subscribed [] = []
subscribed_of subscribed (tick ∷ ticks) =
    if has tick.s subscribed
    then tick ∷ subscribed_of subscribed ticks
    else subscribed_of subscribed ticks

abbrev pub envelope : ℕ → Tick → DelayedEnvelope
envelope release_at tick = record { tick = tick; release_at = release_at }

-- Live ticks are told to the handlers at once, where they are subscribed to; delayed ones all wait at the
-- end of the queue.
abbrev pub IsDelivered :
    Stream → ℕ → List Tick → List String → List DelayedEnvelope → Outcome → Type 0
IsDelivered live release_at ticks subscribed queue o =
    (told o.output ≡ subscribed_of subscribed ticks) × (o.state.delay_queue ≡ queue)
IsDelivered delayed release_at ticks subscribed queue o =
    (told o.output ≡ []) × (o.state.delay_queue ≡ queue ++ map (envelope release_at) ticks)

-- What a tick does not change.
abbrev pub IsSteady : Simulator → Simulator → Type 0
IsSteady s s' =
    (s'.config ≡ s.config) × (s'.identity_value ≡ s.identity_value) × (s'.subscribed ≡ s.subscribed)

Stream-cases : (stream : Stream) → (stream ≡ live) ⊎ (stream ≡ delayed)
Stream-cases live = inl refl
Stream-cases delayed = inr refl

emit_lem :
    (release_at : ℕ) (tick : Tick) (s : Simulator)
    → let o = emit tick s in
      (o.threw ≡ false)
      × (o.state.global_event_seq ≡ s.global_event_seq)
      × IsSteady s o.state
      × IsDelivered live release_at (tick ∷ []) s.subscribed s.delay_queue o
unfolding emit
emit_lem release_at tick s = elim (Bool-cases (has tick.s s.subscribed)) [
  | inl there ↦ rw there (
    refl,
    refl,
    (refl, refl, refl),
    (ap (λ t. tick ∷ t) (told-frame_calls (push tick s.dispatcher).1), refl),
  )
  | inr missing ↦ rw missing (refl, refl, (refl, refl, refl), (refl, refl))
]

deliver_lem :
    (now : ℕ) (tick : Tick) (s : Simulator)
    → let o = deliver now tick s in
      (o.threw ≡ false)
      × (o.state.global_event_seq ≡ s.global_event_seq)
      × IsSteady s o.state
      × IsDelivered
          (current_stream s)
          (now + s.config.delayed_offset_ms)
          (tick ∷ [])
          s.subscribed
          s.delay_queue
          o
unfolding deliver
deliver_lem now tick s = elim (Stream-cases (current_stream s)) [
  | inl at_once ↦ rw (at_once, deliver) (emit_lem (now + s.config.delayed_offset_ms) tick s)
  | inr later ↦ rw (later, deliver) (refl, refl, (refl, refl, refl), (refl, refl))
]

pub announce_lem :
    (now : ℕ) (tick : Text → Tick) (z : ℤ) (decimals : ℕ) (s : Simulator)
    → decimals ≤ 4
    → let o = announce now tick (decimal_from_scaled z decimals) s in
      (o.threw ≡ false)
      × (o.state.global_event_seq ≡ s.global_event_seq)
      × IsSteady s o.state
      × IsDelivered
          (current_stream s)
          (now + s.config.delayed_offset_ms)
          (tick (from_scaled_int z decimals) ∷ [])
          s.subscribed
          s.delay_queue
          o
announce_lem now tick z decimals s few =
    rw (decimal_from_scaled-from_scaled_int z decimals few)
      (deliver_lem now (tick (from_scaled_int z decimals)) s)

subscribed_of-append :
    (subscribed : List String) (xs ys : List Tick)
    → subscribed_of subscribed (xs ++ ys)
      ≡ subscribed_of subscribed xs ++ subscribed_of subscribed ys
subscribed_of-append subscribed [] ys = refl
subscribed_of-append subscribed (x ∷ xs) ys = elim (Bool-cases (has x.s subscribed)) [
  | inl there ↦ rw there (ap (λ t. x ∷ t) (subscribed_of-append subscribed xs ys))
  | inr missing ↦ rw missing (subscribed_of-append subscribed xs ys)
]

-- One delivery after another.
pub IsDelivered-append :
    (stream : Stream) (release_at : ℕ) (xs ys : List Tick) (s : Simulator) (f g : Act)
    → (f s).threw ≡ false
    → (f s).state.subscribed ≡ s.subscribed
    → IsDelivered stream release_at xs s.subscribed s.delay_queue (f s)
    → IsDelivered stream release_at ys
        (f s).state.subscribed
        (f s).state.delay_queue
        (g (f s).state)
    → IsDelivered stream release_at (xs ++ ys) s.subscribed s.delay_queue ((f >> g) s)
IsDelivered-append live release_at xs ys s f g threw same (first, kept) (then_, kept') = rw threw (
  told-append (f s).output (g (f s).state).output
      ∙ ap (λ t. t ++ told (g (f s).state).output) first
      ∙ ap (λ t. subscribed_of s.subscribed xs ++ t) (then_ ∙ ap (λ b. subscribed_of b ys) same)
      ∙ sym (subscribed_of-append s.subscribed xs ys),
  kept' ∙ kept,
)
IsDelivered-append delayed release_at xs ys s f g threw same (first, queued) (then_, queued') =
    rw threw (
      told-append (f s).output (g (f s).state).output
          ∙ ap (λ t. t ++ told (g (f s).state).output) first
          ∙ then_,
      queued'
          ∙ ap (λ q. q ++ map (envelope release_at) ys) queued
          ∙ append_assoc s.delay_queue (map (envelope release_at) xs) (map (envelope release_at) ys)
          ∙ ap (λ q. s.delay_queue ++ q) (sym (map-append (envelope release_at) xs ys)),
    )

pub none-IsDelivered :
    (stream : Stream) (release_at : ℕ) (s : Simulator)
    → IsDelivered stream release_at [] s.subscribed s.delay_queue (done s)
none-IsDelivered live release_at s = (refl, refl)
none-IsDelivered delayed release_at s = (refl, sym (append-nil s.delay_queue))
