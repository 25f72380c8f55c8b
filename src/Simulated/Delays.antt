-- ===== src/Simulated/Delays.antt =====
-- data/SimulatedSource.ts: which of the delayed ticks `drainDelayedQueue` releases, and to whom.
use tckr.Prelude.{
  ℕ, ◌≤◌, ◌<◌, ◌≡◌, refl, ap, sym, ◌∙◌, Bool, true, false, List, [], ◌∷◌, ◌++◌, String, ltb,
  if◌then◌else◌, Bool-cases, inl, inr, All, ltb→lt, ltb_false→le, append_assoc,
}
use tckr.Contracts.{Tick}
use tckr.JsMap.{has}
use tckr.Dispatcher.{TickDispatcher, push}
use tckr.Simulated.Engine.{emit, frame_calls, drain_queue, drain_delayed_queue}
use tckr.Simulated.State.{
  DelayedEnvelope, Simulator, Output, status, error_event, tick_event, entitlement_event,
  schedule_frame, store_calls, snapshot_resolved, snapshot_rejected, history_resolved, Outcome,
}

-- What the handlers of `on.tick` are told.
abbrev pub told_by : Output → List Tick
told_by (tick_event tick) = tick ∷ []
told_by (status state) = []
told_by (error_event message) = []
told_by (entitlement_event message) = []
told_by schedule_frame = []
told_by (store_calls calls) = []
told_by (snapshot_resolved id snapshot) = []
told_by (snapshot_rejected id) = []
told_by (history_resolved response) = []

abbrev pub told : List Output → List Tick
told [] = []
told (output ∷ outputs) = told_by output ++ told outputs

pub told-append : (xs ys : List Output) → told (xs ++ ys) ≡ told xs ++ told ys
told-append [] ys = refl
told-append (x ∷ xs) ys =
    ap (λ t. told_by x ++ t) (told-append xs ys)
    ∙ sym (append_assoc (told_by x) (told xs) (told ys))

-- The released ticks whose symbols are subscribed to.
abbrev pub wanted : List String → List DelayedEnvelope → List Tick
wanted subscribed [] = []
wanted subscribed (e ∷ released) =
    if has e.tick.s subscribed
    then e.tick ∷ wanted subscribed released
    else wanted subscribed released

-- The dispatcher after ticks have been pushed in order.
abbrev pub push_each : List Tick → TickDispatcher → TickDispatcher
push_each [] d = d
push_each (tick ∷ ticks) d = push_each ticks (push tick d).0

abbrev pub IsEarly : ℕ → List DelayedEnvelope → Type 0
IsEarly now [] = Unit
IsEarly now (e ∷ kept) = now < e.release_at

abbrev pub IsDrained : ℕ → List DelayedEnvelope → Simulator → Outcome → Type 0
IsDrained now queue s o =
    (released : List DelayedEnvelope) × (kept : List DelayedEnvelope) × (queue ≡ released ++ kept)
    × All (λ e. e.release_at ≤ now) released
    × IsEarly now kept
    × (o.state.delay_queue ≡ kept)
    × (told o.output ≡ wanted s.subscribed released)
    × (o.state.dispatcher ≡ push_each (wanted s.subscribed released) s.dispatcher)

pub told-frame_calls : (scheduled : Bool) → told (frame_calls scheduled) ≡ []
told-frame_calls true = refl
told-frame_calls false = refl

-- A tick goes to the handlers and to the dispatcher if its symbol is subscribed to, and else nowhere.
emit-told :
    (e : DelayedEnvelope) (s : Simulator)
    → let o = emit e.tick s in
      (o.threw ≡ false)
      × (o.state.subscribed ≡ s.subscribed)
      × (told o.output ≡ wanted s.subscribed (e ∷ []))
      × (o.state.dispatcher ≡ push_each (wanted s.subscribed (e ∷ [])) s.dispatcher)
unfolding emit
emit-told e s = elim (Bool-cases (has e.tick.s s.subscribed)) [
  | inl there ↦
      rw there
        (refl, refl, ap (λ t. e.tick ∷ t) (told-frame_calls (push e.tick s.dispatcher).1), refl)
  | inr missing ↦ rw missing (refl, refl, refl, refl)
]

wanted_first :
    (subscribed : List String) (e : DelayedEnvelope) (released : List DelayedEnvelope)
    → wanted subscribed (e ∷ released) ≡ wanted subscribed (e ∷ []) ++ wanted subscribed released
wanted_first subscribed e released = elim (Bool-cases (has e.tick.s subscribed)) [
  | inl there ↦ rw there refl
  | inr missing ↦ rw missing refl
]

push_each-append :
    (xs ys : List Tick) (d : TickDispatcher)
    → push_each (xs ++ ys) d ≡ push_each ys (push_each xs d)
push_each-append [] ys d = refl
push_each-append (x ∷ xs) ys d = push_each-append xs ys (push x d).0

drain_queue-IsDrained :
    (now : ℕ) (queue : List DelayedEnvelope) (s : Simulator)
    → IsDrained now queue s (drain_queue now queue s)
unfolding drain_queue
drain_queue-IsDrained now [] s = ([], [], refl, tt, tt, refl, refl, refl)
drain_queue-IsDrained now (e ∷ queue) s =
    let o = emit e.tick s in
    let (threw, subscribed, ticks, pushed) = emit-told e s in
    let (released, kept, split, due, early, rest, told_rest, pushed_rest) =
      drain_queue-IsDrained now queue o.state in
    elim (Bool-cases (ltb now e.release_at)) [
      | inl not_yet ↦ rw not_yet ([], e ∷ queue, refl, tt, ltb→lt _ _ not_yet, refl, refl, refl)
      | inr time ↦
          rw (time, threw)
            (
              e ∷ released,
              kept,
              ap (λ q. e ∷ q) split,
              (ltb_false→le _ _ time, due),
              early,
              rest,
              told-append o.output (drain_queue now queue o.state).output
                  ∙ ap (λ t. t ++ told (drain_queue now queue o.state).output) ticks
                  ∙ ap (λ t. wanted s.subscribed (e ∷ []) ++ t)
                      (told_rest ∙ ap (λ b. wanted b released) subscribed)
                  ∙ sym (wanted_first s.subscribed e released),
              pushed_rest
                  ∙ ap (λ b. push_each (wanted b released) o.state.dispatcher) subscribed
                  ∙ ap (push_each (wanted s.subscribed released)) pushed
                  ∙ sym (
                      push_each-append (wanted s.subscribed (e ∷ [])) (wanted s.subscribed released)
                        s.dispatcher)
                  ∙ ap (λ t. push_each t s.dispatcher) (sym (wanted_first s.subscribed e released)),
            )
    ]

-- Draining releases the longest run of ticks at the head of the queue that are due, and keeps the rest:
-- of those released, the ticks of subscribed symbols, and no others, are told to the handlers and pushed
-- to the dispatcher, in the order of the queue.
pub drain_delayed_queue-IsDrained :
    (now : ℕ) (s : Simulator) → IsDrained now s.delay_queue s (drain_delayed_queue now s)
unfolding drain_delayed_queue
drain_delayed_queue-IsDrained now s = drain_queue-IsDrained now s.delay_queue s
