-- ===== src/Dispatcher/Quantity.antt =====
-- No traded quantity is lost in coalescing: what data/TickDispatcher.ts has flushed and what it still
-- holds add up to what was pushed, symbol by symbol.
use tckr.Prelude.{
  ◌≡◌, refl, ap, sym, ◌∙◌, Option, none, some, List, [], ◌∷◌, ◌++◌, if◌then◌else◌, length, arith,
  String, str_eq, eq_iff, Bool-cases, inl, inr,
}
use tckr.Prelude.Int.{ℤ, pos, ◌+ℤ◌, +ℤ_comm, +ℤ_assoc, +ℤ_swap, zero-+ℤ}
use tckr.Contracts.{Tick}
use tckr.JsMap.{JsMap, lookup, insert, values}
use tckr.Dispatcher.{TickDispatcher, coalesce, push, flush_now}

-- The quantity that a tick brings to a symbol.
abbrev pub share : String → Tick → ℤ
share symbol tick = if str_eq tick.s symbol then tick.q else pos 0

-- The quantity of one symbol in a list of ticks.
abbrev pub traded : String → List Tick → ℤ
traded symbol [] = pos 0
traded symbol (tick ∷ ticks) = share symbol tick +ℤ traded symbol ticks

-- Each pending tick stands under its own symbol.
abbrev pub IsKeyed : JsMap Tick → Type 0
IsKeyed [] = Unit
IsKeyed ((k, tick) ∷ m) = (tick.s ≡ k) × IsKeyed m

traded-append :
    (symbol : String) (xs ys : List Tick)
    → traded symbol (xs ++ ys) ≡ traded symbol xs +ℤ traded symbol ys
traded-append symbol [] ys = sym (zero-+ℤ (traded symbol ys))
traded-append symbol (x ∷ xs) ys =
    ap (λ z. share symbol x +ℤ z) (traded-append symbol xs ys)
    ∙ sym (+ℤ_assoc (share symbol x) (traded symbol xs) (traded symbol ys))

coalesce-s : (o : Option Tick) (tick : Tick) → (coalesce o tick).s ≡ tick.s
coalesce-s none tick = refl
coalesce-s (some existing) tick = refl

insert-IsKeyed :
    (tick : Tick) (o : Option Tick) (m : JsMap Tick)
    → IsKeyed m
    → IsKeyed (insert tick.s (coalesce o tick) m)
unfolding insert
insert-IsKeyed tick o [] h = (coalesce-s o tick, tt)
insert-IsKeyed tick o ((j, x) ∷ m) (p, h) = elim (Bool-cases (str_eq j tick.s)) [
  | inl same ↦ rw same (coalesce-s o tick ∙ sym ((eq_iff j tick.s).0 same), h)
  | inr other ↦ rw other (p, insert-IsKeyed tick o m h)
]

share-coalesce :
    (symbol : String) (existing tick : Tick)
    → existing.s ≡ tick.s
    → share symbol (coalesce (some existing) tick) ≡ share symbol existing +ℤ share symbol tick
share-coalesce symbol existing tick e = elim (Bool-cases (str_eq tick.s symbol)) [
  | inl same ↦ rw (e, same)
  | inr other ↦ rw (e, other) (sym (zero-+ℤ (pos 0)))
]

traded-insert :
    (symbol : String) (tick : Tick) (o : Option Tick) (m : JsMap Tick)
    → IsKeyed m
    → lookup tick.s m ≡ o
    → traded symbol (values (insert tick.s (coalesce o tick) m))
      ≡ traded symbol (values m) +ℤ share symbol tick
unfolding insert lookup
traded-insert symbol tick o [] h e = rw (← e) (+ℤ_comm (share symbol tick) (pos 0))
traded-insert symbol tick o ((j, x) ∷ m) (p, h) e = elim (Bool-cases (str_eq j tick.s)) [
  | inl same ↦
      let found : some x ≡ o = rw same at e in
      rw (same, ← found)
        (ap (λ z. z +ℤ traded symbol (values m))
            (share-coalesce symbol x tick (p ∙ (eq_iff j tick.s).0 same))
          ∙ +ℤ_swap (share symbol x) (share symbol tick) (traded symbol (values m)))
  | inr other ↦ rw other (
      ap (λ z. share symbol x +ℤ z) (traded-insert symbol tick o m h (rw other at e))
      ∙ sym (+ℤ_assoc (share symbol x) (traded symbol (values m)) (share symbol tick)))
]

-- What happens to a dispatcher: a tick arrives, or the scheduled frame (or a test) flushes it.
pub data Event : Type 0 where
  pushed : Tick → Event
  frame : Event

abbrev pub arrived : List Event → List Tick
arrived [] = []
arrived (pushed tick ∷ es) = tick ∷ arrived es
arrived (frame ∷ es) = arrived es

-- The dispatcher after the events, and the ticks that reached the sink.
pub run : TickDispatcher → List Event → TickDispatcher × List Tick
run d [] = (d, [])
run d (pushed tick ∷ es) = run (push tick d).0 es
run d (frame ∷ es) =
    let (d', out) = flush_now d in let (d'', rest) = run d' es in (d'', out ++ rest)

push-IsKeyed :
    (tick : Tick) (d : TickDispatcher) → IsKeyed d.pending → IsKeyed (push tick d).0.pending
unfolding push
push-IsKeyed tick d h = insert-IsKeyed tick (lookup tick.s d.pending) d.pending h

traded-push :
    (symbol : String) (tick : Tick) (d : TickDispatcher)
    → IsKeyed d.pending
    → traded symbol (values (push tick d).0.pending)
      ≡ traded symbol (values d.pending) +ℤ share symbol tick
unfolding push
traded-push symbol tick d h = traded-insert symbol tick (lookup tick.s d.pending) d.pending h refl

flush_nothing : (m : JsMap Tick) → length m ≡ 0 → values m ≡ []
flush_nothing [] h = refl
flush_nothing ((j, x) ∷ m) h = absurd (omega arith)

-- A flush hands over all that is pending, and leaves nothing.
pub flush_now-all :
    (d : TickDispatcher) → ((flush_now d).1 ≡ values d.pending) × ((flush_now d).0.pending ≡ [])
unfolding flush_now
flush_now-all d = go d.pending refl
  where
    go :
        (m : JsMap Tick)
        → d.pending ≡ m
        → ((flush_now d).1 ≡ values d.pending) × ((flush_now d).0.pending ≡ [])
    go [] e = rw e (refl, refl)
    go ((j, x) ∷ m) e = rw e (ground arith)

-- For every symbol and every sequence of events, the quantity that reached the sink and the quantity
-- still pending add up to the quantity pending before and all that arrived.
pub run-conserves :
    (symbol : String) (d : TickDispatcher) (es : List Event)
    → IsKeyed d.pending
    → traded symbol (run d es).1 +ℤ traded symbol (values (run d es).0.pending)
      ≡ traded symbol (values d.pending) +ℤ traded symbol (arrived es)
unfolding run
run-conserves symbol d [] h = +ℤ_comm (pos 0) (traded symbol (values d.pending))
run-conserves symbol d (pushed tick ∷ es) h =
    run-conserves symbol (push tick d).0 es (push-IsKeyed tick d h)
    ∙ ap (λ z. z +ℤ traded symbol (arrived es)) (traded-push symbol tick d h)
    ∙ +ℤ_assoc (traded symbol (values d.pending)) (share symbol tick) (traded symbol (arrived es))
run-conserves symbol d (frame ∷ es) h =
    let (out, left) = flush_now-all d in
    let d' = (flush_now d).0 in
    let rest = run d' es in
    ap (λ z. z +ℤ traded symbol (values rest.0.pending))
      (traded-append symbol (flush_now d).1 rest.1)
    ∙ +ℤ_assoc (traded symbol (flush_now d).1) (traded symbol rest.1)
        (traded symbol (values rest.0.pending))
    ∙ ap (λ z. traded symbol (flush_now d).1 +ℤ z) (run-conserves symbol d' es (rw left tt))
    ∙ rw (out, left)
        (ap (λ z. traded symbol (values d.pending) +ℤ z) (zero-+ℤ (traded symbol (arrived es))))
