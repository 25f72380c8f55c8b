-- ===== src/Dispatcher/Frames.antt =====
-- One flush for each animation frame: the counters of data/TickDispatcher.ts, the frames that it
-- schedules, and what a frame delivers.
use tckr.Prelude.{
  ℕ, ◌+◌, ◌-◌, ◌⊎◌, ◌≤◌, ◌<◌, ◌≡◌, refl, ◌∙◌, Bool, true, false, some, List, [], ◌∷◌, ◌++◌, ◌==◌,
  if◌then◌else◌, length, arith, String, str_eq, eq_iff, Bool-cases, inl, inr,
}
use tckr.Contracts.{Tick}
use tckr.JsMap.{
  JsMap, lookup, insert, lookup-insert, length-insert, HasDistinctKeys, insert-HasDistinctKeys,
}
use tckr.Dispatcher.{TickDispatcher, fresh, coalesce, coalesced_by, push, flush_now}

-- Every tick received was flushed, coalesced into another, or is pending; a pending tick is never
-- left without a frame that will flush it; and no symbol is pending twice.
pub record IsAccounted (d : TickDispatcher) : Type 0 where
  pub counted : d.received ≡ d.flushed + d.coalesced + length d.pending
  pub awaited : (d.pending ≡ []) ⊎ (d.frame_requested ≡ true)
  pub distinct : HasDistinctKeys d.pending

pub fresh-IsAccounted : IsAccounted fresh
fresh-IsAccounted = record { counted = refl; awaited = inl refl; distinct = tt }

length-push :
    (tick : Tick) (m : JsMap Tick)
    → length (insert tick.s (coalesce (lookup tick.s m) tick) m) + coalesced_by (lookup tick.s m)
      ≡ length m + 1
length-push tick m = ground (arith, length-insert tick.s (coalesce (lookup tick.s m) tick) m)

pub push-IsAccounted :
    (tick : Tick) (d : TickDispatcher) → IsAccounted d → IsAccounted (push tick d).0
unfolding push
push-IsAccounted tick d h = record {
  counted = omega (arith, h.counted, length-push tick d.pending);
  awaited = inr refl;
  distinct =
      insert-HasDistinctKeys tick.s (coalesce (lookup tick.s d.pending) tick) d.pending h.distinct;
}

nil_of_length : (m : JsMap Tick) → (length m == 0) ≡ true → m ≡ []
nil_of_length [] h = refl
nil_of_length (x ∷ m) h = absurd (ground arith)

pub flush_now-IsAccounted : (d : TickDispatcher) → IsAccounted d → IsAccounted (flush_now d).0
unfolding flush_now
flush_now-IsAccounted d h = elim (Bool-cases (length d.pending == 0)) [
  | inl nothing ↦
      let empty : d.pending ≡ [] = nil_of_length d.pending nothing in
      rw nothing (record { counted = h.counted; awaited = inl empty; distinct = h.distinct })
  | inr some_pending ↦
      rw some_pending
        (record { counted = omega (arith, h.counted); awaited = inl refl; distinct = tt })
]

-- The newest tick of a symbol wins: after a push the pending tick of its symbol has every field of
-- the tick pushed but the quantity, which is added to the quantity that was pending; the other
-- symbols are as they were.
pub push_pending :
    (tick : Tick) (d : TickDispatcher) (symbol : String)
    → lookup symbol (push tick d).0.pending ≡ (
        if str_eq tick.s symbol
        then some (coalesce (lookup symbol d.pending) tick)
        else lookup symbol d.pending)
unfolding push
push_pending tick d symbol =
    lookup-insert tick.s symbol (coalesce (lookup tick.s d.pending) tick) d.pending
    ∙ elim (Bool-cases (str_eq tick.s symbol)) [
      | inl same ↦ rw (same, (eq_iff tick.s symbol).0 same)
      | inr other ↦ rw other
    ]

-- The dispatcher with the frames that it has scheduled and the browser has not run yet, and the
-- ticks that have reached the sink.
pub record World : Type 0 where
  pub dispatcher : TickDispatcher
  pub frames : ℕ
  pub delivered : List Tick

abbrev pub start : World
start = record { dispatcher = fresh; frames = 0; delivered = [] }

abbrev scheduled : Bool → ℕ
scheduled true = 1
scheduled false = 0

abbrev pub after_push : Tick → World → World
after_push tick w = record {
  dispatcher = (push tick w.dispatcher).0;
  frames = w.frames + scheduled (push tick w.dispatcher).1;
  delivered = w.delivered;
}

abbrev pub after_frame : World → World
after_frame w = record {
  dispatcher = (flush_now w.dispatcher).0;
  frames = w.frames - 1;
  delivered = w.delivered ++ (flush_now w.dispatcher).1;
}

-- A tick may arrive at any time; the browser runs a frame that was scheduled.
pub data Step (w : World) : World → Type 0 where
  arrives : (tick : Tick) → Step w (after_push tick w)
  runs : 0 < w.frames → Step w (after_frame w)

pub data Reach : World → Type 0 where
  started : Reach start
  stepped : {w u : World} → Reach w → Step w u → Reach u

pub record IsPaced (w : World) : Type 0 where
  pub accounted : IsAccounted w.dispatcher
  pub one_frame : w.frames ≡ scheduled w.dispatcher.frame_requested

requested-flush : (d : TickDispatcher) → (flush_now d).0.frame_requested ≡ false
unfolding flush_now
requested-flush d = ground arith

frames-push :
    (tick : Tick) (d : TickDispatcher)
    → scheduled d.frame_requested + scheduled (push tick d).1
      ≡ scheduled (push tick d).0.frame_requested
unfolding push
frames-push tick d = ground arith

scheduled-le : (b : Bool) → scheduled b ≤ 1
scheduled-le true = omega arith
scheduled-le false = omega arith

Step-IsPaced : {w u : World} → Step w u → IsPaced w → IsPaced u
Step-IsPaced {w} (arrives tick) h = record {
  accounted = push-IsAccounted tick w.dispatcher h.accounted;
  one_frame = rw (h.one_frame) (frames-push tick w.dispatcher);
}
Step-IsPaced {w} (runs lt) h = record {
  accounted = flush_now-IsAccounted w.dispatcher h.accounted;
  one_frame =
      rw (requested-flush w.dispatcher)
        (omega (arith, h.one_frame, scheduled-le w.dispatcher.frame_requested));
}

-- However ticks and frames interleave: exactly one frame is outstanding while the dispatcher waits
-- for one and none otherwise, pending ticks always have a frame to flush them, no symbol is pending
-- twice, and every tick received is flushed, coalesced or pending.
pub Reach-IsPaced : {w : World} → Reach w → IsPaced w
Reach-IsPaced started = record { accounted = fresh-IsAccounted; one_frame = refl }
Reach-IsPaced (stepped r s) = Step-IsPaced s (Reach-IsPaced r)
