-- ===== src/PacedViews/Events.antt =====
-- display/pacedViews.ts as a machine: what happens to the paced views, and how the beat is scheduled.
use Prim.{Unit, tt}
use mathlib.Core.Path.{subst}
use tckr.Prelude.{
  ℕ, ◌+◌, ◌*◌, ◌/◌, ◌%◌, ◌≤◌, ◌<◌, ◌≡◌, refl, sym, ap, ◌∙◌, Bool, true, false, not, Option, none,
  some, List, [], ◌∷◌, ◌||◌, if◌then◌else◌, String, Bool-cases, inl, inr, arith,
}
use tckr.JsMap.{JsMap, insert}
use tckr.Store.{Store, SymbolView, add_listener}
use tckr.PacedViews.{
  PacedEntry, PacedViews, display_refresh_interval_ms, is_empty, is_idle, is_set, schedule,
  stop_if_idle, subscribe_paced_symbol, unsubscribe_paced_symbol, subscribe_beat, unsubscribe_beat,
  publish_all, stream_discarded, beat, flush_paced_symbol,
}

pub data PacedEvent : Type 0 where
  symbol_subscribed : String → (cb : ℕ) → PacedEvent
  symbol_unsubscribed : String → (cb id : ℕ) → PacedEvent
  beat_subscribed : (cb : ℕ) → PacedEvent
  beat_unsubscribed : (cb : ℕ) → PacedEvent
  symbol_flushed : String → PacedEvent
  timer_fired : PacedEvent
  discarded : PacedEvent

-- A timer fires while it is set, and the store tells of a discard while it is watched.
abbrev pub paced_step :
    (SymbolView → SymbolView → Bool) → PacedEvent → ℕ → Store → PacedViews → PacedViews × List ℕ
paced_step is_same (symbol_subscribed symbol cb) now store p =
    ((subscribe_paced_symbol symbol cb now store p).0, [])
paced_step is_same (symbol_unsubscribed symbol cb id) now store p =
    (unsubscribe_paced_symbol symbol cb id p, [])
paced_step is_same (beat_subscribed cb) now store p = (subscribe_beat cb now p, [])
paced_step is_same (beat_unsubscribed cb) now store p = (unsubscribe_beat cb p, [])
paced_step is_same (symbol_flushed symbol) now store p = flush_paced_symbol is_same symbol store p
paced_step is_same timer_fired now store p =
    if is_set p.beat_timer then beat is_same now store p else (p, [])
paced_step is_same discarded now store p =
    if p.is_watching_discards then stream_discarded is_same store p else (p, [])

-- Each event comes at its own time, with the store as it is then.
unfoldable pub paced_run :
    (SymbolView → SymbolView → Bool) → List (PacedEvent × ℕ × Store) → PacedViews → PacedViews
paced_run is_same [] p = p
paced_run is_same ((e, now, store) ∷ es) p =
    paced_run is_same es ((paced_step is_same e now store p).0)

abbrev pub IsSlot : Option ℕ → Type 0
IsSlot none = Unit
IsSlot (some due) = due % display_refresh_interval_ms ≡ 0

-- The timer is set, and discards are watched, while something listens; the timer is due at a slot.
abbrev pub IsTicking : PacedViews → Type 0
IsTicking p =
    (is_set p.beat_timer ≡ not (is_idle p))
    × (p.is_watching_discards ≡ not (is_idle p))
    × IsSlot p.beat_timer

pub slot_mod : (k : ℕ) → k * display_refresh_interval_ms % display_refresh_interval_ms ≡ 0
slot_mod k = omega arith

-- A timer that was not set is due at the first slot after now.
pub schedule-slot :
    (now : ℕ) (p : PacedViews)
    → p.beat_timer ≡ none
    → is_idle p ≡ false
    → (due : ℕ) × ((schedule now p).beat_timer ≡ some due)
      × (due % display_refresh_interval_ms ≡ 0)
      × (now < due)
      × (due ≤ now + display_refresh_interval_ms)
unfolding schedule
schedule-slot now p unset listens =
    rw (unset, listens)
      (
        (now / display_refresh_interval_ms + 1) * display_refresh_interval_ms,
        refl,
        slot_mod (now / display_refresh_interval_ms + 1),
        omega arith,
        omega arith,
      )

pub entries-schedule : (now : ℕ) (p : PacedViews) → (schedule now p).entries ≡ p.entries
unfolding schedule
entries-schedule now p = elim (Bool-cases (is_set p.beat_timer || is_idle p)) [
  | inl set ↦ rw set refl
  | inr unset ↦ rw unset refl
]

-- Before `schedule`, the timer may be missing and the watch may be on.
abbrev pub MayStart : PacedViews → Type 0
MayStart p = (is_set p.beat_timer ≡ true → is_idle p ≡ false) × IsSlot p.beat_timer

pub schedule-IsTicking :
    (now : ℕ) (p : PacedViews)
    → MayStart p
    → p.is_watching_discards ≡ not (is_idle p)
    → IsTicking (schedule now p)
unfolding schedule
schedule-IsTicking now p (may, slot) watched = go (p.beat_timer) (is_idle p) refl refl
  where
    go :
        (timer : Option ℕ) (idle : Bool)
        → p.beat_timer ≡ timer
        → is_idle p ≡ idle
        → IsTicking (schedule now p)
    go (some due) true e f = ground (arith, may (ap is_set e))
    go (some due) false e f = rw (e, f) (refl, watched ∙ ap not f, subst IsSlot e slot)
    go none true e f = rw (e, f) (sym (ap not f), watched, tt)
    go none false e f =
        rw (e, f) (sym (ap not f), watched, slot_mod (now / display_refresh_interval_ms + 1))

pub stop_if_idle-IsTicking :
    (p : PacedViews)
    → (is_idle p ≡ false → is_set p.beat_timer ≡ true)
    → (is_idle p ≡ false → p.is_watching_discards ≡ true)
    → IsSlot p.beat_timer
    → IsTicking (stop_if_idle p)
unfolding stop_if_idle
stop_if_idle-IsTicking p ticks watches slot = go (is_idle p) refl
  where
    go : (idle : Bool) → is_idle p ≡ idle → IsTicking (stop_if_idle p)
    go true f = rw f (sym (ap not f), sym (ap not f), tt)
    go false f = rw f (ticks f ∙ sym (ap not f), watches f ∙ sym (ap not f), slot)

pub is_empty-add_listener : (cb : ℕ) (ls : List ℕ) → is_empty (add_listener cb ls) ≡ false
is_empty-add_listener cb [] = refl
is_empty-add_listener cb (l ∷ ls) = ground arith

pub is_empty-insert {ℓ} :
    {V : Type ℓ} (k : String) (v : V) (m : JsMap V) → is_empty (insert k v m) ≡ false
unfolding insert
is_empty-insert k v [] = refl
is_empty-insert k v ((j, w) ∷ m) = ground arith

pub is_empty-publish_all :
    (is_same : SymbolView → SymbolView → Bool) (store : Store) (m : JsMap PacedEntry)
    → is_empty ((publish_all is_same store m).0) ≡ is_empty m
unfolding publish_all
is_empty-publish_all is_same store [] = refl
is_empty-publish_all is_same store ((symbol, entry) ∷ m) = refl
