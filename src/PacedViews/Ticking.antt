-- ===== src/PacedViews/Ticking.antt =====
-- When the beat of display/pacedViews.ts runs.
use Prim.{tt}
use mathlib.Core.Path.{subst}
use tckr.Prelude.{
  ℕ, ◌+◌, ◌≡◌, refl, sym, ap, ◌∙◌, Bool, true, false, not, Option, none, some, List, [], ◌∷◌, ◌&&◌,
  ◌==◌, if◌then◌else◌, String, Bool-cases, inl, inr, arith,
}
use tckr.JsMap.{JsMap, lookup, insert}
use tckr.Store.{Store, SymbolView, add_listener, delete_listener}
use tckr.PacedViews.{
  PacedEntry, PacedViews, no_paced_views, is_empty, is_idle, is_set, start, stop_if_idle,
  subscribe_paced_symbol, unsubscribe_paced_symbol, subscribe_beat, unsubscribe_beat, publish,
  publish_all, stream_discarded, beat, flush_paced_symbol, entry_or_new, without_listener,
  published_entry, publish_found,
}
use tckr.PacedViews.Events.{
  PacedEvent, symbol_subscribed, symbol_unsubscribed, beat_subscribed, beat_unsubscribed,
  symbol_flushed, timer_fired, discarded, paced_step, paced_run, IsSlot, IsTicking,
  schedule-IsTicking, stop_if_idle-IsTicking, is_empty-add_listener, is_empty-insert,
  is_empty-publish_all,
}

-- Starting where something listens.
start-IsTicking :
    (now : ℕ) (p : PacedViews) → is_idle p ≡ false → IsSlot p.beat_timer → IsTicking (start now p)
unfolding start
start-IsTicking now p listens slot =
    schedule-IsTicking now (record p { is_watching_discards = true }) (λ set. listens, slot)
      (rw listens refl)

subscribe_paced_symbol-IsTicking :
    (symbol : String) (cb now : ℕ) (store : Store) (p : PacedViews)
    → IsTicking p
    → IsTicking ((subscribe_paced_symbol symbol cb now store p).0)
unfolding subscribe_paced_symbol
subscribe_paced_symbol-IsTicking symbol cb now store p (set, watched, slot) =
    let active = entry_or_new symbol store p (lookup symbol p.entries) in
    let more =
      insert symbol (record active { listeners = add_listener cb active.listeners }) p.entries in
    start-IsTicking now (record p { entries = more; next_entry_id = p.next_entry_id + 1 })
      (rw
        (is_empty-insert symbol (record active { listeners = add_listener cb active.listeners })
          p.entries)
        refl)
      slot

subscribe_beat-IsTicking :
    (cb now : ℕ) (p : PacedViews) → IsTicking p → IsTicking (subscribe_beat cb now p)
unfolding subscribe_beat
subscribe_beat-IsTicking cb now p (set, watched, slot) =
    start-IsTicking now (record p { beat_listeners = add_listener cb p.beat_listeners })
      (rw (is_empty-add_listener cb p.beat_listeners) (ground arith)) slot

-- What `stopIfIdle` finds after something has left: what listens now was listening before.
stop_after_leaving :
    (p left : PacedViews)
    → IsTicking p
    → (is_idle left ≡ false → is_idle p ≡ false)
    → left.beat_timer ≡ p.beat_timer
    → left.is_watching_discards ≡ p.is_watching_discards
    → IsTicking (stop_if_idle left)
stop_after_leaving p left (set, watched, slot) before timer watch =
    stop_if_idle-IsTicking left (λ listens. ap is_set timer ∙ set ∙ ap not (before listens))
      (λ listens. watch ∙ watched ∙ ap not (before listens)) (subst IsSlot (sym timer) slot)

is_empty-lookup {ℓ} :
    {V : Type ℓ} (k : String) (v : V) (m : JsMap V) → lookup k m ≡ some v → is_empty m ≡ false
unfolding lookup
is_empty-lookup k v [] e = ground arith
is_empty-lookup k v (entry ∷ m) e = refl

without_listener-listens :
    (symbol : String) (cb id : ℕ) (p : PacedViews) (found : Option PacedEntry)
    → lookup symbol p.entries ≡ found
    → is_idle (without_listener symbol cb id p found) ≡ false
    → is_idle p ≡ false
without_listener-listens symbol cb id p none e listens = listens
without_listener-listens symbol cb id p (some entry) e listens =
    rw (is_empty-lookup symbol entry p.entries e) refl

without_listener-keeps :
    (symbol : String) (cb id : ℕ) (p : PacedViews) (found : Option PacedEntry)
    → ((without_listener symbol cb id p found).beat_timer ≡ p.beat_timer)
      × ((without_listener symbol cb id p found).is_watching_discards ≡ p.is_watching_discards)
without_listener-keeps symbol cb id p none = (refl, refl)
without_listener-keeps symbol cb id p (some entry) =
    go (not (entry.entry_id == id)) (is_empty (delete_listener cb entry.listeners)) refl refl
  where
    go :
        (other none_left : Bool)
        → not (entry.entry_id == id) ≡ other
        → is_empty (delete_listener cb entry.listeners) ≡ none_left
        → ((without_listener symbol cb id p (some entry)).beat_timer ≡ p.beat_timer)
          × ((without_listener symbol cb id p (some entry)).is_watching_discards
              ≡ p.is_watching_discards)
    go true none_left e f = rw e (refl, refl)
    go false true e f = rw (e, f) (refl, refl)
    go false false e f = rw (e, f) (refl, refl)

unsubscribe_paced_symbol-IsTicking :
    (symbol : String) (cb id : ℕ) (p : PacedViews)
    → IsTicking p
    → IsTicking (unsubscribe_paced_symbol symbol cb id p)
unfolding unsubscribe_paced_symbol
unsubscribe_paced_symbol-IsTicking symbol cb id p ticking =
    let found = lookup symbol p.entries in
    let (timer, watch) = without_listener-keeps symbol cb id p found in
    stop_after_leaving p (without_listener symbol cb id p found) ticking
      (without_listener-listens symbol cb id p found refl) timer watch

is_empty-delete_listener :
    (cb : ℕ) (ls : List ℕ) → is_empty (delete_listener cb ls) ≡ false → is_empty ls ≡ false
is_empty-delete_listener cb [] e = e
is_empty-delete_listener cb (l ∷ ls) e = refl

unsubscribe_beat-IsTicking :
    (cb : ℕ) (p : PacedViews) → IsTicking p → IsTicking (unsubscribe_beat cb p)
unfolding unsubscribe_beat
unsubscribe_beat-IsTicking cb p ticking =
    stop_after_leaving p (record p { beat_listeners = delete_listener cb p.beat_listeners }) ticking
      (λ listens. still (p.entries) listens) refl refl
  where
    still :
        (m : JsMap PacedEntry)
        → (is_empty m && is_empty (delete_listener cb p.beat_listeners)) ≡ false
        → (is_empty m && is_empty p.beat_listeners) ≡ false
    still [] e = is_empty-delete_listener cb (p.beat_listeners) e
    still (entry ∷ m) e = refl

is_idle-published :
    (is_same : SymbolView → SymbolView → Bool) (store : Store) (p : PacedViews)
    → is_idle (record p { entries = (publish_all is_same store p.entries).0 }) ≡ is_idle p
is_idle-published is_same store p = rw (is_empty-publish_all is_same store p.entries) refl

-- An event that only changes the entries keeps the beat, where as many listen.
same_idle-IsTicking :
    (p : PacedViews) (m : JsMap PacedEntry)
    → is_empty m ≡ is_empty p.entries
    → IsTicking p
    → IsTicking (record p { entries = m })
same_idle-IsTicking p m e ticking = rw e ticking

beat-IsTicking :
    (is_same : SymbolView → SymbolView → Bool) (now : ℕ) (store : Store) (p : PacedViews)
    → is_set p.beat_timer ≡ true
    → IsTicking p
    → IsTicking ((beat is_same now store p).0)
unfolding beat stream_discarded
beat-IsTicking is_same now store p fires (set, watched, slot) =
    schedule-IsTicking now
      (record p { beat_timer = none; entries = (publish_all is_same store p.entries).0 })
      (λ set. ground arith, tt) (watched ∙ ap not (sym (is_idle-published is_same store p)))

flush_paced_symbol-IsTicking :
    (is_same : SymbolView → SymbolView → Bool) (symbol : String) (store : Store) (p : PacedViews)
    → IsTicking p
    → IsTicking ((flush_paced_symbol is_same symbol store p).0)
unfolding flush_paced_symbol
flush_paced_symbol-IsTicking is_same symbol store p ticking = go (lookup symbol p.entries) refl
  where
    go :
        (found : Option PacedEntry)
        → lookup symbol p.entries ≡ found
        → IsTicking ((published_entry symbol p (publish_found is_same symbol store found)).0)
    go none e = ticking
    go (some entry) e =
        let flushed = (publish is_same symbol store entry).0 in
        same_idle-IsTicking p (insert symbol flushed p.entries)
          (is_empty-insert symbol flushed p.entries
            ∙ sym (is_empty-lookup symbol entry p.entries e))
          ticking

stream_discarded-IsTicking :
    (is_same : SymbolView → SymbolView → Bool) (store : Store) (p : PacedViews)
    → IsTicking p
    → IsTicking ((stream_discarded is_same store p).0)
unfolding stream_discarded
stream_discarded-IsTicking is_same store p t =
    same_idle-IsTicking p ((publish_all is_same store p.entries).0)
      (is_empty-publish_all is_same store p.entries) t

paced_step-IsTicking :
    (is_same : SymbolView → SymbolView → Bool) (e : PacedEvent) (now : ℕ) (store : Store)
    (p : PacedViews)
    → IsTicking p
    → IsTicking ((paced_step is_same e now store p).0)
paced_step-IsTicking is_same (symbol_subscribed symbol cb) now store p t =
    subscribe_paced_symbol-IsTicking symbol cb now store p t
paced_step-IsTicking is_same (symbol_unsubscribed symbol cb id) now store p t =
    unsubscribe_paced_symbol-IsTicking symbol cb id p t
paced_step-IsTicking is_same (beat_subscribed cb) now store p t =
    subscribe_beat-IsTicking cb now p t
paced_step-IsTicking is_same (beat_unsubscribed cb) now store p t =
    unsubscribe_beat-IsTicking cb p t
paced_step-IsTicking is_same (symbol_flushed symbol) now store p t =
    flush_paced_symbol-IsTicking is_same symbol store p t
paced_step-IsTicking is_same timer_fired now store p t = elim (Bool-cases (is_set p.beat_timer)) [
  | inl fires ↦ rw fires (beat-IsTicking is_same now store p fires t)
  | inr silent ↦ rw silent t
]
paced_step-IsTicking is_same discarded now store p t = go (p.is_watching_discards)
  where
    go :
        (watching : Bool)
        → IsTicking ((if watching then stream_discarded is_same store p else (p, [])).0)
    go true = stream_discarded-IsTicking is_same store p t
    go false = t

-- After any sequence of events from the start, a beat is scheduled, and stream discards are watched,
-- exactly while something listens, and the beat is due at a multiple of the interval.
pub paced_run-IsTicking :
    (is_same : SymbolView → SymbolView → Bool) (es : List (PacedEvent × ℕ × Store))
    → IsTicking (paced_run is_same es no_paced_views)
unfolding paced_run
paced_run-IsTicking is_same es = go es no_paced_views (refl, refl, tt)
  where
    go :
        (es : List (PacedEvent × ℕ × Store)) (p : PacedViews)
        → IsTicking p
        → IsTicking (paced_run is_same es p)
    go [] p t = t
    go ((e, now, store) ∷ es) p t =
        go es ((paced_step is_same e now store p).0) (paced_step-IsTicking is_same e now store p t)
