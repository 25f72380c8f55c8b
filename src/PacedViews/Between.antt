-- ===== src/PacedViews/Between.antt =====
-- What is painted between two beats.
use tckr.Prelude.{
  ℕ, ◌+◌, ◌≡◌, refl, ap, ◌∙◌, Bool, true, false, not, Option, none, some, List, [], ◌∷◌, ◌==◌, ◌||◌,
  String, str_eq, Bool-cases, inl, inr, eq_iff, arith,
}
use tckr.JsMap.{JsMap, lookup, insert, remove, lookup-insert}
use tckr.Store.{Store, SymbolView, get_symbol_snapshot, add_listener, delete_listener}
use tckr.PacedViews.{
  PacedEntry, PacedViews, is_empty, is_idle, start, stop_if_idle, get_paced_symbol_snapshot,
  painted_of, subscribe_paced_symbol, unsubscribe_paced_symbol, subscribe_beat, unsubscribe_beat,
  publish, flush_paced_symbol, entry_or_new, without_listener, published_entry, publish_found,
}
use tckr.PacedViews.Events.{
  PacedEvent, symbol_subscribed, symbol_unsubscribed, beat_subscribed, beat_unsubscribed,
  symbol_flushed, timer_fired, discarded, paced_step, paced_run, entries-schedule,
}

-- The events that may paint a symbol anew, or end its pacing.
abbrev pub repaints : String → PacedEvent → Bool
repaints symbol (symbol_subscribed other cb) = false
repaints symbol (symbol_unsubscribed other cb id) = str_eq other symbol
repaints symbol (beat_subscribed cb) = false
repaints symbol (beat_unsubscribed cb) = false
repaints symbol (symbol_flushed other) = str_eq other symbol
repaints symbol timer_fired = true
repaints symbol discarded = true

abbrev pub any_repaints : String → List (PacedEvent × ℕ × Store) → Bool
any_repaints symbol [] = false
any_repaints symbol ((e, now, store) ∷ es) = repaints symbol e || any_repaints symbol es

-- The view of an entry, where there is one.
abbrev pub entry_view : Option PacedEntry → Option (Option SymbolView)
entry_view none = none
entry_view (some entry) = some entry.view

abbrev pub view_in : String → JsMap PacedEntry → Option (Option SymbolView)
view_in symbol m = entry_view (lookup symbol m)

lookup-remove_other {ℓ} :
    {V : Type ℓ} (k wanted : String) (m : JsMap V)
    → str_eq k wanted ≡ false
    → lookup wanted (remove k m) ≡ lookup wanted m
unfolding lookup remove
lookup-remove_other k wanted [] e = refl
lookup-remove_other k wanted ((j, v) ∷ m) e =
    let rest = lookup-remove_other k wanted m e in
    ground (arith, eq_iff j k, eq_iff j wanted, eq_iff k wanted)

view_in-insert_other :
    (k wanted : String) (entry : PacedEntry) (m : JsMap PacedEntry)
    → str_eq k wanted ≡ false
    → view_in wanted (insert k entry m) ≡ view_in wanted m
view_in-insert_other k wanted entry m e = rw (lookup-insert k wanted entry m, e) refl

entries-start : (now : ℕ) (p : PacedViews) → (start now p).entries ≡ p.entries
unfolding start
entries-start now p = entries-schedule now (record p { is_watching_discards = true })

entries-stop_if_idle : (p : PacedViews) → (stop_if_idle p).entries ≡ p.entries
unfolding stop_if_idle
entries-stop_if_idle p = elim (Bool-cases (not (is_idle p))) [
  | inl listens ↦ rw listens refl
  | inr idle ↦ rw idle refl
]

view-active :
    (symbol : String) (store : Store) (p : PacedViews) (found : Option PacedEntry)
    (view : Option SymbolView)
    → entry_view found ≡ some view
    → some (entry_or_new symbol store p found).view ≡ some view
view-active symbol store p none view e = ground arith
view-active symbol store p (some entry) view e = e

-- Subscribing to the symbol itself keeps its view too.
view_in-subscribe :
    (symbol wanted : String) (cb now : ℕ) (store : Store) (p : PacedViews)
    (view : Option SymbolView)
    → view_in wanted p.entries ≡ some view
    → view_in wanted (((subscribe_paced_symbol symbol cb now store p).0).entries) ≡ some view
unfolding subscribe_paced_symbol
view_in-subscribe symbol wanted cb now store p view e =
    let active = entry_or_new symbol store p (lookup symbol p.entries) in
    let updated = record active { listeners = add_listener cb active.listeners } in
    let more = insert symbol updated p.entries in
    rw (entries-start now (record p { entries = more; next_entry_id = p.next_entry_id + 1 }))
      (elim (Bool-cases (str_eq symbol wanted)) [
        | inl same ↦
            rw (lookup-insert symbol wanted updated p.entries, same)
              (view-active symbol store p (lookup symbol p.entries) view
                (ap (λ k. view_in k p.entries) ((eq_iff symbol wanted).0 same) ∙ e))
        | inr other ↦ view_in-insert_other symbol wanted updated p.entries other ∙ e
      ])

view_in-without_listener :
    (symbol wanted : String) (cb id : ℕ) (p : PacedViews) (found : Option PacedEntry)
    → str_eq symbol wanted ≡ false
    → view_in wanted ((without_listener symbol cb id p found).entries) ≡ view_in wanted p.entries
view_in-without_listener symbol wanted cb id p none other = refl
view_in-without_listener symbol wanted cb id p (some entry) other =
    let left = delete_listener cb entry.listeners in
    elim (Bool-cases (not (entry.entry_id == id))) [
      | inl later ↦ rw later refl
      | inr own ↦ elim (Bool-cases (is_empty left)) [
        | inl last ↦
            rw (own, last) (ap entry_view (lookup-remove_other symbol wanted p.entries other))
        | inr more ↦
            rw (own, more)
              (view_in-insert_other symbol wanted (record entry { listeners = left }) p.entries
                other)
      ]
    ]

view_in-flush :
    (is_same : SymbolView → SymbolView → Bool) (symbol wanted : String) (store : Store)
    (p : PacedViews) (found : Option PacedEntry)
    → str_eq symbol wanted ≡ false
    → view_in wanted
        (((published_entry symbol p (publish_found is_same symbol store found)).0).entries)
      ≡ view_in wanted p.entries
view_in-flush is_same symbol wanted store p none other = refl
view_in-flush is_same symbol wanted store p (some entry) other =
    view_in-insert_other symbol wanted ((publish is_same symbol store entry).0) p.entries other

view_in-step :
    (is_same : SymbolView → SymbolView → Bool) (e : PacedEvent) (now : ℕ) (store : Store)
    (p : PacedViews) (wanted : String) (view : Option SymbolView)
    → repaints wanted e ≡ false
    → view_in wanted p.entries ≡ some view
    → view_in wanted (((paced_step is_same e now store p).0).entries) ≡ some view
unfolding subscribe_beat unsubscribe_beat unsubscribe_paced_symbol flush_paced_symbol
view_in-step is_same (symbol_subscribed symbol cb) now store p wanted view keeps paced =
    view_in-subscribe symbol wanted cb now store p view paced
view_in-step is_same (symbol_unsubscribed symbol cb id) now store p wanted view keeps paced =
    let found = lookup symbol p.entries in
    ap (view_in wanted) (entries-stop_if_idle (without_listener symbol cb id p found))
    ∙ view_in-without_listener symbol wanted cb id p found keeps
    ∙ paced
view_in-step is_same (beat_subscribed cb) now store p wanted view keeps paced =
    ap (view_in wanted)
      (entries-start now (record p { beat_listeners = add_listener cb p.beat_listeners }))
    ∙ paced
view_in-step is_same (beat_unsubscribed cb) now store p wanted view keeps paced =
    ap (view_in wanted)
      (entries-stop_if_idle (record p { beat_listeners = delete_listener cb p.beat_listeners }))
    ∙ paced
view_in-step is_same (symbol_flushed symbol) now store p wanted view keeps paced =
    view_in-flush is_same symbol wanted store p (lookup symbol p.entries) keeps ∙ paced
view_in-step is_same timer_fired now store p wanted view keeps paced = ground arith
view_in-step is_same discarded now store p wanted view keeps paced = ground arith

-- A symbol that is paced keeps its painted view over any sequence of events in which there is no
-- beat, no stream discard, and neither a flush nor an unsubscription of that symbol, however the
-- store changes meanwhile.
pub run-keeps_painted :
    (is_same : SymbolView → SymbolView → Bool) (es : List (PacedEvent × ℕ × Store)) (later : Store)
    (p : PacedViews) (wanted : String) (view : Option SymbolView)
    → any_repaints wanted es ≡ false
    → view_in wanted p.entries ≡ some view
    → get_paced_symbol_snapshot wanted later (paced_run is_same es p) ≡ view
unfolding paced_run get_paced_symbol_snapshot
run-keeps_painted is_same [] later p wanted view keeps paced = go (lookup wanted p.entries) paced
  where
    go :
        (found : Option PacedEntry)
        → entry_view found ≡ some view
        → painted_of found (get_symbol_snapshot wanted later) ≡ view
    go none e = ground arith
    go (some entry) e = ground arith
run-keeps_painted is_same ((e, now, store) ∷ es) later p wanted view keeps paced =
    let both = neither (repaints wanted e) (any_repaints wanted es) keeps in
    run-keeps_painted is_same es later ((paced_step is_same e now store p).0) wanted view (both.1)
      (view_in-step is_same e now store p wanted view (both.0) paced)
  where
    neither : (a b : Bool) → (a || b) ≡ false → (a ≡ false) × (b ≡ false)
    neither a b h = ground arith
