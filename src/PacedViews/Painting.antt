-- ===== src/PacedViews/Painting.antt =====
-- What is painted: the store's views at a beat, and the same views until the next one.
use tckr.Prelude.{
  ℕ, ◌+◌, ◌%◌, ◌≤◌, ◌<◌, ◌≡◌, refl, sym, ap, ◌∙◌, Bool, true, false, Option, none, some, [], ◌∷◌,
  String, str_eq, Bool-cases, inl, inr, eq_iff, arith,
}
use tckr.JsMap.{JsMap, lookup}
use tckr.Store.{Store, SymbolView, get_symbol_snapshot}
use tckr.PacedViews.{
  PacedEntry, PacedViews, display_refresh_interval_ms, is_idle, get_paced_symbol_snapshot,
  painted_of, is_same_view, publish, publish_all, stream_discarded, beat,
}
use tckr.PacedViews.Events.{schedule-slot, is_empty-publish_all, entries-schedule}

module _ (is_same : SymbolView → SymbolView → Bool)
    (is_same-equal : (v w : SymbolView) → is_same v w ≡ true → v ≡ w) where
  is_same_view-equal : (v w : Option SymbolView) → is_same_view is_same v w ≡ true → v ≡ w
  is_same_view-equal none none e = refl
  is_same_view-equal none (some w) e = ground arith
  is_same_view-equal (some v) none e = ground arith
  is_same_view-equal (some v) (some w) e = ap some (is_same-equal v w e)

  -- A view that was published is the store's.
  view-publish :
      (symbol : String) (store : Store) (entry : PacedEntry)
      → ((publish is_same symbol store entry).0).view ≡ get_symbol_snapshot symbol store
  unfolding publish
  view-publish symbol store entry =
      go (is_same_view is_same (get_symbol_snapshot symbol store) entry.view) refl
    where
      go :
          (same : Bool)
          → is_same_view is_same (get_symbol_snapshot symbol store) entry.view ≡ same
          → ((publish is_same symbol store entry).0).view ≡ get_symbol_snapshot symbol store
      go true e = rw e (sym (is_same_view-equal (get_symbol_snapshot symbol store) (entry.view) e))
      go false e = rw e refl

  painted-publish_all :
      (symbol : String) (store : Store) (m : JsMap PacedEntry)
      → painted_of
          (lookup symbol ((publish_all is_same store m).0))
          (get_symbol_snapshot symbol store)
        ≡ get_symbol_snapshot symbol store
  unfolding lookup publish_all
  painted-publish_all symbol store [] = refl
  painted-publish_all symbol store ((key, entry) ∷ m) =
      let rest = painted-publish_all symbol store m in
      elim (Bool-cases (str_eq key symbol)) [
        | inl same ↦ rw same (
            view-publish key store entry
            ∙ ap (λ k. get_symbol_snapshot k store) ((eq_iff key symbol).0 same))
        | inr other ↦ rw other rest
      ]

  -- After a beat that something listens to, every symbol, paced or not, is painted as the store has
  -- it, and the next beat is due at the first multiple of the interval after now.
  pub beat-paints :
      (now : ℕ) (store : Store) (p : PacedViews) (symbol : String)
      → is_idle p ≡ false
      → (get_paced_symbol_snapshot symbol store ((beat is_same now store p).0)
          ≡ get_symbol_snapshot symbol store)
        × ((due : ℕ) × (((beat is_same now store p).0).beat_timer ≡ some due)
            × (due % display_refresh_interval_ms ≡ 0)
            × (now < due)
            × (due ≤ now + display_refresh_interval_ms))
  unfolding beat stream_discarded get_paced_symbol_snapshot
  beat-paints now store p symbol listens =
      let published = record p {
        beat_timer = none;
        entries = (publish_all is_same store p.entries).0;
      } in
      (
        rw (entries-schedule now published) (painted-publish_all symbol store p.entries),
        schedule-slot now published refl
            (rw (is_empty-publish_all is_same store p.entries) listens),
      )
