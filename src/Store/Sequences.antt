-- ===== src/Store/Sequences.antt =====
-- Any sequence of ticks and snapshots in data/store.ts: the volume that accumulates, what the shown
-- change is measured from, and the symbols that stay out of the store.
use tckr.Prelude.{
  ℕ, ◌≡◌, refl, ap, sym, ◌∙◌, false, Option, none, some, List, [], ◌∷◌, String, str_eq, eq_iff,
  Bool-cases, inl, inr, Option-cases,
}
use tckr.Prelude.Int.{ℤ, ◌+ℤ◌, +ℤ_assoc, +ℤ-zero}
use tckr.Contracts.{Tick, Snapshot}
use tckr.Decimal.{subtract}
use tckr.Decimal.Percent.{percent_change}
use tckr.Dispatcher.Quantity.{traded, share}
use tckr.JsMap.{lookup, lookup-insert}
use tckr.Store.{
  Store, SymbolView, SymbolMeta, get_symbol_snapshot, previous_volume, apply_snapshot, apply_tick,
}
use tckr.Store.Updates.{
  apply_tick_primed, apply_tick_unprimed, apply_snapshot_primed, apply_snapshot_unprimed,
  apply_tick-isolated,
}

-- A write to the store by a source, at a time.
pub data Update : Type 0 where
  ticked : Tick → ℕ → Update
  snapped : Snapshot → ℕ → Update

abbrev pub apply : Update → Store → Store
apply (ticked t now) s = (apply_tick t now s).0
apply (snapped n now) s = (apply_snapshot n now s).0

abbrev pub apply_all : List Update → Store → Store
apply_all [] s = s
apply_all (u ∷ us) s = apply_all us (apply u s)

-- What the change that is shown must be, if both a view and a baseline are there.
abbrev pub Measured : Option SymbolView → Option SymbolMeta → Type 0
Measured none m = Unit
Measured (some v) none = Unit
Measured (some v) (some m) =
    (v.change ≡ subtract v.price m.baseline)
    × (v.change_percent ≡ percent_change m.baseline v.price)

-- Every view shows its change from the baseline that the store has for its symbol now.
abbrev pub IsMeasured : Store → Type 0
IsMeasured s = (j : String) → Measured (get_symbol_snapshot j s) (lookup j s.meta)

-- What the store holds for one symbol.
record SameAt (j : String) (s s' : Store) : Type 0 where
  meta : lookup j s'.meta ≡ lookup j s.meta
  records : lookup j s'.records ≡ lookup j s.records

unprimed_ne :
    (a j : String) (s : Store) (m : SymbolMeta)
    → lookup a s.meta ≡ some m
    → lookup j s.meta ≡ none
    → str_eq a j ≡ false
unprimed_ne a j s m found missing = elim (Bool-cases (str_eq a j)) [
  | inl same ↦
      let e : some m ≡ none =
        sym found ∙ ap (λ k. lookup k s.meta) ((eq_iff a j).0 same) ∙ missing in
      cc
  | inr other ↦ other
]

apply-SameAt :
    (j : String) (u : Update) (s : Store) → lookup j s.meta ≡ none → SameAt j s (apply u s)
apply-SameAt j (ticked t now) s missing = elim (Option-cases (lookup t.s s.meta)) [
  | inl unknown ↦
      rw (apply_tick_unprimed t now s unknown, apply) (record { meta = refl; records = refl })
  | inr (m, found) ↦
      let other = unprimed_ne t.s j s m found missing in
      rw (apply_tick_primed t now s m found, apply)
        (record { meta = refl; records = lookup-insert t.s j _ s.records ∙ rw other })
]
apply-SameAt j (snapped n now) s missing = elim (Option-cases (lookup n.symbol s.meta)) [
  | inl unknown ↦
      rw (apply_snapshot_unprimed n now s unknown, apply) (record { meta = refl; records = refl })
  | inr (m, found) ↦
      let other = unprimed_ne n.symbol j s m found missing in
      rw (apply_snapshot_primed n now s m found, apply)
        (record {
          meta = lookup-insert n.symbol j _ s.meta ∙ rw other;
          records = lookup-insert n.symbol j _ s.records ∙ rw other;
        })
]

-- Whatever the gateway sends, a symbol that is not in the primed universe gets no record, no
-- metadata and no view: what the store holds for it stays as it was.
pub apply_all-unprimed :
    (j : String) (us : List Update) (s : Store)
    → lookup j s.meta ≡ none
    → (lookup j (apply_all us s).meta ≡ none)
      × (lookup j (apply_all us s).records ≡ lookup j s.records)
apply_all-unprimed j [] s h = (h, refl)
apply_all-unprimed j (u ∷ us) s h =
    let same = apply-SameAt j u s h in
    let (meta, records) = apply_all-unprimed j us (apply u s) (same.meta ∙ h) in
    (meta, records ∙ same.records)

-- The volume shown for a symbol, 0 where it has no view.
abbrev pub volume_at : String → Store → ℤ
volume_at j s = previous_volume (get_symbol_snapshot j s)

abbrev pub all_ticked : List (Tick × ℕ) → List Update
all_ticked [] = []
all_ticked ((t, now) ∷ ts) = ticked t now ∷ all_ticked ts

abbrev pub ticks_of : List (Tick × ℕ) → List Tick
ticks_of [] = []
ticks_of ((t, now) ∷ ts) = t ∷ ticks_of ts

volume-tick :
    (j : String) (m : SymbolMeta) (t : Tick) (now : ℕ) (s : Store)
    → lookup j s.meta ≡ some m
    → (volume_at j (apply_tick t now s).0 ≡ volume_at j s +ℤ share j t)
      × (lookup j (apply_tick t now s).0.meta ≡ some m)
volume-tick j m t now s e = elim (Option-cases (lookup t.s s.meta)) [
  | inl unknown ↦
      rw (apply_tick_unprimed t now s unknown)
        (rw (unprimed_ne' t.s j s m unknown e) (sym (+ℤ-zero (volume_at j s))), e)
  | inr (m', found) ↦
      let (view, calls, meta) = apply_tick-isolated t now s m' j found in
      elim (Bool-cases (str_eq t.s j)) [
        | inl same ↦ rw (view, meta, same) (rw ((eq_iff t.s j).0 same), e)
        | inr other ↦ rw (view, meta, other) (sym (+ℤ-zero (volume_at j s)), e)
      ]
]
  where
    unprimed_ne' :
        (a k : String) (r : Store) (n : SymbolMeta)
        → lookup a r.meta ≡ none
        → lookup k r.meta ≡ some n
        → str_eq a k ≡ false
    unprimed_ne' a k r n missing found = elim (Bool-cases (str_eq a k)) [
      | inl same ↦
          let e' : some n ≡ none =
            sym found ∙ ap (λ x. lookup x r.meta) (sym ((eq_iff a k).0 same)) ∙ missing in
          cc
      | inr other ↦ other
    ]

-- For a primed symbol, after any ticks (of whatever symbols) the volume shown is the volume before
-- them plus the quantities of all its ticks.
pub volume-ticks :
    (j : String) (m : SymbolMeta) (ts : List (Tick × ℕ)) (s : Store)
    → lookup j s.meta ≡ some m
    → volume_at j (apply_all (all_ticked ts) s) ≡ volume_at j s +ℤ traded j (ticks_of ts)
volume-ticks j m [] s e = sym (+ℤ-zero (volume_at j s))
volume-ticks j m ((t, now) ∷ ts) s e =
    let (volume, still) = volume-tick j m t now s e in
    volume-ticks j m ts (apply_tick t now s).0 still
    ∙ ap (λ v. v +ℤ traded j (ticks_of ts)) volume
    ∙ +ℤ_assoc (volume_at j s) (share j t) (traded j (ticks_of ts))
