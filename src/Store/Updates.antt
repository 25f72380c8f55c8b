-- ===== src/Store/Updates.antt =====
-- What a tick and a snapshot change in data/store.ts, and what they leave alone.
use tckr.Prelude.{
  ℕ, ◌≡◌, refl, ap, ◌∙◌, Option, none, some, List, [], if◌then◌else◌, arith, String, str_eq,
}
use tckr.Contracts.{Tick, Snapshot}
use tckr.JsMap.{lookup, insert, lookup-insert, str_eq_refl}
use tckr.Store.{
  Store, SymbolView, SymbolMeta, SymbolRecord, record_for, record_or_new, listeners_of, view_of,
  get_symbol_snapshot, notify, snapshot_baseline, set_view, snapshot_view, tick_view,
  apply_snapshot, apply_tick, tick_with, snapshot_with,
}

get-set_view :
    (symbol j : String) (v : SymbolView) (s : Store)
    → get_symbol_snapshot j (set_view symbol v s)
      ≡ (if str_eq symbol j then some v else get_symbol_snapshot j s)
unfolding get_symbol_snapshot
get-set_view symbol j v s =
    rw (lookup-insert symbol j (record (record_for symbol s) { view = some v }) s.records)
      (ground (arith))

notify-set_view :
    (symbol : String) (v : SymbolView) (s : Store)
    → notify symbol (set_view symbol v s) ≡ notify symbol s
unfolding notify
notify-set_view symbol v s =
    rw
      (
        lookup-insert symbol symbol (record (record_for symbol s) { view = some v }) s.records,
        str_eq_refl symbol,
      )
      (listeners_new (lookup symbol s.records))
  where
    listeners_new : (o : Option SymbolRecord) → (record_or_new o).listeners ≡ listeners_of o
    listeners_new none = refl
    listeners_new (some r) = refl

view_new : (o : Option SymbolRecord) → (record_or_new o).view ≡ view_of o
view_new none = refl
view_new (some r) = refl

view-record_for :
    (symbol : String) (s : Store) → (record_for symbol s).view ≡ get_symbol_snapshot symbol s
unfolding get_symbol_snapshot
view-record_for symbol s = view_new (lookup symbol s.records)

-- A tick and a snapshot for a symbol that is primed, and for one that is not.
pub apply_tick_primed :
    (t : Tick) (now : ℕ) (s : Store) (m : SymbolMeta)
    → lookup t.s s.meta ≡ some m
    → apply_tick t now s ≡ (
        let after = set_view t.s (tick_view t m (get_symbol_snapshot t.s s) now) s in
        (after, notify t.s s))
unfolding apply_tick
apply_tick_primed t now s m e =
    ap (λ o. tick_with o t now s) e
    ∙ ap
        (λ (v : Option SymbolView).
          let after = set_view t.s (tick_view t m v now) s in
          let r : Store × List ℕ = (after, notify t.s after) in r)
        (view-record_for t.s s)
    ∙ ap
        (λ (calls : List ℕ).
          let r : Store × List ℕ =
            (set_view t.s (tick_view t m (get_symbol_snapshot t.s s) now) s, calls) in
          r)
        (notify-set_view t.s (tick_view t m (get_symbol_snapshot t.s s) now) s)

pub apply_tick_unprimed :
    (t : Tick) (now : ℕ) (s : Store) → lookup t.s s.meta ≡ none → apply_tick t now s ≡ (s, [])
unfolding apply_tick
apply_tick_unprimed t now s e = ap (λ o. tick_with o t now s) e

abbrev pub anchor : Snapshot → SymbolMeta → Store → Store
anchor n m s = record s {
  meta = insert n.symbol (record m { baseline = snapshot_baseline n }) s.meta;
}

pub apply_snapshot_primed :
    (n : Snapshot) (now : ℕ) (s : Store) (m : SymbolMeta)
    → lookup n.symbol s.meta ≡ some m
    → apply_snapshot n now s
      ≡ (set_view n.symbol (snapshot_view n m now) (anchor n m s), notify n.symbol s)
unfolding apply_snapshot notify
apply_snapshot_primed n now s m e =
    ap (λ o. snapshot_with o n now s) e
    ∙ ap
        (λ (calls : List ℕ).
          let r : Store × List ℕ =
            (set_view n.symbol (snapshot_view n m now) (anchor n m s), calls) in
          r)
        (notify-set_view n.symbol (snapshot_view n m now) (anchor n m s))

pub apply_snapshot_unprimed :
    (n : Snapshot) (now : ℕ) (s : Store)
    → lookup n.symbol s.meta ≡ none
    → apply_snapshot n now s ≡ (s, [])
unfolding apply_snapshot
apply_snapshot_unprimed n now s e = ap (λ o. snapshot_with o n now s) e

-- A tick for a primed symbol replaces that symbol's view, with the volume of the view before it
-- added, and no other view; exactly the listeners of that symbol are called; and the universe keeps
-- its names, prices and baselines.
pub apply_tick-isolated :
    (t : Tick) (now : ℕ) (s : Store) (m : SymbolMeta) (j : String)
    → lookup t.s s.meta ≡ some m
    → (get_symbol_snapshot j (apply_tick t now s).0 ≡ (
        if str_eq t.s j
        then some (tick_view t m (get_symbol_snapshot t.s s) now)
        else get_symbol_snapshot j s))
      × ((apply_tick t now s).1 ≡ notify t.s s)
      × ((apply_tick t now s).0.meta ≡ s.meta)
apply_tick-isolated t now s m j e =
    rw (apply_tick_primed t now s m e)
      (get-set_view t.s j (tick_view t m (get_symbol_snapshot t.s s) now) s, refl, refl)

-- A snapshot for a primed symbol replaces that symbol's view and no other, calls exactly its
-- listeners, and anchors its baseline on the previous close, or on the open where there is none.
pub apply_snapshot-isolated :
    (n : Snapshot) (now : ℕ) (s : Store) (m : SymbolMeta) (j : String)
    → lookup n.symbol s.meta ≡ some m
    → (get_symbol_snapshot j (apply_snapshot n now s).0
        ≡ (if str_eq n.symbol j then some (snapshot_view n m now) else get_symbol_snapshot j s))
      × ((apply_snapshot n now s).1 ≡ notify n.symbol s)
      × (lookup j (apply_snapshot n now s).0.meta ≡ (
          if str_eq n.symbol j
          then some (record m { baseline = snapshot_baseline n })
          else lookup j s.meta))
unfolding get_symbol_snapshot
apply_snapshot-isolated n now s m j e = rw (apply_snapshot_primed n now s m e) (
  get-set_view n.symbol j (snapshot_view n m now) (anchor n m s),
  refl,
  lookup-insert n.symbol j (record m { baseline = snapshot_baseline n }) s.meta,
)
