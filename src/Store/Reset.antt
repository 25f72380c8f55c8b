-- ===== src/Store/Reset.antt =====
-- A stream switch and the universe in data/store.ts: what `resetStream` discards and keeps, and what
-- `primeUniverse` keeps.
use tckr.Prelude.{
  ◌≡◌, refl, ap, ◌∙◌, true, false, Option, none, some, List, [], ◌∷◌, ◌⊎◌, String, str_eq, eq_iff,
  Bool-cases, inl, inr, Option-cases,
}
use tckr.Text.{Text}
use tckr.Contracts.{Stream}
use tckr.JsMap.{JsMap, lookup, insert, lookup-insert}
use tckr.Store.{
  Store, SymbolView, SymbolMeta, SymbolRecord, SymbolDef, get_symbol_snapshot, view_of,
  listeners_of, cleared, clear_views, reset_meta, reset_stream, prime_meta, prime_universe,
  baseline_or,
}
use tckr.Store.Updates.{
  apply_tick_unprimed, apply_snapshot_unprimed, apply_tick-isolated, apply_snapshot-isolated,
}
use tckr.Store.Sequences.{Update, ticked, snapped, apply, apply_all}

abbrev pub map_option {ℓ κ} : {A : Type ℓ} {B : Type κ} → (A → B) → Option A → Option B
map_option f none = none
map_option f (some a) = some (f a)

lookup-clear_views :
    (j : String) (m : JsMap SymbolRecord)
    → lookup j (clear_views m) ≡ map_option cleared (lookup j m)
unfolding lookup clear_views
lookup-clear_views j [] = refl
lookup-clear_views j ((k, r) ∷ m) = elim (Bool-cases (str_eq k j)) [
  | inl same ↦ rw same
  | inr other ↦ rw other (lookup-clear_views j m)
]

abbrev pub anchored_again : SymbolMeta → SymbolMeta
anchored_again m = record m { baseline = m.reference_price }

lookup-reset_meta :
    (j : String) (m : JsMap SymbolMeta)
    → lookup j (reset_meta m) ≡ map_option anchored_again (lookup j m)
unfolding lookup reset_meta
lookup-reset_meta j [] = refl
lookup-reset_meta j ((k, r) ∷ m) = elim (Bool-cases (str_eq k j)) [
  | inl same ↦ rw same
  | inr other ↦ rw other (lookup-reset_meta j m)
]

view-cleared : (o : Option SymbolRecord) → view_of (map_option cleared o) ≡ none
view-cleared none = refl
view-cleared (some r) = refl

listeners-cleared : (o : Option SymbolRecord) → listeners_of (map_option cleared o) ≡ listeners_of o
listeners-cleared none = refl
listeners-cleared (some r) = refl

-- After `resetStream` no symbol has a view, every symbol keeps its listeners, its name and its
-- reference price, its baseline is the reference price again, and the list of symbols is kept.
pub reset_stream-discards :
    (s : Store) (j : String)
    → (get_symbol_snapshot j (reset_stream s).0 ≡ none)
      × (lookup j (reset_stream s).0.meta ≡ map_option anchored_again (lookup j s.meta))
      × (listeners_of (lookup j (reset_stream s).0.records) ≡ listeners_of (lookup j s.records))
      × ((reset_stream s).0.symbol_list ≡ s.symbol_list)
unfolding reset_stream get_symbol_snapshot
reset_stream-discards s j = (
  ap view_of (lookup-clear_views j s.records) ∙ view-cleared (lookup j s.records),
  lookup-reset_meta j s.meta,
  ap listeners_of (lookup-clear_views j s.records) ∙ listeners-cleared (lookup j s.records),
  refl,
)

-- The stream that an update comes from.
abbrev pub stream_of : Update → Stream
stream_of (ticked t now) = t.st
stream_of (snapped n now) = n.stream

abbrev pub AllFrom : Stream → List Update → Type 0
AllFrom st [] = Unit
AllFrom st (u ∷ us) = (stream_of u ≡ st) × AllFrom st us

abbrev pub Shows : Stream → Option SymbolView → Type 0
Shows st none = Unit
Shows st (some v) = v.stream ≡ st

-- Every view on the board comes from one stream.
abbrev pub IsPure : Stream → Store → Type 0
IsPure st s = (j : String) → Shows st (get_symbol_snapshot j s)

apply-IsPure :
    (st : Stream) (u : Update) (s : Store) → stream_of u ≡ st → IsPure st s → IsPure st (apply u s)
apply-IsPure st (ticked t now) s e h = elim (Option-cases (lookup t.s s.meta)) [
  | inl unknown ↦ rw (apply_tick_unprimed t now s unknown, apply) h
  | inr (m, found) ↦ λ j.
      let (view, calls, meta) = apply_tick-isolated t now s m j found in
      elim (Bool-cases (str_eq t.s j)) [
        | inl same ↦ rw (view, same) e
        | inr other ↦ rw (view, other) (h j)
      ]
]
apply-IsPure st (snapped n now) s e h = elim (Option-cases (lookup n.symbol s.meta)) [
  | inl unknown ↦ rw (apply_snapshot_unprimed n now s unknown, apply) h
  | inr (m, found) ↦ λ j.
      let (view, calls, meta) = apply_snapshot-isolated n now s m j found in
      elim (Bool-cases (str_eq n.symbol j)) [
        | inl same ↦ rw (view, same) e
        | inr other ↦ rw (view, other) (h j)
      ]
]

apply_all-IsPure :
    (st : Stream) (us : List Update) (s : Store)
    → AllFrom st us
    → IsPure st s
    → IsPure st (apply_all us s)
apply_all-IsPure st [] s h p = p
apply_all-IsPure st (u ∷ us) s (e, h) p =
    apply_all-IsPure st us (apply u s) h (apply-IsPure st u s e p)

-- If only updates of one stream follow a `resetStream`, every view on the board comes from that
-- stream: nothing of the store before the reset is left.
pub reset_stream-IsPure :
    (st : Stream) (us : List Update) (s : Store)
    → AllFrom st us
    → IsPure st (apply_all us (reset_stream s).0)
reset_stream-IsPure st us s h =
    apply_all-IsPure st us (reset_stream s).0 h (λ j. rw ((reset_stream-discards s j).0) tt)

-- Baselines by symbol, the reference price of a definition where the symbol is new.
abbrev pub baseline_of : Option SymbolMeta → Option Text
baseline_of none = none
baseline_of (some m) = some m.baseline

prime_meta-keeps :
    (j : String) (b : Text) (defs : List SymbolDef) (m : JsMap SymbolMeta)
    → baseline_of (lookup j m) ≡ some b
    → baseline_of (lookup j (prime_meta m defs)) ≡ some b
unfolding prime_meta
prime_meta-keeps j b [] m h = h
prime_meta-keeps j b (d ∷ defs) m h =
    prime_meta-keeps j b defs _ (one (Bool-cases (str_eq d.symbol j)))
  where
    old : (o : Option SymbolMeta) → baseline_of o ≡ some b → baseline_or o d.reference_price ≡ b
    old none e = cc
    old (some k) e = cc

    new : SymbolMeta
    new = record {
      name = d.name;
      reference_price = d.reference_price;
      baseline = baseline_or (lookup d.symbol m) d.reference_price;
    }

    one :
        (str_eq d.symbol j ≡ true) ⊎ (str_eq d.symbol j ≡ false)
        → baseline_of (lookup j (insert d.symbol new m)) ≡ some b
    one (inl same) =
        rw (lookup-insert d.symbol j new m, same)
          (ap some (old (lookup d.symbol m) (rw ((eq_iff d.symbol j).0 same) h)))
    one (inr other) = rw (lookup-insert d.symbol j new m, other) h

-- Priming the universe again never moves the baseline of a symbol that has one, and touches no view
-- and no listener.
pub prime_universe-keeps :
    (j : String) (b : Text) (defs : List SymbolDef) (s : Store)
    → baseline_of (lookup j s.meta) ≡ some b
    → (baseline_of (lookup j (prime_universe defs s).meta) ≡ some b)
      × ((prime_universe defs s).records ≡ s.records)
unfolding prime_universe
prime_universe-keeps j b defs s h = (prime_meta-keeps j b defs s.meta h, refl)
