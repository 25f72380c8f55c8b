-- ===== src/Store.antt =====
-- client/Tckr.MarketWatch/src/data/store.ts: the per-symbol views that the pages read. The module's
-- variables are the fields of a `Store`; a listener is known by a number, and each operation returns
-- the store after it and the calls that it makes, in order. Listeners are taken not to write to the
-- store while it calls them, and the console warning of a dropped update is not modelled.
pub mod Updates
pub mod Sequences
pub mod Reset
use tckr.Prelude.{
  ℕ, Bool, true, false, Option, none, some, List, [], ◌∷◌, ◌++◌, ◌==◌, ◌&&◌, if◌then◌else◌, String,
  str_eq, map,
}
use tckr.Prelude.Int.{ℤ, pos, ◌+ℤ◌}
use tckr.Text.{Text}
use tckr.Contracts.{Stream, Tick, Snapshot}
use tckr.Decimal.{subtract}
use tckr.Decimal.Percent.{percent_change}
use tckr.JsMap.{JsMap, lookup, insert, add, delete}

pub record SymbolView : Type 0 where
  pub symbol : String
  pub name : String
  pub price : Text
  pub change : Text
  pub change_percent : ℤ
  pub volume : ℤ
  pub last_update : ℕ
  pub stream : Stream

pub record SymbolMeta : Type 0 where
  pub name : String
  pub reference_price : Text
  pub baseline : Text

pub record SymbolRecord : Type 0 where
  pub view : Option SymbolView
  pub listeners : List ℕ

pub record Store : Type 0 where
  pub records : JsMap SymbolRecord
  pub meta : JsMap SymbolMeta
  pub symbol_list : List String
  pub stream_discard_listeners : List ℕ

abbrev pub empty_store : Store
empty_store = record { records = []; meta = []; symbol_list = []; stream_discard_listeners = [] }

-- `Set.add` and `Set.delete` of listeners.
abbrev pub has_listener : ℕ → List ℕ → Bool
has_listener cb [] = false
has_listener cb (l ∷ ls) = if l == cb then true else has_listener cb ls

abbrev pub add_listener : ℕ → List ℕ → List ℕ
add_listener cb ls = if has_listener cb ls then ls else ls ++ cb ∷ []

abbrev pub delete_listener : ℕ → List ℕ → List ℕ
delete_listener cb [] = []
delete_listener cb (l ∷ ls) = let rest = delete_listener cb ls in if l == cb then rest else l ∷ rest

abbrev pub record_or_new : Option SymbolRecord → SymbolRecord
record_or_new none = record { view = none; listeners = [] }
record_or_new (some existing) = existing

-- The record that `recordFor` returns; the map holds it from then on.
abbrev pub record_for : String → Store → SymbolRecord
record_for symbol s = record_or_new (lookup symbol s.records)

abbrev pub listeners_of : Option SymbolRecord → List ℕ
listeners_of none = []
listeners_of (some r) = r.listeners

-- The calls that `notify` makes.
unfoldable pub notify : String → Store → List ℕ
notify symbol s = listeners_of (lookup symbol s.records)

abbrev pub same_symbol_list : List String → List String → Bool
same_symbol_list [] [] = true
same_symbol_list (a ∷ xs) (b ∷ ys) = str_eq a b && same_symbol_list xs ys
same_symbol_list _ _ = false

unfoldable pub subscribe_symbol : String → ℕ → Store → Store
subscribe_symbol symbol cb s =
    let r = record_for symbol s in
    record s {
      records = insert symbol (record r { listeners = add_listener cb r.listeners }) s.records;
    }

-- The function that `subscribeSymbol` returns. The record is the one that was subscribed to: records
-- are never removed from the map in production.
unfoldable pub unsubscribe_symbol : String → ℕ → Store → Store
unsubscribe_symbol symbol cb s = elim (lookup symbol s.records) [
  | none ↦ s
  | some r ↦ record s {
    records = insert symbol (record r { listeners = delete_listener cb r.listeners }) s.records;
  }
]

abbrev pub view_of : Option SymbolRecord → Option SymbolView
view_of none = none
view_of (some r) = r.view

unfoldable pub get_symbol_snapshot : String → Store → Option SymbolView
get_symbol_snapshot symbol s = view_of (lookup symbol s.records)

unfoldable pub on_stream_discard : ℕ → Store → Store
on_stream_discard listener s = record s {
  stream_discard_listeners = add_listener listener s.stream_discard_listeners;
}

-- The function that `onStreamDiscard` returns.
unfoldable pub off_stream_discard : ℕ → Store → Store
off_stream_discard cb s = record s {
  stream_discard_listeners = delete_listener cb s.stream_discard_listeners;
}

pub record SymbolDef : Type 0 where
  pub symbol : String
  pub name : String
  pub reference_price : Text

-- `existing?.baseline ?? def.referencePrice`
abbrev pub baseline_or : Option SymbolMeta → Text → Text
baseline_or none reference = reference
baseline_or (some existing) reference = existing.baseline

-- The loop of `primeUniverse`.
unfoldable pub prime_meta : JsMap SymbolMeta → List SymbolDef → JsMap SymbolMeta
prime_meta meta [] = meta
prime_meta meta (d ∷ defs) =
    prime_meta
      (insert d.symbol
        (record {
          name = d.name;
          reference_price = d.reference_price;
          baseline = baseline_or (lookup d.symbol meta) d.reference_price;
        })
        meta)
      defs

unfoldable pub prime_universe : List SymbolDef → Store → Store
unfolding prime_meta
prime_universe symbols s =
    let next_list = map (λ d. d.symbol) symbols in
    record s {
      meta = prime_meta s.meta symbols;
      symbol_list = if same_symbol_list next_list s.symbol_list then s.symbol_list else next_list;
    }

-- `snapshot.previousClose ?? snapshot.open`
abbrev pub snapshot_baseline : Snapshot → Text
snapshot_baseline snapshot = elim snapshot.previous_close [
  | none ↦ snapshot.open_price
  | some p ↦ p
]

abbrev pub set_view : String → SymbolView → Store → Store
set_view symbol v s = record s {
  records = insert symbol (record (record_for symbol s) { view = some v }) s.records;
}

-- The view that a snapshot puts on the board, and that a tick puts there.
abbrev pub snapshot_view : Snapshot → SymbolMeta → ℕ → SymbolView
snapshot_view snapshot existing now = record {
  symbol = snapshot.symbol;
  name = existing.name;
  price = snapshot.price;
  change = subtract snapshot.price (snapshot_baseline snapshot);
  change_percent = percent_change (snapshot_baseline snapshot) snapshot.price;
  volume = snapshot.volume;
  last_update = now;
  stream = snapshot.stream;
}

abbrev pub previous_volume : Option SymbolView → ℤ
previous_volume none = pos 0
previous_volume (some v) = v.volume

abbrev pub tick_view : Tick → SymbolMeta → Option SymbolView → ℕ → SymbolView
tick_view tick symbol_meta before now = record {
  symbol = tick.s;
  name = symbol_meta.name;
  price = tick.p;
  change = subtract tick.p symbol_meta.baseline;
  change_percent = percent_change symbol_meta.baseline tick.p;
  volume = previous_volume before +ℤ tick.q;
  last_update = now;
  stream = tick.st;
}

-- The body of `applySnapshot`, by what `meta` has for the symbol.
abbrev pub snapshot_with : Option SymbolMeta → Snapshot → ℕ → Store → Store × List ℕ
snapshot_with none snapshot now s = (s, [])
snapshot_with (some existing) snapshot now s =
    let anchored = record s {
      meta =
          insert snapshot.symbol (record existing { baseline = snapshot_baseline snapshot }) s.meta;
    } in
    let after = set_view snapshot.symbol (snapshot_view snapshot existing now) anchored in
    (after, notify snapshot.symbol after)

unfoldable pub apply_snapshot : Snapshot → ℕ → Store → Store × List ℕ
apply_snapshot snapshot now s = snapshot_with (lookup snapshot.symbol s.meta) snapshot now s

-- The body of `applyTick`, by what `meta` has for the symbol.
abbrev pub tick_with : Option SymbolMeta → Tick → ℕ → Store → Store × List ℕ
tick_with none tick now s = (s, [])
tick_with (some symbol_meta) tick now s =
    let before = (record_for tick.s s).view in
    let after = set_view tick.s (tick_view tick symbol_meta before now) s in
    (after, notify tick.s after)

unfoldable pub apply_tick : Tick → ℕ → Store → Store × List ℕ
apply_tick tick now s = tick_with (lookup tick.s s.meta) tick now s

-- The two loops of `resetStream`: views are cleared, with the calls to the listeners of each symbol
-- that had one, and baselines go back to the reference price.
abbrev pub cleared : SymbolRecord → SymbolRecord
cleared r = record r { view = none }

unfoldable pub clear_views : JsMap SymbolRecord → JsMap SymbolRecord
clear_views [] = []
clear_views ((k, r) ∷ m) = (k, cleared r) ∷ clear_views m

abbrev pub calls_if_shown : Option SymbolView → List ℕ → List ℕ
calls_if_shown none ls = []
calls_if_shown (some v) ls = ls

unfoldable pub cleared_calls : JsMap SymbolRecord → List ℕ
cleared_calls [] = []
cleared_calls ((k, r) ∷ m) = calls_if_shown r.view r.listeners ++ cleared_calls m

unfoldable pub reset_meta : JsMap SymbolMeta → JsMap SymbolMeta
reset_meta [] = []
reset_meta ((k, m) ∷ rest) = (k, record m { baseline = m.reference_price }) ∷ reset_meta rest

unfoldable pub reset_stream : Store → Store × List ℕ
unfolding clear_views cleared_calls reset_meta
reset_stream s = (
  record s { records = clear_views s.records; meta = reset_meta s.meta },
  cleared_calls s.records ++ s.stream_discard_listeners,
)

unfoldable pub reset_store : Store → Store
reset_store s = empty_store
