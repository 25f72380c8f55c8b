-- ===== src/Simulated/Listing.antt =====
-- The runtimes of data/SimulatedSource.ts: each symbol of the universe has one, with its own definition, and
-- with the prices of a session.
use tckr.Prelude.{
  ◌≤◌, ◌≡◌, refl, ap, sym, ◌∙◌, arith, true, false, some, ◌⊎◌, List, [], ◌∷◌, String, str_eq,
  eq_iff, Bool-cases, inl, inr, All,
}
use tckr.Prelude.Int.{◌≤ℤ◌}
use Prim.{tt}
use mathlib.Core.Path.{subst}
use tckr.Decimal.{is_decimal, to_scaled_int}
use tckr.Decimal.Exact.{decimal-HasDecimals}
use tckr.JsMap.{JsMap, lookup, insert, lookup-insert, str_eq_refl}
use tckr.Simulated.{SimSymbol, tick_of}
use tckr.Simulated.Draws.{some_injective, none-some}
use tckr.Simulated.Backfills.{IsSession}
use tckr.Simulated.State.{SymbolRuntime, Platform, fresh_runtime, add_runtimes}

-- The prices of a runtime, and the fractional digits that it prints them with.
abbrev pub IsSound : SymbolRuntime → Type 0
IsSound r = IsSession (tick_of r.def) r.open_price r.price r.high r.low r.history × (r.decimals ≤ 4)

abbrev pub IsListed : JsMap SymbolRuntime → SimSymbol → Type 0
IsListed runtimes def =
    (r : SymbolRuntime) × (lookup def.symbol runtimes ≡ some r) × (r.def ≡ def) × IsSound r

-- What the reference file promises of a symbol: prices are decimal strings, and the reference price is
-- a tick at least.
abbrev pub IsReference : SimSymbol → Type 0
IsReference def =
    (is_decimal def.reference_price ≡ true)
    × (is_decimal def.tick_size ≡ true)
    × (tick_of def ≤ℤ to_scaled_int def.reference_price)

-- Each symbol stands once.
abbrev pub IsNew : String → List SimSymbol → Type 0
IsNew symbol [] = Unit
IsNew symbol (def ∷ defs) = (str_eq def.symbol symbol ≡ false) × IsNew symbol defs

abbrev pub IsUniverse : List SimSymbol → Type 0
IsUniverse [] = Unit
IsUniverse (def ∷ defs) = IsReference def × IsNew def.symbol defs × IsUniverse defs

-- A write of a symbol's runtime keeps the listing, where the new runtime is as sound.
insert-IsListed :
    (symbol : String) (old new : SymbolRuntime)
    → new.def ≡ old.def
    → IsSound new
    → (runtimes : JsMap SymbolRuntime) → lookup symbol runtimes ≡ some old
    → (defs : List SimSymbol) → All (IsListed runtimes) defs
    → All (IsListed (insert symbol new runtimes)) defs
insert-IsListed symbol old new same sound runtimes was [] h = tt
insert-IsListed symbol old new same sound runtimes was (def ∷ defs) ((r, found, own, ok), h) = (
  elim (Bool-cases (str_eq symbol def.symbol)) [
    | inl here ↦
        let name : symbol ≡ def.symbol = (eq_iff symbol def.symbol).0 here in
        let old_is : old ≡ r =
          some_injective (sym was ∙ ap (λ k. lookup k runtimes) name ∙ found) in
        (
          new,
          lookup-insert symbol def.symbol new runtimes ∙ rw here refl,
          same ∙ ap (λ o. o.def) old_is ∙ own,
          sound,
        )
    | inr away ↦ (r, lookup-insert symbol def.symbol new runtimes ∙ rw away found, own, ok)
  ],
  insert-IsListed symbol old new same sound runtimes was defs h,
)

fresh_runtime-IsSound :
    (w : Platform) (def : SimSymbol) → IsReference def → IsSound (fresh_runtime w def)
fresh_runtime-IsSound w def (reference, tick, enough) =
    let reference_places = (decimal-HasDecimals def.reference_price reference).0 in
    let tick_places = (decimal-HasDecimals def.tick_size tick).0 in
    (
      record {
        tick_low = enough;
        low_open = omega arith;
        open_high = omega arith;
        low_price = omega arith;
        price_high = omega arith;
        samples = tt;
      },
      omega arith,
    )

module _ (w : Platform) where
  -- Other symbols' runtimes leave a listed one.
  add_runtimes_keeps :
      (defs : List SimSymbol) (runtimes : JsMap SymbolRuntime) (def : SimSymbol)
      → IsNew def.symbol defs
      → IsListed runtimes def
      → IsListed (add_runtimes w defs runtimes) def
  unfolding add_runtimes
  add_runtimes_keeps [] runtimes def fresh listed = listed
  add_runtimes_keeps (d ∷ defs) runtimes def (away, fresh) (r, found, own, sound) =
      add_runtimes_keeps defs (insert d.symbol (fresh_runtime w d) runtimes) def fresh (
        r,
        lookup-insert d.symbol def.symbol (fresh_runtime w d) runtimes ∙ rw away found,
        own,
        sound,
      )

  -- The constructor lists the universe.
  pub add_runtimes-IsListed :
      (defs : List SimSymbol) (runtimes : JsMap SymbolRuntime)
      → IsUniverse defs
      → All (IsListed (add_runtimes w defs runtimes)) defs
  unfolding add_runtimes
  add_runtimes-IsListed [] runtimes h = tt
  add_runtimes-IsListed (def ∷ defs) runtimes (reference, fresh, h) =
      let added = insert def.symbol (fresh_runtime w def) runtimes in
      (
        add_runtimes_keeps defs added def fresh (
          fresh_runtime w def,
          lookup-insert def.symbol def.symbol (fresh_runtime w def) runtimes
              ∙ rw (str_eq_refl def.symbol) refl,
          refl,
          fresh_runtime-IsSound w def reference,
        ),
        add_runtimes-IsListed defs added h,
      )

-- A symbol of the universe.
abbrev pub IsOneOf : List SimSymbol → SimSymbol → Type 0
IsOneOf [] def = ⊥
IsOneOf (d ∷ defs) def = (def ≡ d) ⊎ IsOneOf defs def

pub IsOneOf-All :
    (P : SimSymbol → Type 0) (defs : List SimSymbol) (def : SimSymbol)
    → All P defs
    → IsOneOf defs def
    → P def
IsOneOf-All P [] def h one = elim one [ ]
IsOneOf-All P (d ∷ defs) def (p, h) (inl here) = subst P (sym here) p
IsOneOf-All P (d ∷ defs) def (p, h) (inr there) = IsOneOf-All P defs def h there

-- No runtime prints more than four fractional digits, and each is of a symbol of the universe.
abbrev pub IsPrinted : List SimSymbol → (String × SymbolRuntime) → Type 0
IsPrinted defs e = (e.1.decimals ≤ 4) × IsOneOf defs e.1.def

abbrev pub IsListing : JsMap SymbolRuntime → List SimSymbol → Type 0
IsListing runtimes defs = All (IsListed runtimes) defs × All (IsPrinted defs) runtimes

insert-All :
    (defs : List SimSymbol) (symbol : String) (new : SymbolRuntime) (runtimes : JsMap SymbolRuntime)
    → IsPrinted defs (symbol, new)
    → All (IsPrinted defs) runtimes
    → All (IsPrinted defs) (insert symbol new runtimes)
unfolding insert
insert-All defs symbol new [] printed h = (printed, tt)
insert-All defs symbol new ((k, r) ∷ runtimes) printed (p, h) =
    elim (Bool-cases (str_eq k symbol)) [
      | inl same ↦ rw same (printed, h)
      | inr other ↦ rw other (p, insert-All defs symbol new runtimes printed h)
    ]

pub lookup-All :
    (defs : List SimSymbol) (symbol : String) (runtimes : JsMap SymbolRuntime) (r : SymbolRuntime)
    → All (IsPrinted defs) runtimes
    → lookup symbol runtimes ≡ some r
    → IsPrinted defs (symbol, r)
unfolding lookup
lookup-All defs symbol [] r h e = elim (none-some e) [ ]
lookup-All defs symbol ((k, q) ∷ runtimes) r (p, h) e = elim (Bool-cases (str_eq k symbol)) [
  | inl same ↦
      subst (λ (x : SymbolRuntime). IsPrinted defs (symbol, x)) (some_injective (rw same at e)) p
  | inr other ↦ lookup-All defs symbol runtimes r h (rw other at e)
]

-- The constructor's runtimes are of the symbols that are still to come, and of those before.
add_runtimes-All :
    (w : Platform) (all defs : List SimSymbol) (runtimes : JsMap SymbolRuntime)
    → IsUniverse defs
    → All (IsOneOf all) defs
    → All (IsPrinted all) runtimes
    → All (IsPrinted all) (add_runtimes w defs runtimes)
unfolding add_runtimes
add_runtimes-All w all [] runtimes u within h = h
add_runtimes-All w all (def ∷ defs) runtimes (reference, fresh, u) (one, within) h =
    add_runtimes-All w all defs (insert def.symbol (fresh_runtime w def) runtimes) u within (
      insert-All all def.symbol (fresh_runtime w def) runtimes
        ((fresh_runtime-IsSound w def reference).1, one) h)

IsOneOf-more :
    (d : SimSymbol) (defs some_defs : List SimSymbol)
    → All (IsOneOf defs) some_defs
    → All (IsOneOf (d ∷ defs)) some_defs
IsOneOf-more d defs [] h = tt
IsOneOf-more d defs (x ∷ some_defs) (p, h) = (inr p, IsOneOf-more d defs some_defs h)

pub IsOneOf-self : (defs : List SimSymbol) → All (IsOneOf defs) defs
IsOneOf-self [] = tt
IsOneOf-self (d ∷ defs) = (inl refl, IsOneOf-more d defs defs (IsOneOf-self defs))

pub add_runtimes-IsListing :
    (w : Platform) (defs : List SimSymbol)
    → IsUniverse defs
    → IsListing (add_runtimes w defs []) defs
add_runtimes-IsListing w defs u =
    (add_runtimes-IsListed w defs [] u, add_runtimes-All w defs defs [] u (IsOneOf-self defs) tt)

-- A write of one runtime keeps the listing.
pub insert-IsListing :
    (symbol : String) (old new : SymbolRuntime)
    → new.def ≡ old.def
    → IsSound new
    → (runtimes : JsMap SymbolRuntime) → lookup symbol runtimes ≡ some old
    → (defs : List SimSymbol) → IsListing runtimes defs
    → IsListing (insert symbol new runtimes) defs
insert-IsListing symbol old new same sound runtimes was defs (listed, printed) = (
  insert-IsListed symbol old new same sound runtimes was defs listed,
  insert-All defs symbol new runtimes
      (sound.1, subst (IsOneOf defs) (sym same) (lookup-All defs symbol runtimes old printed was).1)
      printed,
)
