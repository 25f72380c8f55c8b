-- ===== src/Simulated/Kept.antt =====
-- Loops over the runtimes of data/SimulatedSource.ts, to the end or until one throws: what they keep of the
-- listing.
use Prim.{tt}
use mathlib.Core.Path.{subst}
use tckr.Prelude.{
  ◌≡◌, refl, ap, sym, ◌∙◌, arith, true, false, some, Option, Option-cases, List, [], ◌∷◌, String,
  str_eq, Bool-cases, inl, inr, All,
}
use tckr.JsMap.{JsMap, lookup}
use tckr.Simulated.{SimSymbol}
use tckr.Simulated.Draws.{some_injective, none-some}
use tckr.Simulated.Engine.{each_runtime, each_until}
use tckr.Simulated.State.{SymbolRuntime}
use tckr.Simulated.Listing.{IsSound, IsListed, IsOneOf, IsPrinted, IsListing}

-- A write that keeps a runtime's definition and decimals, and the soundness of its prices.
abbrev pub IsKept : SymbolRuntime → SymbolRuntime → Type 0
IsKept r r' = (r'.def ≡ r.def) × (r'.decimals ≡ r.decimals) × (IsSound r → IsSound r')

-- Runtimes, each of which is kept under its symbol.
abbrev pub AreKept : JsMap SymbolRuntime → JsMap SymbolRuntime → Type 0
AreKept [] [] = Unit
AreKept [] (e ∷ after) = ⊥
AreKept (e ∷ before) [] = ⊥
AreKept (e ∷ before) (e' ∷ after) = (e'.0 ≡ e.0) × IsKept e.1 e'.1 × AreKept before after

AreKept-refl : (runtimes : JsMap SymbolRuntime) → AreKept runtimes runtimes
AreKept-refl [] = tt
AreKept-refl ((k, r) ∷ runtimes) = (refl, (refl, refl, λ h. h), AreKept-refl runtimes)

pub each_runtime-AreKept :
    (f : SymbolRuntime → SymbolRuntime)
    → ((r : SymbolRuntime) → IsKept r (f r))
    → (runtimes : JsMap SymbolRuntime) → AreKept runtimes (each_runtime f runtimes)
unfolding each_runtime
each_runtime-AreKept f keeps [] = tt
each_runtime-AreKept f keeps ((k, r) ∷ runtimes) =
    (refl, keeps r, each_runtime-AreKept f keeps runtimes)

-- A loop that is cut short keeps the runtimes that it has not come to.
pub each_until-AreKept :
    (f : SymbolRuntime → Option SymbolRuntime)
    → ((r r' : SymbolRuntime) → f r ≡ some r' → IsKept r r')
    → (runtimes : JsMap SymbolRuntime) → AreKept runtimes (each_until f runtimes).0
unfolding each_until
each_until-AreKept f keeps [] = tt
each_until-AreKept f keeps ((k, r) ∷ runtimes) = elim (Option-cases (f r)) [
  | inl threw ↦ rw (threw, each_until) (AreKept-refl ((k, r) ∷ runtimes))
  | inr (r', wrote) ↦
      rw (wrote, each_until) (refl, keeps r r' wrote, each_until-AreKept f keeps runtimes)
]

lookup-AreKept :
    (symbol : String) (before after : JsMap SymbolRuntime) (r : SymbolRuntime)
    → AreKept before after
    → lookup symbol before ≡ some r
    → (r' : SymbolRuntime) × (lookup symbol after ≡ some r') × IsKept r r'
unfolding lookup
lookup-AreKept symbol [] [] r h found = elim (none-some found) [ ]
lookup-AreKept symbol [] (e ∷ after) r h found = elim h [ ]
lookup-AreKept symbol (e ∷ before) [] r h found = elim h [ ]
lookup-AreKept symbol ((k, q) ∷ before) ((k', q') ∷ after) r (name, kept, h) found =
    elim (Bool-cases (str_eq k symbol)) [
      | inl same ↦
          let here : str_eq k' symbol ≡ true = ap (λ n. str_eq n symbol) name ∙ same in
          rw here (
            q',
            refl,
            subst (λ (x : SymbolRuntime). IsKept x q') (some_injective (rw same at found)) kept,
          )
      | inr other ↦
          let away : str_eq k' symbol ≡ false = ap (λ n. str_eq n symbol) name ∙ other in
          rw away (lookup-AreKept symbol before after r h (rw other at found))
    ]

AreKept-IsListed :
    (before after : JsMap SymbolRuntime)
    → AreKept before after
    → (defs : List SimSymbol) → All (IsListed before) defs
    → All (IsListed after) defs
AreKept-IsListed before after kept [] h = tt
AreKept-IsListed before after kept (def ∷ defs) ((r, found, own, sound), h) =
    let (r', found', (same, places, keeps)) = lookup-AreKept def.symbol before after r kept found in
    ((r', found', same ∙ own, keeps sound), AreKept-IsListed before after kept defs h)

AreKept-IsPrinted :
    (defs : List SimSymbol) (before after : JsMap SymbolRuntime)
    → AreKept before after
    → All (IsPrinted defs) before
    → All (IsPrinted defs) after
AreKept-IsPrinted defs [] [] kept h = tt
AreKept-IsPrinted defs [] (e ∷ after) kept h = elim kept [ ]
AreKept-IsPrinted defs (e ∷ before) [] kept h = elim kept [ ]
AreKept-IsPrinted defs ((k, r) ∷ before) ((k', r') ∷ after) (name, (same, places, keeps), kept)
      ((few, one), h) =
    (
      (omega (arith, places), subst (IsOneOf defs) (sym same) one),
      AreKept-IsPrinted defs before after kept h,
    )

-- A loop over the runtimes keeps the listing.
pub AreKept-IsListing :
    (before after : JsMap SymbolRuntime) (defs : List SimSymbol)
    → AreKept before after
    → IsListing before defs
    → IsListing after defs
AreKept-IsListing before after defs kept (listed, printed) = (
  AreKept-IsListed before after kept defs listed,
  AreKept-IsPrinted defs before after kept printed,
)
