-- ===== src/DetailQuote/Latest.antt =====
-- pages/useDetailQuote.ts: which of several ticks is the latest, by the order of their timestamps.
use Prim.Native.Char.{Char, code}
use Prim.Native.Nat.{Ordering, compare as compare_ℕ}
use Prim.Native.String.compare
use Prim.Native.String.{compare as compare_strings, then as then_}
use Prim.{tt}
use mathlib.Core.Path.{subst}
use tckr.Prelude.{
  ◌≡◌, refl, ap, ◌∙◌, sym, arith, Bool, true, false, some, List, [], ◌∷◌, ◌++◌, String,
  if◌then◌else◌, Bool-cases, inl, inr, All,
}
use tckr.Contracts.{Tick}
use tckr.DetailQuote.{str_lt}
use tckr.DetailQuote.Page.{latest_tick}

-- `a` is no later than `b`.
abbrev pub IsNoLater : String → String → Type 0
IsNoLater a b = str_lt b a ≡ false

-- The verdict on the first characters, and behind equal ones on the rest.
abbrev lt_then : Ordering → Bool → Bool
lt_then Ordering.lt rest = true
lt_then Ordering.eq rest = rest
lt_then Ordering.gt rest = false

abbrev is_lt : Ordering → Bool
is_lt o = elim o [ Ordering.lt ↦ true | _ ↦ false ]

is_lt-then : (o p : Ordering) → is_lt (then_ o p) ≡ lt_then o (is_lt p)
is_lt-then Ordering.lt p = refl
is_lt-then Ordering.eq p = refl
is_lt-then Ordering.gt p = refl

lt_first :
    (c d : Char) (s t : String)
    → str_lt (String.◌∷◌ c s) (String.◌∷◌ d t) ≡ lt_then (compare_ℕ (code c) (code d)) (str_lt s t)
lt_first c d s t =
    ap is_lt (compare.cons-cons c d s t)
    ∙ is_lt-then (compare_ℕ (code c) (code d)) (compare_strings s t)

lt_of_nil : (c : Char) (s : String) → str_lt (String.◌∷◌ c s) "" ≡ false
lt_of_nil c s = ap is_lt (compare.cons-nil c s)

lt_nil : (c : Char) (s : String) → str_lt "" (String.◌∷◌ c s) ≡ true
lt_nil c s = ap is_lt (compare.nil-cons c s)

lt_nils : str_lt "" "" ≡ false
lt_nils = refl

str_lt_asym : (a b : String) → str_lt a b ≡ true → IsNoLater a b
str_lt_asym String.[] String.[] h = lt_nils
str_lt_asym String.[] (String.◌∷◌ d t) h = lt_of_nil d t
str_lt_asym (String.◌∷◌ c s) String.[] h = ground (arith, lt_of_nil c s)
str_lt_asym (String.◌∷◌ c s) (String.◌∷◌ d t) h =
    ground (arith, lt_first c d s t, lt_first d c t s, str_lt_asym s t)

IsNoLater-trans : (a b c : String) → IsNoLater a b → IsNoLater b c → IsNoLater a c
IsNoLater-trans String.[] b String.[] h k = lt_nils
IsNoLater-trans String.[] b (String.◌∷◌ d t) h k = lt_of_nil d t
IsNoLater-trans (String.◌∷◌ c s) String.[] e h k = ground (arith, lt_nil c s)
IsNoLater-trans (String.◌∷◌ c s) (String.◌∷◌ d t) String.[] h k = ground (arith, lt_nil d t)
IsNoLater-trans (String.◌∷◌ c s) (String.◌∷◌ d t) (String.◌∷◌ e u) h k =
    ground (arith, lt_first d c t s, lt_first e d u t, lt_first e c u s, IsNoLater-trans s t u)

-- Of some ticks, one that none before it is later than, and all behind it are earlier than.
abbrev pub IsLatest : List Tick → Tick → Type 0
IsLatest ticks latest =
    (before : List Tick) × (after : List Tick) × (ticks ≡ before ++ latest ∷ after)
    × All (λ t. IsNoLater t.t latest.t) before
    × All (λ t. str_lt t.t latest.t ≡ true) after

-- A fold over ticks that keeps the latest.
abbrev pub kept_latest : Tick → List Tick → Tick
kept_latest kept [] = kept
kept_latest kept (tick ∷ ticks) = kept_latest (latest_tick (some kept) tick) ticks

cons_injective : (x y : Tick) (xs ys : List Tick) → x ∷ xs ≡ y ∷ ys → (x ≡ y) × (xs ≡ ys)
cons_injective x y xs ys h = (cc, cc)

-- An earlier tick behind the first changes nothing.
skipped :
    (kept tick : Tick) (ticks : List Tick) (latest : Tick)
    → str_lt tick.t kept.t ≡ true
    → IsLatest (kept ∷ ticks) latest
    → IsLatest (kept ∷ tick ∷ ticks) latest
skipped kept tick ticks latest earlier ([], after, split, below, above) =
    let (head, rest) = cons_injective kept latest ticks after split in
    ([], tick ∷ after, rw (head, rest) refl, tt, (rw head at earlier, above))
skipped kept tick ticks latest earlier (b ∷ before, after, split, (below, belows), above) =
    let (head, rest) = cons_injective kept b ticks (before ++ latest ∷ after) split in
    let kept_below : IsNoLater kept.t latest.t =
      subst (λ (x : Tick). IsNoLater x.t latest.t) (sym head) below in
    (
      kept ∷ tick ∷ before,
      after,
      ap (λ t. kept ∷ tick ∷ t) rest,
      (
        kept_below,
        (
          IsNoLater-trans tick.t kept.t latest.t (str_lt_asym tick.t kept.t earlier) kept_below,
          belows,
        ),
      ),
      above,
    )

-- A tick that is no earlier comes before all that it was later than.
replaced :
    (kept tick : Tick) (ticks : List Tick) (latest : Tick)
    → str_lt tick.t kept.t ≡ false
    → IsLatest (tick ∷ ticks) latest
    → IsLatest (kept ∷ tick ∷ ticks) latest
replaced kept tick ticks latest later ([], after, split, below, above) =
    let (head, rest) = cons_injective tick latest ticks after split in
    (
      kept ∷ [],
      after,
      ap (λ t. kept ∷ t) split,
      (subst (λ (x : Tick). IsNoLater kept.t x.t) head later, tt),
      above,
    )
replaced kept tick ticks latest later (b ∷ before, after, split, (below, belows), above) =
    let (head, rest) = cons_injective tick b ticks (before ++ latest ∷ after) split in
    let tick_below : IsNoLater tick.t latest.t =
      subst (λ (x : Tick). IsNoLater x.t latest.t) (sym head) below in
    (
      kept ∷ b ∷ before,
      after,
      ap (λ t. kept ∷ t) split,
      (IsNoLater-trans kept.t tick.t latest.t later tick_below, (below, belows)),
      above,
    )

pub kept_latest-IsLatest :
    (kept : Tick) (ticks : List Tick) → IsLatest (kept ∷ ticks) (kept_latest kept ticks)
kept_latest-IsLatest kept [] = ([], [], refl, tt, tt)
kept_latest-IsLatest kept (tick ∷ ticks) = elim (Bool-cases (str_lt tick.t kept.t)) [
  | inl earlier ↦
      subst
        (λ (b : Bool).
          IsLatest (kept ∷ tick ∷ ticks) (kept_latest (if b then kept else tick) ticks))
        (sym earlier)
        (skipped kept tick ticks (kept_latest kept ticks) earlier (kept_latest-IsLatest kept ticks))
  | inr later ↦
      subst
        (λ (b : Bool).
          IsLatest (kept ∷ tick ∷ ticks) (kept_latest (if b then kept else tick) ticks))
        (sym later)
        (replaced kept tick ticks (kept_latest tick ticks) later (kept_latest-IsLatest tick ticks))
]
