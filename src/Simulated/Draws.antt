-- ===== src/Simulated/Draws.antt =====
-- The draws of data/SimulatedSource.ts: the picked symbol against the weights, and the sizes of what is
-- drawn.
use tckr.Prelude.{
  ◌∙◌, none, Option-cases, All, ℕ, suc, ◌+◌, ◌*◌, ◌^◌, ◌≤◌, ◌<◌, ◌≡◌, refl, ap, arith, some, List,
  [], ◌∷◌, ◌++◌, ltb, ltb→lt, ltb_false→le, Bool-cases, inl, inr, ◌==◌,
}
use tckr.Prelude.Int.{ℤ, abs, abs-signed}
use mathlib.Core.Path.{subst}
use native.Mathlib.Nat.{mul-le-mul_right}
use tckr.Simulated.{
  last_symbol, SimSymbol, next, scaled_draw, total_weight, cumulative, pick_below, pick,
  pick_signed_steps,
}

-- The generator's state and its draw are 32-bit numbers.
pub next_bound : (a : ℕ) → ((next a).0 < 2 ^ 32) × ((next a).1 < 2 ^ 32)
unfolding next
next_bound a = (omega arith, omega arith)

pub product_bound : (draw n : ℕ) → draw < 2 ^ 32 → 0 < n → draw * n < n * 2 ^ 32
product_bound draw n h pos_n =
    let scaled : suc draw * n ≤ 2 ^ 32 * n = mul-le-mul_right n h in omega arith

pub scaled_draw_bound : (draw n : ℕ) → draw < 2 ^ 32 → 0 < n → scaled_draw draw n < n
scaled_draw_bound draw n h pos_n = let below = product_bound draw n h pos_n in omega arith

-- A symbol of the universe in whose share of the weights the target lies, over 2 ^ 32.
abbrev pub IsBand : ℕ → ℕ → List SimSymbol → SimSymbol → Type 0
IsBand target running symbols picked =
    (before : List SimSymbol) × (after : List SimSymbol) × (symbols ≡ before ++ picked ∷ after)
    × (total_weight running before * 2 ^ 32 ≤ target)
    × (target < (total_weight running before + picked.weight) * 2 ^ 32)

pick_below-IsBand :
    (target running : ℕ) (symbols : List SimSymbol)
    → running * 2 ^ 32 ≤ target
    → target < total_weight running symbols * 2 ^ 32
    → (picked : SimSymbol) × (pick_below target (cumulative running symbols) symbols ≡ some picked)
      × IsBand target running symbols picked
unfolding pick_below cumulative total_weight
pick_below-IsBand target running [] low high = let never : ⊥ = omega arith in elim never [ ]
pick_below-IsBand target running (s ∷ symbols) low high =
    let rest = pick_below-IsBand target (running + s.weight) symbols in
    elim (Bool-cases (ltb target ((running + s.weight) * 2 ^ 32))) [
      | inl hit ↦ rw hit (s, refl, ([], symbols, refl, low, ltb→lt _ _ hit))
      | inr miss ↦ rw miss (
          let (picked, found, (before, after, split, above, below)) =
            rest (ltb_false→le _ _ miss) high in
          (picked, found, (s ∷ before, after, ap (λ t. s ∷ t) split, above, below)))
    ]

-- Where the weights are not all zero, every draw picks a symbol of the universe, and the share of the
-- weights that is its own is the one that the draw falls into.
pub pick-IsBand :
    (symbols : List SimSymbol) (roll : ℕ)
    → roll < 2 ^ 32
    → 0 < total_weight 0 symbols
    → (picked : SimSymbol) × (pick symbols roll ≡ some picked)
      × IsBand (roll * total_weight 0 symbols) 0 symbols picked
unfolding pick
pick-IsBand symbols roll h some_weight =
    let (picked, found, band) =
      pick_below-IsBand (roll * total_weight 0 symbols) 0 symbols (omega arith)
        (product_bound roll (total_weight 0 symbols) h some_weight) in
    (picked, rw (found, pick) refl, band)

-- A step is shorter than its bound, and it takes two draws whatever they are.
pub pick_signed_steps_bound :
    (rng : ℕ) (price open_price : ℤ) (max_steps : ℕ)
    → 0 < max_steps
    → (abs (pick_signed_steps rng price open_price max_steps).1 < max_steps)
      × ((pick_signed_steps rng price open_price max_steps).0 ≡ (next (next rng).0).0)
unfolding pick_signed_steps
pick_signed_steps_bound rng price open_price max_steps h =
    let steps : ℕ = scaled_draw (next rng).1 max_steps in
    let short : steps < max_steps = scaled_draw_bound _ max_steps (next_bound rng).1 h in
    elim (Bool-cases (steps == 0)) [
      | inl none_taken ↦ rw none_taken (h, refl)
      | inr taken ↦ rw taken (rw (abs-signed _ steps) short, refl)
    ]

pub some_injective {ℓ} : {A : Type ℓ} {a b : A} → some a ≡ some b → a ≡ b
some_injective {a} e = ap (λ o. elim o [ none ↦ a | some c ↦ c ]) e

pub none-some {ℓ} : {A : Type ℓ} {a : A} → none ≡ some a → ⊥
none-some e = ground arith

module _ {κ} (P : SimSymbol → Type κ) where
  pick_below_All :
      (target : ℕ) (bounds : List ℕ) (symbols : List SimSymbol) (picked : SimSymbol)
      → All P symbols
      → pick_below target bounds symbols ≡ some picked
      → P picked
  unfolding pick_below
  pick_below_All target [] symbols picked h e = elim (none-some e) [ ]
  pick_below_All target (bound ∷ bounds) [] picked h e = elim (none-some e) [ ]
  pick_below_All target (bound ∷ bounds) (symbol ∷ symbols) picked (p, h) e =
      elim (Bool-cases (ltb target (bound * 2 ^ 32))) [
        | inl hit ↦ subst P (some_injective (rw hit at e)) p
        | inr miss ↦ pick_below_All target bounds symbols picked h (rw miss at e)
      ]

  last_symbol_All :
      (symbols : List SimSymbol) (picked : SimSymbol)
      → All P symbols
      → last_symbol symbols ≡ some picked
      → P picked
  last_symbol_All [] picked h e = elim (none-some e) [ ]
  last_symbol_All (s ∷ []) picked (p, h) e = subst P (some_injective e) p
  last_symbol_All (s ∷ t ∷ symbols) picked (p, h) e = last_symbol_All (t ∷ symbols) picked h e

  -- What is picked is a symbol of the universe.
  pub pick_All :
      (symbols : List SimSymbol) (roll : ℕ) (picked : SimSymbol)
      → All P symbols
      → pick symbols roll ≡ some picked
      → P picked
  unfolding pick
  pick_All symbols roll picked h e =
      let target : ℕ = roll * total_weight 0 symbols in
      elim (Option-cases (pick_below target (cumulative 0 symbols) symbols)) [
        | inl missed ↦ last_symbol_All symbols picked h (rw (missed, pick) at e)
        | inr (found, hit) ↦
            pick_below_All target (cumulative 0 symbols) symbols picked h
              (hit ∙ rw (hit, pick) at e)
      ]
