-- ===== src/Simulated/Backfills.antt =====
-- The prices of data/SimulatedSource.ts: those of a session lie between its extremes, after a move of the
-- price, after a sample and in a reconstruction.
use tckr.Prelude.{
  ℕ, zero, suc, ◌*◌, ◌<◌, ◌≡◌, refl, ◌==◌, true, false, some, none, arith, List, [], ◌∷◌, ◌++◌,
  length, ltb, Bool-cases, inl, inr, All, All-append, All-drop,
}
use tckr.Prelude.Int.{ℤ, pos, abs, ◌≤ℤ◌, ◌+ℤ◌, ◌*ℤ◌}
use mathlib.Core.Path.{subst}
use tckr.Simulated.Draws.{some_injective, none-some}
use tckr.Simulated.{
  SimSymbol, HistorySample, Backfill, tick_of, at_least_tick, max_ℤ, min_ℤ, gapped_open,
  auction_open, push_sample, backfill_step, sample_slot, backfill_slots, pick_signed_steps,
  backfill_max_steps_per_slot, history_sample_interval_ms, history_max_points,
}

≤ℤ_trans : (a b c : ℤ) → a ≤ℤ b → b ≤ℤ c → a ≤ℤ c
≤ℤ_trans a b c h k = omega arith

pub at_least_tick_bound : (tick price : ℤ) → tick ≤ℤ at_least_tick tick price
at_least_tick_bound tick price = ground arith

gapped_open_bound : (def : SimSymbol) (seed : ℕ) → tick_of def ≤ℤ gapped_open def seed
unfolding gapped_open
gapped_open_bound def seed = ground arith

-- An opening price is a tick at least.
pub auction_open_bound :
    (def : SimSymbol) (seed : ℕ) (open_price : ℤ)
    → auction_open def seed ≡ some open_price
    → tick_of def ≤ℤ open_price
unfolding auction_open
auction_open_bound def seed open_price h = elim (Bool-cases (abs (tick_of def) == 0)) [
  | inl none_at ↦ elim (none-some (rw none_at at h)) [ ]
  | inr priced ↦
      subst (λ z. tick_of def ≤ℤ z) (some_injective (rw priced at h)) (gapped_open_bound def seed)
]

-- There is one for every tick but 0.
pub auction_open-some :
    (def : SimSymbol) (seed : ℕ)
    → 0 < abs (tick_of def)
    → (open_price : ℤ) × (auction_open def seed ≡ some open_price)
unfolding auction_open
auction_open-some def seed h =
    let priced : (abs (tick_of def) == 0) ≡ false = ground arith in rw priced (_, refl)

pub auction_open-none :
    (def : SimSymbol) (seed : ℕ) → abs (tick_of def) ≡ 0 → auction_open def seed ≡ none
unfolding auction_open
auction_open-none def seed h =
    let unpriced : (abs (tick_of def) == 0) ≡ true = ground arith in rw unpriced refl

abbrev pub IsInRange : ℤ → ℤ → HistorySample → Type 0
IsInRange low high sample = (low ≤ℤ sample.price) × (sample.price ≤ℤ high)

-- The prices of a session lie between its extremes, which are a tick at least: at its opening, now,
-- and at each sample of its history.
pub record IsSession (tick open_price price high low : ℤ) (history : List HistorySample)
    : Type 0 where
  pub tick_low : tick ≤ℤ low
  pub low_open : low ≤ℤ open_price
  pub open_high : open_price ≤ℤ high
  pub low_price : low ≤ℤ price
  pub price_high : price ≤ℤ high
  pub samples : All (IsInRange low high) history

module _ (low low' high high' : ℤ) (below : low' ≤ℤ low) (above : high ≤ℤ high') where
  IsInRange-wider : (h : HistorySample) → IsInRange low high h → IsInRange low' high' h
  IsInRange-wider h (l, r) = (omega arith, omega arith)

  All-wider :
      (hs : List HistorySample) → All (IsInRange low high) hs → All (IsInRange low' high') hs
  All-wider [] h = tt
  All-wider (x ∷ xs) (p, h) = (IsInRange-wider x p, All-wider xs h)

min_ℤ-lower : (a b : ℤ) → (min_ℤ a b ≤ℤ a) × (min_ℤ a b ≤ℤ b)
min_ℤ-lower a b = ground arith

max_ℤ-upper : (a b : ℤ) → (a ≤ℤ max_ℤ a b) × (b ≤ℤ max_ℤ a b)
max_ℤ-upper a b = ground arith

min_ℤ-greatest : (c a b : ℤ) → c ≤ℤ a → c ≤ℤ b → c ≤ℤ min_ℤ a b
min_ℤ-greatest c a b h k = ground arith

-- A move of the price, kept at a tick at least, with the extremes moved along.
module _ {tick open_price price high low : ℤ} {history : List HistorySample}
    (h : IsSession tick open_price price high low history) where
  pub move-IsSession :
      (moved : ℤ)
      → IsSession tick open_price
          (at_least_tick tick moved)
          (max_ℤ (at_least_tick tick moved) high)
          (min_ℤ (at_least_tick tick moved) low)
          history
  move-IsSession moved =
      let price' : ℤ = at_least_tick tick moved in
      let (low_new, low_old) = min_ℤ-lower price' low in
      let (high_new, high_old) = max_ℤ-upper price' high in
      record {
        tick_low = min_ℤ-greatest tick price' low (at_least_tick_bound tick moved) h.tick_low;
        low_open = ≤ℤ_trans (min_ℤ price' low) low open_price low_old h.low_open;
        open_high = ≤ℤ_trans open_price high (max_ℤ price' high) h.open_high high_old;
        low_price = low_new;
        price_high = high_new;
        samples =
            All-wider low (min_ℤ price' low) high (max_ℤ price' high) low_old high_old history
              h.samples;
      }

  with_samples :
      (samples : List HistorySample)
      → All (IsInRange low high) samples
      → IsSession tick open_price price high low samples
  with_samples samples in_range = record {
    tick_low = h.tick_low;
    low_open = h.low_open;
    open_high = h.open_high;
    low_price = h.low_price;
    price_high = h.price_high;
    samples = in_range;
  }

  pub push_sample-IsSession :
      (t : ℤ)
      → IsSession tick open_price price high low
          (push_sample (record { t = t; price = price }) history)
  unfolding push_sample
  push_sample-IsSession t =
      let pushed =
        All-append (IsInRange low high) history (record { t = t; price = price } ∷ []) h.samples
          ((h.low_price, h.price_high), tt) in
      elim (Bool-cases
        (ltb history_max_points (length (history ++ record { t = t; price = price } ∷ [])))) [
          | inl full ↦ rw full (with_samples _ (All-drop (IsInRange low high) 1 _ pushed))
          | inr room ↦ rw room (with_samples _ pushed)
        ]

-- What holds of the variables of the loop after a slot.
abbrev pub IsBackfill : SimSymbol → ℤ → Backfill → Type 0
IsBackfill def open_price b = IsSession (tick_of def) open_price b.price b.high b.low b.history

pub backfill_slots-IsBackfill :
    (def : SimSymbol) (open_price session_open_at : ℤ) (seed slot : ℕ)
    → tick_of def ≤ℤ open_price
    → IsBackfill def open_price (backfill_slots def open_price session_open_at seed slot)
unfolding backfill_slots sample_slot backfill_step
backfill_slots-IsBackfill def open_price session_open_at seed zero bound =
    let fresh : IsSession (tick_of def) open_price open_price open_price open_price [] = record {
      tick_low = bound;
      low_open = omega arith;
      open_high = omega arith;
      low_price = omega arith;
      price_high = omega arith;
      samples = tt;
    } in
    push_sample-IsSession fresh (session_open_at +ℤ pos (0 * history_sample_interval_ms))
backfill_slots-IsBackfill def open_price session_open_at seed (suc slot) bound =
    let b = backfill_slots def open_price session_open_at seed slot in
    let steps = pick_signed_steps b.rng b.price open_price backfill_max_steps_per_slot in
    let before = backfill_slots-IsBackfill def open_price session_open_at seed slot bound in
    push_sample-IsSession (move-IsSession before (b.price +ℤ tick_of def *ℤ steps.1))
      (session_open_at +ℤ pos (suc slot * history_sample_interval_ms))
