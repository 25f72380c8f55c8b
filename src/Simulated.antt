-- ===== src/Simulated.antt =====
-- client/Tckr.MarketWatch/src/data/SimulatedSource.ts: the simulator's universe, its seeded generator, and
-- the session that it reconstructs at once. A generator is its 32-bit state, and a draw is the
-- numerator of a fraction of 2 ^ 32. `Number`s are exact here: the rounding of doubles in the size of
-- the opening gap is not modelled. public/symbols.json is a parameter.
pub mod Draws
pub mod Backfills
pub mod Samples
pub mod State
pub mod Engine
pub mod Sessions
pub mod Source
pub mod Events
pub mod Listing
pub mod Kept
pub mod Writes
pub mod Prices
pub mod Runs
pub mod Delays
pub mod Delivered
pub mod Answers
pub mod Batches
use Prim.Native.Nat.{bit_xor, bit_or}
use tckr.Prelude.{
  ℕ, zero, suc, ◌+◌, ◌*◌, ◌/◌, ◌%◌, ◌^◌, max, Bool, not, Option, none, some, List, [], ◌∷◌, ◌++◌,
  String, str_eq, length, drop, ltb, ◌==◌, if◌then◌else◌, xor,
}
use tckr.Prelude.Int.{ℤ, pos, pos_part, sub_ℕ, signed, is_neg, abs, ◌+ℤ◌, ◌-ℤ◌, ◌*ℤ◌, ltb_ℤ}
use tckr.Text.{Text, to_digits}
use tckr.Contracts.{Stream, live, delayed}
use tckr.Decimal.{to_scaled_int}
use tckr.Messages.{units, ◌>>=◌}
use tckr.Calendar.{DateKey, date_key_text}

pub record SimSymbol : Type 0 where
  pub symbol : String
  pub name : String
  pub reference_price : Text
  pub tick_size : Text
  pub lot_size : ℕ
  pub weight : ℕ

-- `Math.imul`, as an unsigned number.
abbrev pub imul : ℕ → ℕ → ℕ
imul a b = a * b % 2 ^ 32

-- `mulberry32`: the state of a new generator.
unfoldable pub mulberry32 : ℕ → ℕ
mulberry32 seed = seed % 2 ^ 32

-- `next()`: the generator after it, and the draw.
unfoldable pub next : ℕ → ℕ × ℕ
next a =
    let a' = (a + 1831565813) % 2 ^ 32 in
    let t = imul (bit_xor a' (a' / 2 ^ 15)) (bit_or a' 1) in
    let t' = bit_xor t ((t + imul (bit_xor t (t / 2 ^ 7)) (bit_or t 61)) % 2 ^ 32) in
    (a', bit_xor t' (t' / 2 ^ 14) % 2 ^ 32)

-- `Math.floor(rng() * n)`
abbrev pub scaled_draw : ℕ → ℕ → ℕ
scaled_draw draw n = draw * n / 2 ^ 32

-- `rng() < percent / 100`
abbrev pub is_below : ℕ → ℕ → Bool
is_below draw percent = ltb (draw * 100) (percent * 2 ^ 32)

-- `WeightedPicker`: `cumulative`, `total` and `pick`; `none` is the thrown error.
unfoldable pub cumulative : ℕ → List SimSymbol → List ℕ
cumulative running [] = []
cumulative running (s ∷ symbols) = (running + s.weight) ∷ cumulative (running + s.weight) symbols

unfoldable pub total_weight : ℕ → List SimSymbol → ℕ
total_weight running [] = running
total_weight running (s ∷ symbols) = total_weight (running + s.weight) symbols

abbrev pub last_symbol : List SimSymbol → Option SimSymbol
last_symbol [] = none
last_symbol (s ∷ []) = some s
last_symbol (s ∷ t ∷ symbols) = last_symbol (t ∷ symbols)

-- The loop of `pick`; the target is over 2 ^ 32.
unfoldable pub pick_below : ℕ → List ℕ → List SimSymbol → Option SimSymbol
pick_below target (bound ∷ bounds) (symbol ∷ symbols) =
    if ltb target (bound * 2 ^ 32) then some symbol else pick_below target bounds symbols
pick_below target _ _ = none

unfoldable pub pick : List SimSymbol → ℕ → Option SimSymbol
unfolding cumulative total_weight pick_below
pick symbols roll =
    elim (pick_below (roll * total_weight 0 symbols) (cumulative 0 symbols) symbols) [
      | none ↦ last_symbol symbols
      | some symbol ↦ some symbol
    ]

abbrev pub resolve_stream : String → Stream
resolve_stream demo_user = if str_eq demo_user "user-002" then delayed else live

-- FNV-1a over the code units.
unfoldable pub fnv_1a : ℕ → Text → ℕ
fnv_1a hash [] = hash
fnv_1a hash (c ∷ input) = fnv_1a (imul (bit_xor hash c) 16777619) input

unfoldable pub hash_seed : ℕ → String → DateKey → ℕ
unfolding fnv_1a
hash_seed base_seed symbol session_date_key =
    fnv_1a 2166136261
      (to_digits base_seed ++ b':' ∷ units symbol ++ b':' ∷ date_key_text session_date_key)

abbrev pub up_percent : ℤ → ℤ → ℕ
up_percent price open_price =
    if ltb_ℤ open_price price then 35 else if ltb_ℤ price open_price then 65 else 50

-- The generator after it, and the signed steps.
unfoldable pub pick_signed_steps : ℕ → ℤ → ℤ → ℕ → ℕ × ℤ
unfolding next
pick_signed_steps rng price open_price max_steps =
    let first = next rng in
    let second = next first.0 in
    let steps = scaled_draw first.1 max_steps in
    let go_up = is_below second.1 (up_percent price open_price) in
    (second.0, if steps == 0 then pos 0 else signed (not go_up) steps)

abbrev pub tick_of : SimSymbol → ℤ
tick_of def = to_scaled_int def.tick_size

-- `next < tick ? tick : next`: never non-positive.
abbrev pub at_least_tick : ℤ → ℤ → ℤ
at_least_tick tick price = if ltb_ℤ price tick then tick else price

-- `MAX_OPENING_GAP` is 8 / 1000; a quotient below 0 is rounded down to one that 1 is above. The tick is
-- not 0.
abbrev pub max_gap_ticks : ℤ → ℤ → ℕ
max_gap_ticks reference tick =
    if xor (is_neg reference) (is_neg tick)
    then 1
    else max 1 (abs reference * 8 / (abs tick * 1000))

-- `Math.round((gapRng() * 2 - 1) * maxTicks)`
abbrev pub gap_ticks : ℕ → ℕ → ℤ
gap_ticks draw max_ticks = sub_ℕ ((draw * max_ticks + 2 ^ 30) / 2 ^ 31) max_ticks

-- `auctionOpen` where the number of ticks is a number.
unfoldable pub gapped_open : SimSymbol → ℕ → ℤ
unfolding next mulberry32
gapped_open def seed =
    let reference = to_scaled_int def.reference_price in
    let tick = tick_of def in
    let draw = (next (mulberry32 (bit_xor seed 1597463007 % 2 ^ 32))).1 in
    at_least_tick tick (reference +ℤ tick *ℤ gap_ticks draw (max_gap_ticks reference tick))

-- With a tick of 0, the number of ticks is no finite number, and `BigInt` of it throws: `none`.
unfoldable pub auction_open : SimSymbol → ℕ → Option ℤ
unfolding gapped_open
auction_open def seed = if abs (tick_of def) == 0 then none else some (gapped_open def seed)

pub record HistorySample : Type 0 where
  pub t : ℤ
  pub price : ℤ

abbrev pub history_sample_interval_ms : ℕ
history_sample_interval_ms = 30000

abbrev pub history_max_points : ℕ
history_max_points = 4000

-- `history.push(sample)`, and `history.shift()` above the bound.
unfoldable pub push_sample : HistorySample → List HistorySample → List HistorySample
push_sample sample history =
    let pushed = history ++ sample ∷ [] in
    if ltb history_max_points (length pushed) then drop 1 pushed else pushed

-- The variables of `computeBackfilledSession`'s loop.
pub record Backfill : Type 0 where
  pub rng : ℕ
  pub price : ℤ
  pub high : ℤ
  pub low : ℤ
  pub volume : ℕ
  pub history : List HistorySample

abbrev pub max_ℤ : ℤ → ℤ → ℤ
max_ℤ price high = if ltb_ℤ high price then price else high

abbrev pub min_ℤ : ℤ → ℤ → ℤ
min_ℤ price low = if ltb_ℤ price low then price else low

abbrev pub backfill_max_steps_per_slot : ℕ
backfill_max_steps_per_slot = 6

-- The body of `if (slot > 0)`.
unfoldable pub backfill_step : SimSymbol → ℤ → Backfill → Backfill
unfolding pick_signed_steps next
backfill_step def open_price b =
    let steps = pick_signed_steps b.rng b.price open_price backfill_max_steps_per_slot in
    let price = at_least_tick (tick_of def) (b.price +ℤ tick_of def *ℤ steps.1) in
    let lots = next steps.0 in
    record {
      rng = lots.0;
      price = price;
      high = max_ℤ price b.high;
      low = min_ℤ price b.low;
      volume = b.volume + def.lot_size * (1 + scaled_draw lots.1 10);
      history = b.history;
    }

-- The rest of the body, in each slot.
unfoldable pub sample_slot : ℤ → ℕ → Backfill → Backfill
unfolding push_sample
sample_slot session_open_at slot b = record b {
  history =
      push_sample
        (record { t = session_open_at +ℤ pos (slot * history_sample_interval_ms); price = b.price })
        b.history;
}

abbrev pub backfill_start : ℤ → ℕ → Backfill
backfill_start open_price seed = record {
  rng = mulberry32 seed;
  price = open_price;
  high = open_price;
  low = open_price;
  volume = 0;
  history = [];
}

-- The loop after the slots from 0 to `slot`.
unfoldable pub backfill_slots : SimSymbol → ℤ → ℤ → ℕ → ℕ → Backfill
unfolding backfill_step sample_slot
backfill_slots def open_price session_open_at seed zero =
    sample_slot session_open_at 0 (backfill_start open_price seed)
backfill_slots def open_price session_open_at seed (suc slot) =
    sample_slot session_open_at (suc slot)
      (backfill_step def open_price (backfill_slots def open_price session_open_at seed slot))

abbrev pub total_slots : ℤ → ℤ → ℕ
total_slots session_open_at target_time =
    pos_part (target_time -ℤ session_open_at) / history_sample_interval_ms

-- The session: its `open`, and its other fields.
unfoldable pub compute_backfilled_session : SimSymbol → ℤ → ℤ → ℕ → Option (ℤ × Backfill)
unfolding auction_open backfill_slots
compute_backfilled_session def session_open_at target_time seed = do
  open_price ← auction_open def seed
  some (
    open_price,
    backfill_slots def open_price session_open_at seed (total_slots session_open_at target_time),
  )
