-- ===== src/RingBuffer.antt =====
-- client/Tckr.MarketWatch/src/chart/ringBuffer.ts: the fixed-capacity buffer of one chart series.
-- The two `Float64Array`s are lists whose length never changes; the numbers are only moved about, so
-- their types are parameters, with the zero that a new array holds.
pub mod Window
use tckr.Prelude.{
  ℕ, zero, suc, ◌+◌, ◌-◌, Option, none, some, List, [], ◌∷◌, ltb, if◌then◌else◌, length, set,
  replicate, ◌==◌, take,
}

pub record RingBuffer {ℓ} (T V : Type ℓ) : Type ℓ where
  pub times : List T
  pub values : List V
  pub capacity : ℕ
  pub count : ℕ

-- `array.copyWithin(0, 1)`: each slot takes its right neighbour's content, the last keeps its own.
abbrev pub copy_within {ℓ} : {A : Type ℓ} → List A → List A
copy_within [] = []
copy_within (x ∷ []) = x ∷ []
copy_within (x ∷ y ∷ xs) = y ∷ copy_within (y ∷ xs)

module _ {ℓ} {T V : Type ℓ} where
  -- The constructor; `none` is the `RangeError`.
  unfoldable pub new : T → V → ℕ → Option (RingBuffer T V)
  new zero_time zero_value capacity =
      if capacity == 0
      then none
      else some (record {
        times = replicate capacity zero_time;
        values = replicate capacity zero_value;
        capacity = capacity;
        count = 0;
      })

  unfoldable pub push : RingBuffer T V → T → V → RingBuffer T V
  push b time_ms price =
      if ltb b.count b.capacity
      then record b {
        times = set b.times b.count time_ms;
        values = set b.values b.count price;
        count = b.count + 1;
      }
      else record b {
        times = set (copy_within b.times) (b.capacity - 1) time_ms;
        values = set (copy_within b.values) (b.capacity - 1) price;
      }

  unfoldable pub clear : RingBuffer T V → RingBuffer T V
  clear b = record b { count = 0 }

  -- `times.subarray(0, length)` and `values.subarray(0, length)`, oldest first.
  abbrev pub shown_times : RingBuffer T V → List T
  shown_times b = take b.count b.times

  abbrev pub shown_values : RingBuffer T V → List V
  shown_values b = take b.count b.values
