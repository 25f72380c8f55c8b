-- ===== src/Charts.antt =====
-- client/Tckr.MarketWatch/src/chart/chartSeed.ts, chart/chartScale.ts (the tags of the price axis),
-- pages/chartRanges.ts (the points of a range) and pages/useBoundedSparkline.ts: what a chart starts
-- with, and what it shows. Times are whole milliseconds and positions whole pixels; `toPlotValue` is a
-- parameter, and the value that a sparkline repeats is compared by the parameter `is_same`.

pub mod Seeds
pub mod Tags
use tckr.Prelude.{
  ℕ, suc, ◌+◌, ◌-◌, Bool, true, false, not, ◌&&◌, Option, none, some, List, [], ◌∷◌, ◌++◌, length,
  drop, get_elem?, ltb, leb, ◌==◌, if◌then◌else◌,
}
use tckr.Prelude.Int.{ℤ, pos, abs, ◌+ℤ◌, ◌-ℤ◌, ltb_ℤ}
use tckr.Text.{Text}
use tckr.RingBuffer.{RingBuffer, push, clear}
use tckr.DetailQuote.Page.{ChartHistoryPoint}

-- `time > buffer.times[buffer.length - 1]`
abbrev pub is_after : ℤ → Option ℤ → Bool
is_after time none = false
is_after time (some last) = ltb_ℤ last time

module _ {V : Type 0} where
  unfoldable pub seed_flat_point : RingBuffer ℤ V → ℤ → V → RingBuffer ℤ V
  unfolding push
  seed_flat_point buffer time_ms price =
      push (push buffer (time_ms -ℤ pos 1000) price) time_ms price

  -- The loop of `seedBuffer`.
  unfoldable pub push_history :
      (Text → V) → RingBuffer ℤ V → List ChartHistoryPoint → RingBuffer ℤ V
  unfolding push
  push_history to_plot_value buffer [] = buffer
  push_history to_plot_value buffer (point ∷ history) =
      push_history to_plot_value (push buffer point.t (to_plot_value point.p)) history

  -- The rest of `seedBuffer` with a seed.
  abbrev pub push_seed : (Text → V) → ChartHistoryPoint → RingBuffer ℤ V → RingBuffer ℤ V
  push_seed to_plot_value seed buffer =
      if buffer.count == 0
      then seed_flat_point buffer seed.t (to_plot_value seed.p)
      else if is_after seed.t (get_elem? buffer.times (buffer.count - 1))
      then push buffer seed.t (to_plot_value seed.p)
      else buffer

  -- The doubling of the only point.
  abbrev pub doubled : Option ℤ → Option V → RingBuffer ℤ V → RingBuffer ℤ V
  doubled (some time) (some value) buffer = seed_flat_point (clear buffer) time value
  doubled _ _ buffer = buffer

  -- The rest without one.
  abbrev pub double_lone : RingBuffer ℤ V → RingBuffer ℤ V
  double_lone buffer =
      if buffer.count == 1
      then doubled (get_elem? buffer.times 0) (get_elem? buffer.values 0) buffer
      else buffer

  unfoldable pub seed_buffer :
      (Text → V)
      → RingBuffer ℤ V
      → List ChartHistoryPoint
      → Option ChartHistoryPoint
      → RingBuffer ℤ V
  unfolding push_history seed_flat_point push clear
  seed_buffer to_plot_value buffer history none =
      double_lone (push_history to_plot_value buffer history)
  seed_buffer to_plot_value buffer history (some seed) =
      push_seed to_plot_value seed (push_history to_plot_value buffer history)

-- `AXIS_TAG_HEIGHT_PX`
abbrev pub axis_tag_height_px : ℕ
axis_tag_height_px = 18

-- `Math.abs(a - b) >= AXIS_TAG_HEIGHT_PX`
abbrev pub is_clear : ℤ → ℤ → Bool
is_clear a b = leb axis_tag_height_px (abs (a -ℤ b))

-- The position of the reference's tag beside that of the last price.
abbrev pub stepped_aside : ℤ → ℤ → ℤ
stepped_aside last ref =
    if ltb_ℤ ref last then last -ℤ pos axis_tag_height_px else last +ℤ pos axis_tag_height_px

-- The positions of the last price and of the reference; `none` is `null`.
unfoldable pub place_axis_tags : Option ℤ → Option ℤ → Option ℤ × Option ℤ
place_axis_tags none ref = (none, ref)
place_axis_tags (some last) none = (some last, none)
place_axis_tags (some last) (some ref) =
    if is_clear ref last then (some last, some ref) else (some last, some (stepped_aside last ref))

unfoldable pub is_under_axis_tag : ℤ → List (Option ℤ) → Bool
is_under_axis_tag position [] = false
is_under_axis_tag position (none ∷ tags) = is_under_axis_tag position tags
is_under_axis_tag position (some tag ∷ tags) =
    if is_clear position tag then is_under_axis_tag position tags else true

-- `from` and `to` of a `ChartRange`; `none` is an open bound.
abbrev pub is_from : Option ℤ → ℤ → Bool
is_from none t = true
is_from (some from) t = not (ltb_ℤ t from)

abbrev pub is_to : Option ℤ → ℤ → Bool
is_to none t = true
is_to (some to) t = not (ltb_ℤ to t)

unfoldable pub points_in_range :
    List ChartHistoryPoint → Option ℤ → Option ℤ → List ChartHistoryPoint
points_in_range [] from to = []
points_in_range (point ∷ history) from to =
    let rest = points_in_range history from to in
    if is_from from point.t && is_to to point.t then point ∷ rest else rest

module _ {V : Type 0} (is_same : V → V → Bool) where
  unfoldable pub ends_with : V → List V → Bool
  ends_with value [] = false
  ends_with value (last ∷ []) = is_same last value
  ends_with value (first ∷ second ∷ history) = ends_with value (second ∷ history)

  -- The effect of `useBoundedSparkline`: `[...history, currentValue].slice(-maxPoints)`.
  unfoldable pub commit_point : V → ℕ → List V → List V
  unfolding ends_with
  commit_point value max_points history =
      let pushed = history ++ value ∷ [] in
      if ends_with value history
      then history
      else if max_points == 0
      then pushed
      else drop (length pushed - max_points) pushed

  -- What it returns.
  unfoldable pub bounded_sparkline : V → List V → List V
  unfolding ends_with
  bounded_sparkline value history =
      if ends_with value history then history else history ++ value ∷ []
