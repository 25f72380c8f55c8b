-- ===== src/Tests/Charts.antt =====
-- Tests of the chart's buffer, its seeds and its tags, and their theorems at concrete points.
use tckr.Prelude.{length, some, ◌≤◌, ℕ, ◌≡◌, refl, List, [], ◌∷◌, arith, map}
use tckr.Prelude.Int.{ℤ, pos, abs, ◌-ℤ◌}
use tckr.Charts.{place_axis_tags, axis_tag_height_px}
use tckr.Charts.Seeds.{seeded_points}
use tckr.Charts.Tags.{AreApart, KeepsSide, place_axis_tags-AreApart}
use tckr.DetailQuote.Page.{ChartHistoryPoint}
use tckr.RingBuffer.{RingBuffer, push, clear, shown_times, shown_values}
use tckr.RingBuffer.Window.{IsBuffer, last, push_all, push_all-last}

-- A full buffer of capacity 2.
abbrev full : RingBuffer ℕ ℕ
full = record { times = 10 ∷ 20 ∷ []; values = 5 ∷ 7 ∷ []; capacity = 2; count = 2 }

abbrev three_points : List (ℕ × ℕ)
three_points = (30, 8) ∷ (40, 9) ∷ (50, 6) ∷ []

oldest_dropped : shown_times (push full 30 8) ≡ 20 ∷ 30 ∷ []
unfolding push
oldest_dropped = refl

full-IsBuffer : IsBuffer full
full-IsBuffer = omega arith

push_all-last_example :
    (shown_times (push_all (clear full) three_points)
      ≡ last full.capacity (map (λ p. p.0) three_points))
    × (shown_values (push_all (clear full) three_points)
        ≡ last full.capacity (map (λ p. p.1) three_points))
push_all-last_example = push_all-last full three_points full-IsBuffer

abbrev no_points : RingBuffer ℤ ℕ
no_points = record {
  times = pos 0 ∷ pos 0 ∷ pos 0 ∷ [];
  values = 0 ∷ 0 ∷ 0 ∷ [];
  capacity = 3;
  count = 0;
}

abbrev point_at : ℤ → ChartHistoryPoint
point_at t = record { t = t; p = 56 ∷ 50 ∷ [] }

-- One sample, and a price of the same time: the chart starts with a single point.
lone_point :
    seeded_points length (point_at (pos 1000) ∷ []) (some (point_at (pos 1000)))
    ≡ (pos 1000, 2) ∷ []
lone_point = refl

place_axis_tags-AreApart_example :
    let tags = place_axis_tags (some (pos 100)) (some (pos 90)) in
    AreApart tags
    × (tags.0 ≡ some (pos 100))
    × KeepsSide (pos 100) (pos 90) tags
    × (axis_tag_height_px ≤ abs (pos 90 -ℤ pos 100) → tags.1 ≡ some (pos 90))
place_axis_tags-AreApart_example = place_axis_tags-AreApart (pos 100) (pos 90)
