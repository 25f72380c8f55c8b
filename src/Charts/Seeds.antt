-- ===== src/Charts/Seeds.antt =====
-- chart/chartSeed.ts: the points that a chart starts with.
use tckr.Prelude.{
  ℕ, ◌-◌, ◌<◌, ◌≡◌, refl, ◌++◌, map, Option, none, some, List, [], ◌∷◌, length, get_elem?,
  if◌then◌else◌,
}
use tckr.Prelude.Int.{ℤ, pos, ◌-ℤ◌}
use tckr.Text.{Text}
use tckr.RingBuffer.{RingBuffer, shown_times, shown_values}
use tckr.RingBuffer.Window.{last}
use tckr.DetailQuote.Page.{ChartHistoryPoint}
use tckr.Charts.{is_after}

abbrev pub last_of : Option ℤ → List ChartHistoryPoint → Option ℤ
last_of time [] = time
last_of time (point ∷ history) = last_of (some point.t) history

abbrev pub point_of : {V : Type 0} → (Text → V) → ChartHistoryPoint → ℤ × V
point_of to_plot_value point = (point.t, to_plot_value point.p)

-- A point and itself a second before.
abbrev pub flat_points : {V : Type 0} → ℤ × V → List (ℤ × V)
flat_points (t, v) = (t -ℤ pos 1000, v) ∷ (t, v) ∷ []

-- The points that a chart starts with, before what there is no room for.
abbrev pub seeded_points :
    {V : Type 0} → (Text → V) → List ChartHistoryPoint → Option ChartHistoryPoint → List (ℤ × V)
seeded_points to_plot_value [] none = []
seeded_points to_plot_value (point ∷ []) none = flat_points (point_of to_plot_value point)
seeded_points to_plot_value (point ∷ next ∷ history) none =
    map (point_of to_plot_value) (point ∷ next ∷ history)
seeded_points to_plot_value [] (some seed) = flat_points (point_of to_plot_value seed)
seeded_points to_plot_value (point ∷ history) (some seed) =
    if is_after seed.t (last_of none (point ∷ history))
    then map (point_of to_plot_value) (point ∷ history) ++ point_of to_plot_value seed ∷ []
    else map (point_of to_plot_value) (point ∷ history)

first_item : {A : Type 0} (xs : List A) → 0 < length xs → (x : A) × (get_elem? xs 0 ≡ some x)
first_item [] h = elim h [ ]
first_item (x ∷ xs) h = (x, refl)

module _ {V : Type 0} where
  abbrev pub last_time : RingBuffer ℤ V → Option ℤ
  last_time b = get_elem? b.times (b.count - 1)

  -- A buffer shows the last of some points, as many as there is room for, oldest first.
  abbrev pub Shows : RingBuffer ℤ V → ℕ → List (ℤ × V) → Type 0
  Shows b capacity ps =
      (shown_times b ≡ last capacity (map (λ p. p.0) ps))
      × (shown_values b ≡ last capacity (map (λ p. p.1) ps))
