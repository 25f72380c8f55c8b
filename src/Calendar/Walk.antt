-- ===== src/Calendar/Walk.antt =====
-- The searches for a trading day: what they find, and that they find one.
use mathlib.Core.Path.{subst}
use tckr.Prelude.{
  ℕ, zero, suc, ◌+◌, ◌%◌, ◌≤◌, ◌<◌, ◌≡◌, refl, sym, ap, Bool, true, false, some, if◌then◌else◌, ◌↔◌,
  ◌⊎◌, String, arith,
}
use Prim.{Unit}
use tckr.Prelude.Int.{ℤ}
use tckr.Calendar.{
  FormattedParts, DateKey, is_trading_day, cairo_weekday_index, get_cairo_parts,
  weekday_of_date_key, shift_date_key, walk, cairo_epoch_for,
}

cairo_weekday_index_le : (name : String) → cairo_weekday_index name ≤ 6
unfolding cairo_weekday_index
cairo_weekday_index_le name = ground arith

weekday_of_date_key_le :
    (cairo_formatter : ℤ → FormattedParts) (key : DateKey)
    → weekday_of_date_key cairo_formatter key ≤ 6
unfolding weekday_of_date_key get_cairo_parts
weekday_of_date_key_le cairo_formatter key =
    cairo_weekday_index_le ((cairo_formatter (cairo_epoch_for cairo_formatter key 12 0)).weekday)

third_trades :
    (by w1 w2 w3 : ℕ)
    → (by ≡ 1) ⊎ (by ≡ 6)
    → w1 ≤ 6
    → w2 ≡ (w1 + by) % 7
    → w3 ≡ (w2 + by) % 7
    → is_trading_day w1 ≡ false
    → is_trading_day w2 ≡ false
    → is_trading_day w3 ≡ true
unfolding is_trading_day
third_trades by w1 w2 w3 by_a_day le two three t1 t2 = ground arith

module _ (cairo_formatter : ℤ → FormattedParts) where
  -- The date key so many shifts away.
  unfoldable pub shifted : ℤ → ℕ → DateKey → DateKey
  shifted delta zero key = key
  shifted delta (suc n) key = shifted delta n (shift_date_key cairo_formatter key delta)

  abbrev pub trades : DateKey → Bool
  trades key = is_trading_day (weekday_of_date_key cairo_formatter key)

  -- The first day after so many shifts at most that trades.
  abbrev pub IsNearest : ℕ → ℤ → DateKey → DateKey → Type 0
  IsNearest rounds delta key day =
      (n : ℕ) × (n < rounds)
      × (shifted delta (suc n) key ≡ day)
      × (trades day ≡ true)
      × ((m : ℕ) → m < n → trades (shifted delta (suc m) key) ≡ false)

  walk-IsNearest :
      (rounds : ℕ) (delta : ℤ) (key day : DateKey)
      → walk cairo_formatter rounds delta key ≡ some day
      → IsNearest rounds delta key day
  unfolding walk shifted
  walk-IsNearest zero delta key day e = ground arith
  walk-IsNearest (suc rounds) delta key day e =
      go (trades next) refl (λ found. walk-IsNearest rounds delta next day found) e
    where
      next : DateKey
      next = shift_date_key cairo_formatter key delta

      go :
          (b : Bool)
          → trades next ≡ b
          → (walk cairo_formatter rounds delta next ≡ some day → IsNearest rounds delta next day)
          → (if b then some next else walk cairo_formatter rounds delta next) ≡ some day
          → IsNearest (suc rounds) delta key day
      go true t later found =
          let same : next ≡ day = ground arith in
          (0, omega arith, same, subst (λ d. trades d ≡ true) same t, λ m below. ground arith)
      go false t later found =
          let nearest = later found in
          (
            suc (nearest.0),
            omega (nearest.1, arith),
            nearest.2,
            nearest.3,
            λ m below. earlier (nearest.0) (nearest.4) m below,
          )
        where
          earlier :
              (n : ℕ)
              → ((m : ℕ) → m < n → trades (shifted delta (suc m) next) ≡ false)
              → (m : ℕ) → m < suc n
              → trades (shifted delta (suc m) key) ≡ false
          earlier n before zero below = t
          earlier n before (suc m) below = before m (omega arith)

  IsNearest-walk :
      (rounds : ℕ) (delta : ℤ) (key day : DateKey)
      → IsNearest rounds delta key day
      → walk cairo_formatter rounds delta key ≡ some day
  unfolding walk shifted
  IsNearest-walk zero delta key day (n, below, reaches, trading, before) = ground arith
  IsNearest-walk (suc rounds) delta key day (zero, below, reaches, trading, before) =
      rw (subst (λ d. trades d ≡ true) (sym reaches) trading) (ap some reaches)
  IsNearest-walk (suc rounds) delta key day (suc n, below, reaches, trading, before) =
      rw (before 0 (omega arith)) (
        IsNearest-walk rounds delta (shift_date_key cairo_formatter key delta) day
          (n, omega arith, reaches, trading, λ m m_below. before (suc m) (omega arith)))

  -- The search finds a day exactly where it is the nearest one that trades.
  pub walk-IsNearest_iff :
      (rounds : ℕ) (delta : ℤ) (key day : DateKey)
      → (walk cairo_formatter rounds delta key ≡ some day) ↔ IsNearest rounds delta key day
  walk-IsNearest_iff rounds delta key day =
      (walk-IsNearest rounds delta key day, IsNearest-walk rounds delta key day)

  -- So many shifts move the weekday by so many days of the week each.
  abbrev pub MovesWeekday : ℕ → ℕ → ℤ → DateKey → Type 0
  MovesWeekday by zero delta key = Unit
  MovesWeekday by (suc n) delta key =
      (weekday_of_date_key cairo_formatter (shift_date_key cairo_formatter key delta)
        ≡ (weekday_of_date_key cairo_formatter key + by) % 7)
      × MovesWeekday by n delta (shift_date_key cairo_formatter key delta)

  -- Where three shifts by a day move the weekday by a day, one of them comes to a day that trades.
  pub MovesWeekday-IsNearest :
      (by : ℕ) (delta : ℤ) (key : DateKey)
      → (by ≡ 1) ⊎ (by ≡ 6)
      → MovesWeekday by 3 delta key
      → (day : DateKey) × IsNearest 3 delta key day
  unfolding shifted
  MovesWeekday-IsNearest by delta key by_a_day (one, (two, (three, done))) =
      go (trades k1) (trades k2) refl refl
    where
      k1 : DateKey
      k1 = shift_date_key cairo_formatter key delta

      k2 : DateKey
      k2 = shift_date_key cairo_formatter k1 delta

      k3 : DateKey
      k3 = shift_date_key cairo_formatter k2 delta

      first_false : trades k1 ≡ false → (m : ℕ) → m < 1 → trades (shifted delta (suc m) key) ≡ false
      first_false t1 zero below = t1
      first_false t1 (suc m) below = ground arith

      both_false :
          trades k1 ≡ false
          → trades k2 ≡ false
          → (m : ℕ) → m < 2
          → trades (shifted delta (suc m) key) ≡ false
      both_false t1 t2 zero below = t1
      both_false t1 t2 (suc zero) below = t2
      both_false t1 t2 (suc (suc m)) below = ground arith

      go :
          (b1 b2 : Bool)
          → trades k1 ≡ b1
          → trades k2 ≡ b2
          → (day : DateKey) × IsNearest 3 delta key day
      go true b2 t1 t2 = (k1, (0, omega arith, refl, t1, λ m below. ground arith))
      go false true t1 t2 = (k2, (1, omega arith, refl, t2, first_false t1))
      go false false t1 t2 = (
        k3,
        (
          2,
          omega arith,
          refl,
          third_trades by (weekday_of_date_key cairo_formatter k1)
              (weekday_of_date_key cairo_formatter k2) (weekday_of_date_key cairo_formatter k3)
              by_a_day (weekday_of_date_key_le cairo_formatter k1) two three t1 t2,
          both_false t1 t2,
        ),
      )

  -- Then the search finds its day, in three of its rounds.
  pub walk_finds :
      (by : ℕ) (delta : ℤ) (key : DateKey)
      → (by ≡ 1) ⊎ (by ≡ 6)
      → MovesWeekday by 3 delta key
      → (day : DateKey) × (walk cairo_formatter 7 delta key ≡ some day)
  walk_finds by delta key by_a_day moves =
      let (day, (n, below, reaches, trading, before)) =
        MovesWeekday-IsNearest by delta key by_a_day moves in
      (day, IsNearest-walk 7 delta key day (n, omega arith, reaches, trading, before))
