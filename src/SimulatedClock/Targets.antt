-- ===== src/SimulatedClock/Targets.antt =====
-- The instant that a setting of the simulated clock names, and the clock that runs on from it.
use tckr.Prelude.{
  ◌*◌, ◌<◌, ◌↔◌, ◌∙◌, ◌≡◌, refl, sym, ap, Bool, true, false, Option, none, some, ◌⊎◌, inl, inr,
  Bool-cases, arith,
}
use tckr.Prelude.Int.{ℤ, pos, negsuc, ◌+ℤ◌, int_laws}
use tckr.Text.{Text}
use tckr.Messages.{◌>>=◌}
use tckr.Calendar.{
  FormattedParts, DateKey, is_trading_day, get_cairo_parts, cairo_date_key, cairo_epoch_for,
}
use tckr.Calendar.Walk.{IsNearest, walk-IsNearest_iff}
use tckr.Calendar.Market.{previous_trading_date_key}
use tckr.SimulatedClock.Times.{time_text, parse_cairo_time-if_in_range, in_range_lem}
use tckr.SimulatedClock.{
  ClockTime, in_range, if_in_range, parse_cairo_time, target_day, resolve_simulated_clock_target,
  shifted_now,
}

some_injective {ℓ} : {A : Type ℓ} (a b : A) → some a ≡ some b → b ≡ a
some_injective {A} a b e = sym (ap {A = Option A} {B = A} (λ o. elim o [ none ↦ a | some c ↦ c ]) e)

in_range-bounds :
    (time : ClockTime)
    → in_range time ≡ true
    → (time.hour < 24) × (time.minute < 60) × (time.second < 60)
in_range-bounds time h = (ground arith, ground arith, ground arith)

refused_lem : {P : Type 0} {target_ms : ℤ} → none ≡ some target_ms → P
refused_lem h = cc

module _ (cairo_formatter : ℤ → FormattedParts) (trim to_lower_case : Text → Text) (spec : Text)
    (real_now_ms : ℤ) where
  abbrev trades_now : Bool
  trades_now = is_trading_day ((get_cairo_parts cairo_formatter real_now_ms).weekday)

  -- Today where it trades, else the nearest day before that does.
  abbrev IsTargetDay : DateKey → Type 0
  IsTargetDay day =
      ((trades_now ≡ true) × (day ≡ cairo_date_key cairo_formatter real_now_ms))
      ⊎ ((trades_now ≡ false)
          × IsNearest cairo_formatter 7 (negsuc 0) (cairo_date_key cairo_formatter real_now_ms) day)

  target_day-IsTargetDay :
      (day : DateKey)
      → target_day cairo_formatter trim to_lower_case real_now_ms ≡ some day
      → IsTargetDay day
  unfolding target_day previous_trading_date_key
  target_day-IsTargetDay day e = elim (Bool-cases trades_now) [
    | inl t ↦ inl (t, some_injective (cairo_date_key cairo_formatter real_now_ms) day (rw t at e))
    | inr t ↦ inr (
      t,
      (walk-IsNearest_iff cairo_formatter 7 (negsuc 0) (cairo_date_key cairo_formatter real_now_ms)
            day).0
          (rw t at e),
    )
  ]

  IsTargetDay-target_day :
      (day : DateKey)
      → IsTargetDay day
      → target_day cairo_formatter trim to_lower_case real_now_ms ≡ some day
  unfolding target_day previous_trading_date_key
  IsTargetDay-target_day day (inl (t, e)) = rw (t, e) refl
  IsTargetDay-target_day day (inr (t, nearest)) = rw t (
      (walk-IsNearest_iff cairo_formatter 7 (negsuc 0) (cairo_date_key cairo_formatter real_now_ms)
          day).1
        nearest)

  -- The instant is at a time of a day, to the second, on the day of the session.
  abbrev pub IsTarget : ClockTime → ℤ → Type 0
  IsTarget time target_ms =
      (time.hour < 24)
      × (time.minute < 60)
      × (time.second < 60)
      × (day : DateKey) × IsTargetDay day
      × (target_ms
          ≡ cairo_epoch_for cairo_formatter day time.hour time.minute +ℤ pos (time.second * 1000))

  resolved_lem :
      (time : ClockTime) (target_ms : ℤ) (day : Option DateKey)
      → target_day cairo_formatter trim to_lower_case real_now_ms ≡ day
      → (if_in_range (some time) >>= (λ t. day >>= (λ d.
          some (cairo_epoch_for cairo_formatter d t.hour t.minute +ℤ pos (t.second * 1000)))))
        ≡ some target_ms
      → IsTarget time target_ms
  resolved_lem time target_ms none e h = ground arith
  resolved_lem time target_ms (some day) e h = elim (Bool-cases (in_range time)) [
    | inl inside ↦
        let (hour, minute, second) = in_range-bounds time inside in
        (
          hour,
          minute,
          second,
          day,
          target_day-IsTargetDay day e,
          some_injective
              (cairo_epoch_for cairo_formatter day time.hour time.minute
                +ℤ pos (time.second * 1000))
              target_ms (rw inside at h),
        )
    | inr outside ↦ refused_lem (rw outside at h)
  ]

  -- A setting that is, trimmed and in lower case, three numbers below 100 of two digits, with colons
  -- between them, is accepted if and only if they are a time of a day and there is a day for it: today
  -- where today trades, and else the nearest day before that does, of seven. The instant is that time
  -- on that day.
  pub resolve_simulated_clock_target_iff :
      (time : ClockTime) (target_ms : ℤ)
      → to_lower_case (trim spec) ≡ time_text time
      → time.hour < 100
      → time.minute < 100
      → time.second < 100
      → (resolve_simulated_clock_target cairo_formatter trim to_lower_case spec real_now_ms
          ≡ some target_ms)
        ↔ IsTarget time target_ms
  unfolding resolve_simulated_clock_target
  resolve_simulated_clock_target_iff time target_ms reads h m s =
      let parsed : parse_cairo_time (to_lower_case (trim spec)) ≡ if_in_range (some time) =
        ap parse_cairo_time reads ∙ parse_cairo_time-if_in_range time h m s in
      (
        λ e. resolved_lem time target_ms _ refl (rw parsed at e),
        λ (hour, minute, second, day, is_day, instant).
            rw (parsed, in_range_lem time hour minute second, IsTargetDay-target_day day is_day)
              (ap some (sym instant)),
      )

-- The shifted clock reads the target when it is installed, and runs on as the real one does.
pub shifted_now-runs :
    (target_ms installed_ms elapsed : ℤ)
    → shifted_now target_ms installed_ms (installed_ms +ℤ elapsed) ≡ target_ms +ℤ elapsed
unfolding shifted_now
shifted_now-runs target_ms installed_ms elapsed = grind int_laws
