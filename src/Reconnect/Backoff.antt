-- ===== src/Reconnect/Backoff.antt =====
-- The delays of data/reconnect.ts: their spread around a centre that doubles up to a ceiling.
use tckr.Prelude.{ℕ, zero, suc, ◌+◌, ◌-◌, ◌*◌, ◌^◌, ◌≤◌, ◌<◌, ◌≡◌, min, arith}
use mathlib.Core.Path.{subst}
use native.Mathlib.Numerals.{unary_clauses}
use native.Mathlib.Nat.{mul-le-mul_left, mul-le-mul_right, sub-add_cancel}
use tckr.Reconnect.{BackoffPolicy, centre, next_delay}

-- The two bounds over a lower end and a span, with the width written as the code writes it.
module _ (low span r R : ℕ) where
  gap_lem : low + span + span - low ≡ span + span
  gap_lem = omega arith

  lower_lem : (low + span) * R ≤ low * R + r * (low + span + span - low) + span * R
  lower_lem = rw gap_lem (omega arith)

  upper_lem : r ≤ R → low * R + r * (low + span + span - low) ≤ (low + span + span) * R
  upper_lem h = rw gap_lem (omega (arith, mul-le-mul_right (span + span) h))

-- The spread for a numerator `top` of the centre, of which `span` is the jitter.
spread_lem :
    (top span r R : ℕ)
    → span ≤ top
    → r ≤ R
    → (top * R ≤ (top - span) * R + r * (top + span - (top - span)) + span * R)
      × ((top - span) * R + r * (top + span - (top - span)) ≤ (top + span) * R)
spread_lem top span r R h le =
    subst
      (λ t.
        (t * R ≤ (top - span) * R + r * (t + span - (top - span)) + span * R)
        × ((top - span) * R + r * (t + span - (top - span)) ≤ (t + span) * R))
      (sub-add_cancel h) (lower_lem (top - span) span r R, upper_lem (top - span) span r R le)

-- For a jitter of at most 1 and a random number below 1, the delay lies within the jitter on both
-- sides of its centre; all sides are times the denominators of both.
pub next_delay-spread :
    (attempt : ℕ) (policy : BackoffPolicy) (rand_num rand_den : ℕ)
    → policy.jitter_num ≤ policy.jitter_den
    → rand_num < rand_den
    → (centre attempt policy * policy.jitter_den * rand_den
        ≤ next_delay attempt policy rand_num rand_den
          + centre attempt policy * policy.jitter_num * rand_den)
      × (next_delay attempt policy rand_num rand_den
          ≤ (centre attempt policy * policy.jitter_den + centre attempt policy * policy.jitter_num)
            * rand_den)
unfolding next_delay
next_delay-spread attempt policy rand_num rand_den h lt =
    spread_lem (centre attempt policy * policy.jitter_den)
      (centre attempt policy * policy.jitter_num) rand_num rand_den
      (mul-le-mul_left (centre attempt policy) h) (omega arith)

doubling_lem :
    (base p ceiling : ℕ)
    → (min (base * p) ceiling ≤ min (base * (p * 2)) ceiling)
      × (min (base * (p * 2)) ceiling ≤ 2 * min (base * p) ceiling)
      × (min (base * p) ceiling ≤ ceiling)
doubling_lem base p ceiling = (omega arith, omega arith, omega arith)

-- Each centre is at least the one before, at most twice it, and never above the ceiling.
pub centre_growth :
    (attempt : ℕ) (policy : BackoffPolicy)
    → 0 < attempt
    → (centre attempt policy ≤ centre (attempt + 1) policy)
      × (centre (attempt + 1) policy ≤ 2 * centre attempt policy)
      × (centre attempt policy ≤ policy.ceiling_ms)
unfolding centre
centre_growth zero policy h = omega arith
centre_growth (suc n) policy h =
    simp unary_clauses (doubling_lem policy.base_ms (2 ^ n) policy.ceiling_ms)
