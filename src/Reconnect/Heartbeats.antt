-- ===== src/Reconnect/Heartbeats.antt =====
-- When the watchdog of data/reconnect.ts fires: heartbeats as the list of the gaps between them.
use tckr.Prelude.{
  ℕ, ◌+◌, ◌*◌, ◌≡◌, refl, arith, List, [], ◌∷◌, Bool, true, false, none, some, ltb, leb,
  if◌then◌else◌, not, inl, inr, Bool-cases,
}
use tckr.Reconnect.{Watchdog, create_heartbeat_watchdog, arm, pulse, advance}

-- A heartbeat after each gap: the timer's callback gets its turn first. The result is the watchdog,
-- the time, and how often `onTimeout` was called.
unfoldable pub beats : Watchdog → ℕ → List ℕ → Watchdog × ℕ × ℕ
unfolding advance pulse arm
beats w now [] = (w, now, 0)
beats w now (gap ∷ gaps) =
    let due = advance (now + gap) w in
    let rest = beats (pulse (now + gap) due.0) (now + gap) gaps in
    (rest.0, rest.1, if due.1 then rest.2 + 1 else rest.2)

-- The watchdog that `create_heartbeat_watchdog` returns, last armed at `at`.
unfoldable pub armed_at : ℕ → ℕ → Watchdog
armed_at interval_ms at = record {
  deadline_ms = interval_ms * 2;
  handle = some (at + interval_ms * 2);
  stopped = false;
}

unfoldable pub fired : ℕ → Watchdog
fired interval_ms = record { deadline_ms = interval_ms * 2; handle = none; stopped = true }

unfoldable pub total : List ℕ → ℕ
total [] = 0
total (gap ∷ gaps) = gap + total gaps

unfoldable pub all_below : ℕ → List ℕ → Bool
all_below limit [] = true
all_below limit (gap ∷ gaps) = if ltb gap limit then all_below limit gaps else false

beats_stopped :
    (interval_ms now : ℕ) (gaps : List ℕ)
    → beats (fired interval_ms) now gaps ≡ (fired interval_ms, now + total gaps, 0)
unfolding beats fired total
beats_stopped interval_ms now [] = ground arith
beats_stopped interval_ms now (gap ∷ gaps) =
    let induction = beats_stopped interval_ms (now + gap) gaps in ground arith

-- The timer that was set at `at` is due when a heartbeat after `gap` is not below the deadline.
due_lem : (at gap deadline : ℕ) → leb (at + deadline) (at + gap) ≡ not (ltb gap deadline)
due_lem at gap deadline = ground arith

add_step : (at gap rest : ℕ) → at + (gap + rest) ≡ at + gap + rest
add_step at gap rest = omega arith

beats_armed :
    (interval_ms at : ℕ) (gaps : List ℕ)
    → beats (armed_at interval_ms at) at gaps ≡ (
        if all_below (interval_ms * 2) gaps
        then (armed_at interval_ms (at + total gaps), at + total gaps, 0)
        else (fired interval_ms, at + total gaps, 1))
unfolding beats fired total all_below armed_at
beats_armed interval_ms at [] = ground arith
beats_armed interval_ms at (gap ∷ gaps) = elim (Bool-cases (ltb gap (interval_ms * 2))) [
  | inl below ↦
      rw (due_lem at gap (interval_ms * 2), below, add_step at gap (total gaps))
        (beats_armed interval_ms (at + gap) gaps)
  | inr late ↦
      rw
        (
          due_lem at gap (interval_ms * 2),
          late,
          add_step at gap (total gaps),
          beats_stopped interval_ms (at + gap) gaps,
        )
        refl
]

-- Deadline of two intervals: if every heartbeat comes less than that after the one before, the
-- callback is never called and the timer stands two intervals after the last one; otherwise it is
-- called exactly once, and the watchdog has stopped.
pub beats-fires :
    (interval_ms start : ℕ) (gaps : List ℕ)
    → beats (create_heartbeat_watchdog interval_ms start) start gaps ≡ (
        if all_below (interval_ms * 2) gaps
        then (armed_at interval_ms (start + total gaps), start + total gaps, 0)
        else (fired interval_ms, start + total gaps, 1))
unfolding armed_at create_heartbeat_watchdog
beats-fires interval_ms start gaps = beats_armed interval_ms start gaps
