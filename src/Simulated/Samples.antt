-- ===== src/Simulated/Samples.antt =====
-- `computeBackfilledSession` of data/SimulatedSource.ts: the times of a reconstructed history, and the
-- volume.
use tckr.Prelude.{
  ℕ, zero, suc, ◌+◌, ◌-◌, ◌*◌, ◌≤◌, ◌<◌, min, ◌≡◌, refl, ap, ◌∙◌, arith, List, [], ◌∷◌, ◌++◌, map,
  length, length-append, length-drop, drop, ltb, ltb→lt, All, Option-cases, some, none,
  ltb_false→le, Bool-cases, inl, inr,
}
use tckr.Prelude.Int.{ℤ, pos, abs, ◌+ℤ◌}
use mathlib.Core.List.{map-append}
use mathlib.Core.Path.{subst}
use tckr.Simulated.{
  SimSymbol, HistorySample, Backfill, tick_of, auction_open, push_sample, backfill_step,
  sample_slot, backfill_slots, total_slots, compute_backfilled_session, pick_signed_steps,
  backfill_max_steps_per_slot, history_sample_interval_ms, history_max_points,
}
use tckr.Simulated.{next, scaled_draw}
use tckr.Simulated.Draws.{next_bound, scaled_draw_bound}
use tckr.Simulated.Draws.{some_injective, none-some}
use tckr.Simulated.Backfills.{
  auction_open_bound, auction_open-some, auction_open-none, IsBackfill, backfill_slots-IsBackfill,
}

-- The times of the slots from `slot` on.
abbrev pub slot_time : ℤ → ℕ → ℤ
slot_time session_open_at slot = session_open_at +ℤ pos (slot * history_sample_interval_ms)

abbrev pub slot_times : ℤ → ℕ → ℕ → List ℤ
slot_times session_open_at slot zero = []
slot_times session_open_at slot (suc count) =
    slot_time session_open_at slot ∷ slot_times session_open_at (suc slot) count

slot_times_more :
    (session_open_at : ℤ) (slot count : ℕ)
    → slot_times session_open_at slot count ++ slot_time session_open_at (slot + count) ∷ []
      ≡ slot_times session_open_at slot (suc count)
slot_times_more session_open_at slot zero = let same : slot + 0 ≡ slot = omega arith in rw same refl
slot_times_more session_open_at slot (suc count) =
    let rest = slot_times_more session_open_at (suc slot) count in
    let same : slot + suc count ≡ suc slot + count = omega arith in
    rw same (ap (λ ts. slot_time session_open_at slot ∷ ts) rest)

map-tail :
    (samples : List HistorySample)
    → map (λ h. h.t) (drop 1 samples) ≡ drop 1 (map (λ h. h.t) samples)
map-tail [] = refl
map-tail (h ∷ samples) = refl

-- A history holds the samples of the last slots, as many as there is room for.
abbrev pub IsSampled : ℤ → ℕ → List HistorySample → Type 0
IsSampled session_open_at slots history =
    (map (λ h. h.t) history
      ≡ slot_times session_open_at (slots - min slots history_max_points)
          (min slots history_max_points))
    × (length history ≡ min slots history_max_points)

-- Another sample, at the time of the next slot.
push_sample-IsSampled :
    (session_open_at price : ℤ) (history : List HistorySample) (slot : ℕ)
    → IsSampled session_open_at slot history
    → IsSampled session_open_at
        (suc slot)
        (push_sample (record { t = slot_time session_open_at slot; price = price }) history)
unfolding push_sample
push_sample-IsSampled session_open_at price history slot (times, count) =
    let kept : ℕ = min slot history_max_points in
    let sample : HistorySample = record { t = slot_time session_open_at slot; price = price } in
    let pushed : List HistorySample = history ++ sample ∷ [] in
    let size : length pushed ≡ suc kept = omega (arith, length-append history (sample ∷ [])) in
    let here : slot - kept + kept ≡ slot = omega arith in
    let pushed_times : map (λ h. h.t) pushed ≡ slot_times session_open_at (slot - kept) (suc kept) =
      map-append (λ h. h.t) history (sample ∷ [])
      ∙ ap (λ ts. ts ++ slot_time session_open_at slot ∷ []) times
      ∙ subst
          (λ n.
            slot_times session_open_at (slot - kept) kept ++ slot_time session_open_at n ∷ []
            ≡ slot_times session_open_at (slot - kept) (suc kept))
          here (slot_times_more session_open_at (slot - kept) kept) in
    elim (Bool-cases (ltb history_max_points (length pushed))) [
      | inl full ↦
          let over = ltb→lt history_max_points (length pushed) full in
          let same : min (suc slot) history_max_points ≡ kept = omega arith in
          let next_first : suc slot - kept ≡ suc (slot - kept) = omega arith in
          rw full (
            rw same (
              rw next_first
                (map-tail pushed ∙ ap (drop 1) pushed_times, length-drop 1 pushed ∙ omega arith)))
      | inr room ↦
          let under = ltb_false→le history_max_points (length pushed) room in
          let same : min (suc slot) history_max_points ≡ suc kept = omega arith in
          let next_first : suc slot - suc kept ≡ slot - kept = omega arith in
          rw room (rw same (rw next_first (pushed_times, size)))
    ]

backfill_slots-IsSampled :
    (def : SimSymbol) (open_price session_open_at : ℤ) (seed slot : ℕ)
    → IsSampled session_open_at
        (suc slot)
        (backfill_slots def open_price session_open_at seed slot).history
unfolding backfill_slots sample_slot backfill_step
backfill_slots-IsSampled def open_price session_open_at seed zero =
    push_sample-IsSampled session_open_at open_price [] 0 (refl, refl)
backfill_slots-IsSampled def open_price session_open_at seed (suc slot) =
    let b = backfill_slots def open_price session_open_at seed (suc slot) in
    push_sample-IsSampled session_open_at b.price
      (backfill_slots def open_price session_open_at seed slot).history (suc slot)
      (backfill_slots-IsSampled def open_price session_open_at seed slot)

abbrev pub sum : List ℕ → ℕ
sum [] = 0
sum (n ∷ ns) = n + sum ns

abbrev pub IsFewLots : ℕ → Type 0
IsFewLots lots = (1 ≤ lots) × (lots ≤ 10)

-- The volume is that of as many slots as there were, each of which trades between one and ten lots.
abbrev pub IsTraded : ℕ → ℕ → ℕ → Type 0
IsTraded lot_size slots volume =
    (lots : List ℕ) × (length lots ≡ slots) × All IsFewLots lots × (volume ≡ lot_size * sum lots)

backfill_slots-IsTraded :
    (def : SimSymbol) (open_price session_open_at : ℤ) (seed slot : ℕ)
    → IsTraded def.lot_size slot (backfill_slots def open_price session_open_at seed slot).volume
unfolding backfill_slots sample_slot backfill_step
backfill_slots-IsTraded def open_price session_open_at seed zero = ([], refl, tt, omega arith)
backfill_slots-IsTraded def open_price session_open_at seed (suc slot) =
    let b = backfill_slots def open_price session_open_at seed slot in
    let steps = pick_signed_steps b.rng b.price open_price backfill_max_steps_per_slot in
    let traded = scaled_draw (next steps.0).1 10 in
    let few : traded < 10 = scaled_draw_bound _ 10 (next_bound steps.0).1 (omega arith) in
    let (lots, count, each, volume) =
      backfill_slots-IsTraded def open_price session_open_at seed slot in
    ((1 + traded) ∷ lots, ap suc count, ((omega arith, omega arith), each), omega (arith, volume))

-- What a reconstructed session is.
abbrev pub IsReconstructed : SimSymbol → ℤ → ℤ → ℤ × Backfill → Type 0
IsReconstructed def session_open_at target_time (open_price, b) =
    let slots = total_slots session_open_at target_time in
    IsBackfill def open_price b
    × IsSampled session_open_at (suc slots) b.history
    × IsTraded def.lot_size slots b.volume

-- Whatever is reconstructed is such a session.
pub compute_backfilled_session_lem :
    (def : SimSymbol) (session_open_at target_time : ℤ) (seed : ℕ) (session : ℤ × Backfill)
    → compute_backfilled_session def session_open_at target_time seed ≡ some session
    → IsReconstructed def session_open_at target_time session
unfolding compute_backfilled_session
compute_backfilled_session_lem def session_open_at target_time seed session h =
    let slots = total_slots session_open_at target_time in
    elim (Option-cases (auction_open def seed)) [
      | inl missing ↦ elim (none-some (rw missing at h)) [ ]
      | inr (open_price, priced) ↦
          let bound = auction_open_bound def seed open_price priced in
          subst (IsReconstructed def session_open_at target_time) (some_injective (rw priced at h))
            (
              backfill_slots-IsBackfill def open_price session_open_at seed slots bound,
              backfill_slots-IsSampled def open_price session_open_at seed slots,
              backfill_slots-IsTraded def open_price session_open_at seed slots,
            )
    ]

-- For a symbol whose tick is not 0, a session is reconstructed. It has a sample for each half minute from
-- the opening on, of which the last 4000 are kept; its prices lie between its extremes and are a tick at
-- least; and its volume is that of as many half minutes after the opening as there were, each with
-- between one and ten lots.
pub compute_backfilled_session-IsReconstructed :
    (def : SimSymbol) (session_open_at target_time : ℤ) (seed : ℕ)
    → 0 < abs (tick_of def)
    → (session : ℤ × Backfill) × (compute_backfilled_session def session_open_at target_time seed
        ≡ some session)
      × IsReconstructed def session_open_at target_time session
unfolding compute_backfilled_session
compute_backfilled_session-IsReconstructed def session_open_at target_time seed tick =
    let (open_price, priced) = auction_open-some def seed tick in
    let session : ℤ × Backfill = (
      open_price,
      backfill_slots def open_price session_open_at seed (total_slots session_open_at target_time),
    ) in
    let computed : compute_backfilled_session def session_open_at target_time seed ≡ some session =
      rw priced refl in
    (
      session,
      computed,
      compute_backfilled_session_lem def session_open_at target_time seed session computed,
    )

-- A tick of 0 is an error.
compute_backfilled_session-none :
    (def : SimSymbol) (session_open_at target_time : ℤ) (seed : ℕ)
    → abs (tick_of def) ≡ 0
    → compute_backfilled_session def session_open_at target_time seed ≡ none
unfolding compute_backfilled_session
compute_backfilled_session-none def session_open_at target_time seed tick =
    rw (auction_open-none def seed tick) refl
