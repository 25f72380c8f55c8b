-- ===== src/Simulated/Prices.antt =====
-- data/SimulatedSource.ts: its private methods keep, for every symbol of the universe, a runtime with the
-- prices of a session.
use tckr.Prelude.{
  ℕ, zero, suc, ◌≡◌, refl, Bool, some, [], if◌then◌else◌, Bool-cases, Option-cases, inl, inr, not,
  ◌||◌,
}
use tckr.Prelude.Int.{ℤ, pos}
use tckr.Calendar.Market.{Session, MarketStatus, session_of, get_market_status}
use mathlib.Core.Path.{subst}
use tckr.Simulated.{push_sample, next, pick, hash_seed, compute_backfilled_session}
use tckr.Simulated.Draws.{pick_All, some_injective, none-some}
use tckr.Simulated.Samples.{compute_backfilled_session_lem}
use tckr.Simulated.Backfills.{push_sample-IsSession}
use tckr.Simulated.Engine.{
  drain_queue, drain_delayed_queue, generate_one, generate_times, sample_history,
  backfill_all_symbols, backfilled,
}
use tckr.Simulated.Sessions.{
  answer_each, drain_snapshot_requests, backfill_if_changed, ensure_session_for, sample_if_due,
  generate_batch, per_batch, gate_engine, is_sample_due, backfill_target, state_of, same_key,
  same_state,
}
use tckr.Simulated.Kept.{IsKept, AreKept-IsListing, each_runtime-AreKept, each_until-AreKept}
use tckr.Simulated.Listing.{IsListing, IsListed, insert-IsListing}
use tckr.Simulated.Writes.{
  LeavesRuntimes, drain_queue_leaves, answer_each_leaves, generate_for_runtimes,
}
use tckr.Simulated.State.{SymbolRuntime, Simulator, Platform, Act, ◌>>◌, done, update}

module _ (w : Platform) where
  abbrev pub Lists : Simulator → Type 0
  Lists s = IsListing s.runtime_by_symbol w.sim_symbols

  abbrev pub Keeps : Act → Type 0
  Keeps f = (s : Simulator) → Lists s → Lists (f s).state

  pub leaves-Keeps : (f : Act) → LeavesRuntimes f → Keeps f
  leaves-Keeps f leaves s h = rw (leaves s) h

  pub follow-Keeps : (f g : Act) → Keeps f → Keeps g → Keeps (f >> g)
  follow-Keeps f g hf hg s h = elim (Bool-cases (f s).threw) [
    | inl threw ↦ rw threw (hf s h)
    | inr went_on ↦ rw went_on (hg (f s).state (hf s h))
  ]

  pub if_Keeps :
      (test : Simulator → Bool) (f : Act) → Keeps f → Keeps (λ s. if test s then f s else done s)
  if_Keeps test f hf s h = elim (Bool-cases (test s)) [
    | inl ran ↦ rw ran (hf s h)
    | inr skipped ↦ rw skipped h
  ]

  pub unless-Keeps :
      (test : Simulator → Bool) (f : Act) → Keeps f → Keeps (λ s. if test s then done s else f s)
  unless-Keeps test f hf s h = elim (Bool-cases (test s)) [
    | inl skipped ↦ rw skipped h
    | inr ran ↦ rw ran (hf s h)
  ]

  sample_history-Keeps : (now : ℕ) → Keeps (sample_history now)
  unfolding sample_history
  sample_history-Keeps now s = AreKept-IsListing s.runtime_by_symbol _ w.sim_symbols (
      each_runtime-AreKept
        (λ r. record r {
          history = push_sample (record { t = pos now; price = r.price }) r.history;
        })
        (λ r. (refl, refl, λ sound. (push_sample-IsSession sound.0 (pos now), sound.1)))
        s.runtime_by_symbol)

  backfilled-IsKept :
      (base_seed : ℕ) (session : Session) (target : ℤ) (r r' : SymbolRuntime)
      → backfilled w base_seed session target r ≡ some r'
      → IsKept r r'
  backfilled-IsKept base_seed session target r r' h =
      let seed : ℕ = hash_seed base_seed r.def.symbol session.session_date_key in
      elim (Option-cases (compute_backfilled_session r.def session.session_open_at target seed)) [
        | inl threw ↦ elim (none-some (rw threw at h)) [ ]
        | inr (result, computed) ↦
            let prices =
              compute_backfilled_session_lem r.def session.session_open_at target seed result
                computed in
            subst (IsKept r) (some_injective (rw computed at h))
              (refl, refl, λ sound. (prices.0, sound.1))
      ]

  backfill_all_symbols-Keeps :
      (session : Session) (target : ℤ) → Keeps (backfill_all_symbols w session target)
  unfolding backfill_all_symbols
  backfill_all_symbols-Keeps session target s =
      AreKept-IsListing s.runtime_by_symbol _ w.sim_symbols (
        each_until-AreKept (backfilled w s.config.seed session target)
          (backfilled-IsKept s.config.seed session target) s.runtime_by_symbol)

  pub generate_one-Keeps : (now : ℕ) → Keeps (generate_one w now)
  unfolding generate_one
  generate_one-Keeps now s h = elim (Option-cases (pick w.sim_symbols (next s.prng).1)) [
    | inl missed ↦ rw (missed, generate_one) h
    | inr (def, hit) ↦
        let (r, found, own, sound) =
          pick_All (IsListed s.runtime_by_symbol) w.sim_symbols (next s.prng).1 def h.0 hit in
        let rolled : Simulator = record s { prng = (next s.prng).0 } in
        let (moved, written, same, keeps) = generate_for_runtimes w now def r rolled in
        rw (hit, found, generate_one, written)
          (insert-IsListing def.symbol r moved same (keeps own sound) s.runtime_by_symbol found
            w.sim_symbols h)
  ]

  generate_times-Keeps : (now n : ℕ) → Keeps (generate_times w now n)
  unfolding generate_times
  generate_times-Keeps now zero s h = h
  generate_times-Keeps now (suc n) s h =
      follow-Keeps (generate_one w now) (generate_times w now n) (generate_one-Keeps now)
        (generate_times-Keeps now n) s h

  pub drain_snapshot_requests-Keeps : (now : ℕ) → Keeps (drain_snapshot_requests now)
  unfolding drain_snapshot_requests
  drain_snapshot_requests-Keeps now s h =
      leaves-Keeps (answer_each now s.snapshot_requests)
        (answer_each_leaves now s.snapshot_requests) (record s { snapshot_requests = [] }) h

  drain_delayed_queue-Keeps : (now : ℕ) → Keeps (drain_delayed_queue now)
  unfolding drain_delayed_queue
  drain_delayed_queue-Keeps now s h =
      leaves-Keeps (drain_queue now s.delay_queue) (drain_queue_leaves now s.delay_queue) s h

  pub backfill_if_changed-Keeps :
      (now : ℕ) (market : MarketStatus) → Keeps (backfill_if_changed w now market)
  unfolding backfill_if_changed
  backfill_if_changed-Keeps now market s h =
      let session = session_of market in
      let caught_up =
        follow-Keeps (backfill_all_symbols w session (backfill_target now market))
          (update (λ r. record r {
            current_session_date_key = some (session.session_date_key);
            last_history_sample_at = some (backfill_target now market);
          }))
          (backfill_all_symbols-Keeps session (backfill_target now market)) (λ t k. k) s h in
      elim (Bool-cases (
        not (same_key s.current_session_date_key session.session_date_key)
        || not (same_state s.last_known_market_state (state_of market)))) [
          | inl changed ↦ rw changed caught_up
          | inr same ↦ rw same h
        ]

  pub ensure_session_for-Keeps : (now : ℕ) → Keeps (ensure_session_for w now)
  unfolding ensure_session_for gate_engine
  ensure_session_for-Keeps now s h =
      elim (Option-cases (get_market_status w.cairo_formatter (pos now))) [
        | inl failed ↦ rw (failed, ensure_session_for) h
        | inr (market, known) ↦
            rw (known, ensure_session_for)
              (follow-Keeps (backfill_if_changed w now market)
                (gate_engine market >> drain_snapshot_requests now)
                (backfill_if_changed-Keeps now market)
                (follow-Keeps (gate_engine market) (drain_snapshot_requests now) (λ t k. k)
                  (drain_snapshot_requests-Keeps now))
                s h)
      ]

  sample_if_due-Keeps : (now : ℕ) → Keeps (sample_if_due now)
  unfolding sample_if_due
  sample_if_due-Keeps now s h =
      let sampled =
        follow-Keeps (sample_history now)
          (update (λ r. record r { last_history_sample_at = some (pos now) }))
          (sample_history-Keeps now) (λ t k. k) s h in
      elim (Bool-cases (is_sample_due now s.last_history_sample_at)) [
        | inl due ↦ rw due sampled
        | inr early ↦ rw early h
      ]

  pub generate_batch-Keeps : (now : ℕ) → Keeps (generate_batch w now)
  unfolding generate_batch
  generate_batch-Keeps now =
      let generated : Act = λ r. generate_times w now (per_batch r.config.events_per_second) r in
      let batch : Act = sample_if_due now >> generated >> drain_delayed_queue now in
      follow-Keeps (ensure_session_for w now) (λ s. if s.interval_handle then batch s else done s)
        (ensure_session_for-Keeps now)
        (if_Keeps (λ s. s.interval_handle) batch
          (follow-Keeps (sample_if_due now) (generated >> drain_delayed_queue now)
            (sample_if_due-Keeps now)
            (follow-Keeps generated (drain_delayed_queue now)
              (λ r h. generate_times-Keeps now (per_batch r.config.events_per_second) r h)
              (drain_delayed_queue-Keeps now))))
