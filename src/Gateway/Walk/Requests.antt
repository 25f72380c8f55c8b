-- ===== src/Gateway/Walk/Requests.antt =====
-- The laws of Gateway/Walk for subscriptions, pings, the timers and the jobs of a retry.
use tckr.Prelude.{
  ℕ, ◌+◌, ◌≡◌, refl, Bool, true, false, Option, none, some, List, [], ◌∷◌, ◌++◌, String, map,
  if◌then◌else◌, All, sym, ltb,
}
use tckr.Contracts.{ClientMessage}
use tckr.Gateway.Outbound.{
  schedule_throttle_flush, flush_outbound, throttle_elapsed, request, non_empty, add_all,
  delete_all, subscribe_wanted, subscribe, unsubscribe_wanted, ping_if_set,
}
use tckr.Gateway.Lifecycle.{
  retry_if_set, wait_for_authenticated, resubscribe_tracked, resubscribe, run as run_jobs, run_job,
}
use tckr.Gateway.State.{Job, Output, Gateway, Env, fetch_snapshot, after_open, after_auth}
use tckr.Gateway.Events.{throttle_if_set}
use tckr.Gateway.Walk.{IsSilent, ActLaws, from, quiet}

fetches-IsSilent : (symbols : List String) → All IsSilent (map fetch_snapshot symbols)
fetches-IsSilent [] = tt
fetches-IsSilent (symbol ∷ symbols) = (tt, fetches-IsSilent symbols)

module _ (R : Gateway → Gateway × List Output → Type 0) (laws : ActLaws R) where
  pub wanted_law :
      (env : Env) (symbols : List String) (s : Gateway) → R s (subscribe_wanted env symbols s)
  wanted_law env [] s = quiet R laws s [] tt
  wanted_law env (symbol ∷ symbols) s =
      from R laws s
        (record s { subscribed_symbols = add_all (symbol ∷ symbols) s.subscribed_symbols })
        (request env (ClientMessage.subscribe (symbol ∷ symbols))) (refl, refl, refl, refl, refl)
        (laws.request_law env (ClientMessage.subscribe (symbol ∷ symbols)) _ (λ id. refl))

  pub unwanted_law :
      (env : Env) (symbols : List String) (s : Gateway) → R s (unsubscribe_wanted env symbols s)
  unwanted_law env [] s = quiet R laws s [] tt
  unwanted_law env (symbol ∷ symbols) s =
      from R laws s
        (record s { subscribed_symbols = delete_all (symbol ∷ symbols) s.subscribed_symbols })
        (request env (ClientMessage.unsubscribe (symbol ∷ symbols))) (refl, refl, refl, refl, refl)
        (laws.request_law env (ClientMessage.unsubscribe (symbol ∷ symbols)) _ (λ id. refl))

  pub throttle_law :
      (timer : Option ℕ) (env : Env) (s : Gateway) → R s (throttle_if_set timer env s)
  unfolding throttle_elapsed schedule_throttle_flush
  throttle_law none env s = quiet R laws s [] tt
  throttle_law (some due) env s = go (ltb env.now s.throttled_until)
    where
      go :
          (held : Bool)
          → R s (
              if held
              then (schedule_throttle_flush env (record s { throttle_timer = none }), [])
              else flush_outbound env (record s { throttle_timer = none }))
      go true = laws.silent_law _ _ _ (refl, refl, refl, refl, refl) tt
      go false =
          from R laws s (record s { throttle_timer = none }) (flush_outbound env)
            (refl, refl, refl, refl, refl) (laws.flush_law env _)

  pub ping_law : (timer : Option ℕ) (env : Env) (s : Gateway) → R s (ping_if_set timer env s)
  ping_law none env s = quiet R laws s [] tt
  ping_law (some interval_ms) env s = laws.request_law env ClientMessage.ping s (λ id. refl)

  pub retry_set_law :
      (s : Gateway) (timer : Option ℕ)
      → s.reconnect_timer ≡ timer
      → R s (retry_if_set timer (record s { reconnect_timer = none }))
  unfolding retry_if_set
  retry_set_law s none e = laws.silent_law s _ [] (refl, refl, refl, refl, sym e) tt
  retry_set_law s (some delay) e = laws.reconnect_law s delay e

  resubscribe_law : (env : Env) (s : Gateway) → R s (resubscribe env s)
  unfolding resubscribe subscribe
  resubscribe_law env s = go s.subscribed_symbols
    where
      go : (symbols : List String) → R s (resubscribe_tracked symbols env s)
      go [] = quiet R laws s [] tt
      go (symbol ∷ symbols) =
          laws.then_law (subscribe env (symbol ∷ symbols))
            (λ t. (t, map fetch_snapshot (symbol ∷ symbols))) s
            (wanted_law env (non_empty (symbol ∷ symbols)) s)
            (quiet R laws _ _ (fetches-IsSilent (symbol ∷ symbols)))

  pub run_job_law : (env : Env) (s : Gateway) → R s (run_job env s)
  unfolding run_job wait_for_authenticated
  run_job_law env s = go s.jobs
    where
      awaited :
          (authenticated : Bool) (t : Gateway)
          → R t (
              if authenticated
              then (record t { jobs = t.jobs ++ after_auth ∷ [] }, [])
              else (record t { auth_waiters = t.auth_waiters + 1 }, []))
      awaited true t = laws.silent_law _ _ _ (refl, refl, refl, refl, refl) tt
      awaited false t = laws.silent_law _ _ _ (refl, refl, refl, refl, refl) tt

      go : (jobs : List Job) → R s (run_jobs jobs env s)
      go [] = quiet R laws s [] tt
      go (after_open ∷ jobs) =
          from R laws s (record s { jobs = jobs }) wait_for_authenticated
            (refl, refl, refl, refl, refl) (awaited s.authenticated _)
      go (after_auth ∷ jobs) =
          from R laws s (record s { jobs = jobs }) (resubscribe env) (refl, refl, refl, refl, refl)
            (resubscribe_law env _)
