-- ===== src/Gateway/Retries.antt =====
-- Which closes data/TckrGatewaySource.ts retries, how soon, and that the retry opens a socket.
use tckr.Prelude.{
  ℕ, zero, suc, ◌+◌, ◌-◌, ◌*◌, ◌^◌, ◌≤◌, ◌<◌, ◌≡◌, refl, ap, ◌∙◌, Bool, true, false, not, [], ◌∷◌,
  arith, Option, some, none, String, ◌==◌, ◌||◌, if◌then◌else◌,
}
use tckr.Reconnect.{to_number, default_backoff_policy, next_delay, centre}
use tckr.Reconnect.Backoff.{next_delay-spread}
use native.Mathlib.Nat.{mul-le-mul_right, pow-suc}
use tckr.Gateway.Lifecycle.{
  to_close_code, reconnect_decision_for, open_socket, handle_close, retry_if_set, reconnect_elapsed,
}
use tckr.Gateway.State.{Gateway, Env, ConnectionState, create_socket}

-- The codes that are not retried: a normal close, and a token that was refused.
abbrev pub is_final : ℕ → Bool
is_final code = if code == 1000 then true else code == 4401

-- A close code is kept as it came.
pub to_number-to_close_code : (code : ℕ) → to_number (to_close_code code) ≡ code
unfolding to_number to_close_code
to_number-to_close_code code = ground arith

decision_lem : (code : ℕ) → reconnect_decision_for (to_close_code code) ≡ not (is_final code)
unfolding reconnect_decision_for to_close_code
decision_lem code = ground arith

timer_lem :
    (env : Env) (code : ℕ) (reason : String) (s : Gateway)
    → s.intentional_close ≡ false
    → (handle_close env code reason s).0.reconnect_timer ≡ (
        if is_final code
        then s.reconnect_timer
        else some
            (next_delay (s.backoff_attempt + 1) default_backoff_policy env.rand_num env.rand_den))
unfolding handle_close
timer_lem env code reason s e = ground (arith, decision_lem code)

power_least : (n : ℕ) → 1 ≤ 2 ^ n
power_least zero = omega arith
power_least (suc n) = rw (pow-suc 2 n) (omega (arith, power_least n))

centre_least :
    (attempt : ℕ)
    → (500 ≤ centre (attempt + 1) default_backoff_policy)
      × (centre (attempt + 1) default_backoff_policy ≤ 30000)
unfolding centre
centre_least attempt = let least = power_least (attempt + 1 - 1) in (omega arith, omega arith)

-- 5 and the denominator of the random number are the denominators of the delay.
delay_bounds :
    (attempt rand_num rand_den : ℕ)
    → rand_num < rand_den
    → (400 * 5 * rand_den ≤ next_delay (attempt + 1) default_backoff_policy rand_num rand_den)
      × (next_delay (attempt + 1) default_backoff_policy rand_num rand_den ≤ 36000 * 5 * rand_den)
delay_bounds attempt rand_num rand_den random =
    let c = centre (attempt + 1) default_backoff_policy in
    let spread =
      next_delay-spread (attempt + 1) default_backoff_policy rand_num rand_den (omega arith)
        random in
    let least = mul-le-mul_right rand_den (centre_least attempt).0 in
    let most = mul-le-mul_right rand_den (centre_least attempt).1 in
    (omega (arith, spread.0, least), omega (arith, spread.1, most))

-- Unless the close was asked for, a close with any code but 1000 and 4401 sets the reconnect timer,
-- to between 400 ms and 36 s as fifths over the denominator of the random number, and when that timer
-- elapses a socket is created.
pub handle_close-retries :
    (env : Env) (code : ℕ) (reason : String) (s : Gateway)
    → s.intentional_close ≡ false
    → is_final code ≡ false
    → env.rand_num < env.rand_den
    → (delay : ℕ) × ((handle_close env code reason s).0.reconnect_timer ≡ some delay)
      × (400 * 5 * env.rand_den ≤ delay)
      × (delay ≤ 36000 * 5 * env.rand_den)
      × ((reconnect_elapsed (handle_close env code reason s).0).1 ≡ create_socket ∷ [])
unfolding reconnect_elapsed retry_if_set open_socket
handle_close-retries env code reason s e retried random =
    let timer =
      timer_lem env code reason s e
      ∙ ap
          (λ b.
            if b
            then s.reconnect_timer
            else some (
                next_delay (s.backoff_attempt + 1) default_backoff_policy env.rand_num
                  env.rand_den))
          retried in
    let bounds = delay_bounds s.backoff_attempt env.rand_num env.rand_den random in
    (
      next_delay (s.backoff_attempt + 1) default_backoff_policy env.rand_num env.rand_den,
      timer,
      bounds.0,
      bounds.1,
      opens (handle_close env code reason s).0 (handle_close env code reason s).0.reconnect_timer
          timer,
    )
  where
    opens :
        (t : Gateway) (timer : Option ℕ) {delay : ℕ}
        → timer ≡ some delay
        → (retry_if_set timer (record t { reconnect_timer = none })).1 ≡ create_socket ∷ []
    opens t timer e = rw e refl

-- A close that was asked for, or with code 1000 or 4401, sets no reconnect timer: the source is left
-- without a socket, unauthenticated, and closed with that code and reason.
pub handle_close-gives_up :
    (env : Env) (code : ℕ) (reason : String) (s : Gateway)
    → (s.intentional_close || is_final code) ≡ true
    → ((handle_close env code reason s).0.reconnect_timer ≡ s.reconnect_timer)
      × ((handle_close env code reason s).0.last_status
          ≡ ConnectionState.closed (to_close_code code) reason)
      × ((handle_close env code reason s).0.socket ≡ none)
      × ((handle_close env code reason s).0.authenticated ≡ false)
unfolding handle_close
handle_close-gives_up env code reason s e = ground (arith, decision_lem code)
