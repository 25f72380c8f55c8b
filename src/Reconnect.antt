-- ===== src/Reconnect.antt =====
-- client/Tckr.MarketWatch/src/data/reconnect.ts and contracts/closeCodes.ts: when to retry a closed
-- connection, how long to wait, and the heartbeat watchdog. A delay is a fraction of milliseconds:
-- `jitter` and the value of `rand()` are given as fractions, and `next_delay` returns the numerator
-- over the product of their denominators; the rounding of doubles is not modelled.
pub mod Backoff
pub mod Heartbeats
use tckr.Prelude.{
  ℕ, ◌+◌, ◌-◌, ◌*◌, ◌^◌, min, Bool, true, false, Option, none, some, leb, ◌==◌, if◌then◌else◌,
}

-- The codes of the contract, and any other code that a socket closes with.
pub data CloseCode : Type 0 where
  normal unauthenticated token_expired heartbeat_timeout slow_consumer : CloseCode
  other : ℕ → CloseCode

unfoldable pub to_number : CloseCode → ℕ
to_number normal = 1000
to_number unauthenticated = 4401
to_number token_expired = 4403
to_number heartbeat_timeout = 4408
to_number slow_consumer = 4429
to_number (other raw) = raw

pub record BackoffPolicy : Type 0 where
  pub base_ms : ℕ
  pub ceiling_ms : ℕ
  pub jitter_num : ℕ
  pub jitter_den : ℕ

abbrev pub default_backoff_policy : BackoffPolicy
default_backoff_policy = record {
  base_ms = 500;
  ceiling_ms = 30000;
  jitter_num = 1;
  jitter_den = 5;
}

-- `Math.min(policy.baseMs * 2 ** (attempt - 1), policy.ceilingMs)`; attempts count from 1.
unfoldable pub centre : ℕ → BackoffPolicy → ℕ
centre attempt policy = min (policy.base_ms * 2 ^ (attempt - 1)) policy.ceiling_ms

-- `nextDelay` where `rand()` is `rand_num / rand_den`, times `policy.jitter_den * rand_den`.
unfoldable pub next_delay : ℕ → BackoffPolicy → ℕ → ℕ → ℕ
unfolding centre
next_delay attempt policy rand_num rand_den =
    let c = centre attempt policy in
    let span = c * policy.jitter_num in
    let low = c * policy.jitter_den - span in
    let high = c * policy.jitter_den + span in low * rand_den + rand_num * (high - low)

-- `undefined` (`none`) for a code outside the contract, which the `switch` does not name.
unfoldable pub should_reconnect : CloseCode → Option Bool
should_reconnect normal = some false
should_reconnect unauthenticated = some false
should_reconnect token_expired = some true
should_reconnect heartbeat_timeout = some true
should_reconnect slow_consumer = some true
should_reconnect (other raw) = none

-- The watchdog's closure: its deadline, the time at which its timer is due, and `stopped`.
pub record Watchdog : Type 0 where
  pub deadline_ms : ℕ
  pub handle : Option ℕ
  pub stopped : Bool

unfoldable pub arm : ℕ → Watchdog → Watchdog
arm now w = if w.stopped then w else record w { handle = some (now + w.deadline_ms) }

unfoldable pub create_heartbeat_watchdog : ℕ → ℕ → Watchdog
unfolding arm
create_heartbeat_watchdog interval_ms now =
    arm now (record { deadline_ms = interval_ms * 2; handle = none; stopped = false })

unfoldable pub pulse : ℕ → Watchdog → Watchdog
unfolding arm
pulse now w = arm now w

unfoldable pub stop : Watchdog → Watchdog
stop w = record w { stopped = true; handle = none }

-- Time reaches `now`: the timer's callback runs if the timer is due, and the result says whether it
-- called `onTimeout`.
unfoldable pub advance : ℕ → Watchdog → Watchdog × Bool
advance now w = elim w.handle [
  | none ↦ (w, false)
  | some due ↦
      if leb due now then (record w { handle = none; stopped = true }, true) else (w, false)
]
