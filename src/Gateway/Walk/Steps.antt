-- ===== src/Gateway/Walk/Steps.antt =====
-- The laws of Gateway/Walk carried to every event.
use tckr.Prelude.{◌≡◌, refl, false, none, some, List, []}
use tckr.Gateway.Outbound.{non_empty, subscribe, unsubscribe, ping_elapsed}
use tckr.Gateway.Lifecycle.{connect, watchdog_elapsed, reconnect_elapsed}
use tckr.Gateway.Inbound.{snapshot_answered, frame_elapsed}
use tckr.Gateway.State.{Output, Gateway, Env}
use tckr.Gateway.Events.{Event, step}
use tckr.Gateway.Walk.{ActLaws, quiet}
use tckr.Gateway.Walk.Closing.{handle_close_law, disconnect_act, on_open_law, watchdog_law}
use tckr.Gateway.Walk.Requests.{
  wanted_law, unwanted_law, throttle_law, ping_law, retry_set_law, run_job_law,
}
use tckr.Gateway.Walk.Messages.{handle_message_law, snapshot_law}

module _ (R : Gateway → Gateway × List Output → Type 0) (laws : ActLaws R) where
  pub step_law :
      (env : Env) (event : Event) (s : Gateway)
      → (event ≡ Event.connect_called → R s (connect s))
      → R s (step env event s)
  unfolding step subscribe unsubscribe ping_elapsed watchdog_elapsed reconnect_elapsed frame_elapsed
      snapshot_answered
  step_law env Event.connect_called s e = e refl
  step_law env Event.disconnect_called s e = disconnect_act R laws s
  step_law env (Event.subscribe_called symbols) s e = wanted_law R laws env (non_empty symbols) s
  step_law env (Event.unsubscribe_called symbols) s e =
      unwanted_law R laws env (non_empty symbols) s
  step_law env (Event.ready_changed ready) s e =
      laws.silent_law _ _ _ (refl, refl, refl, refl, refl) tt
  step_law env Event.socket_opened s e = on_open_law R laws s
  step_law env (Event.message_received message) s e = handle_message_law R laws message env s
  step_law env (Event.socket_closed code reason) s e = handle_close_law R laws env code reason s
  step_law env Event.throttle_due s e = throttle_law R laws s.throttle_timer env s
  step_law env Event.ping_due s e = ping_law R laws s.ping_timer env s
  step_law env Event.watchdog_due s e = watchdog_law R laws s.heartbeat_watchdog env s
  step_law env Event.reconnect_due s e = retry_set_law R laws s s.reconnect_timer refl
  step_law env Event.job_due s e = run_job_law R laws env s
  step_law env Event.frame_due s e = laws.silent_law _ _ _ (refl, refl, refl, refl, refl) (tt, tt)
  step_law env (Event.snapshot_received none) s e = quiet R laws s [] tt
  step_law env (Event.snapshot_received (some snapshot)) s e =
      snapshot_law R laws snapshot false env s
