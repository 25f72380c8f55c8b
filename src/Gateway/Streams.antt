-- ===== src/Gateway/Streams.antt =====
-- A change of entitlement in data/TckrGatewaySource.ts: what it does to the store, and whom it tells.
use tckr.Prelude.{◌≡◌, [], ◌∷◌, arith, if◌then◌else◌}
use tckr.Contracts.{EntitlementChanged}
use tckr.Store.{reset_stream}
use tckr.Gateway.Inbound.{stream_changed, with_stream, handle_entitlement_changed}
use tckr.Gateway.State.{Gateway, entitlement_event, store_calls}

-- When the stream changes, the store is reset before the handlers of `on.entitlement` run; when it
-- does not, or before the server has said who the client is, the store is as it was. The handlers
-- run once either way, and no identity comes from this message alone.
pub handle_entitlement_changed-resets :
    (message : EntitlementChanged) (s : Gateway)
    → ((handle_entitlement_changed message s).0.store
        ≡ (if stream_changed s.identity message.stream then (reset_stream s.store).0 else s.store))
      × ((handle_entitlement_changed message s).1 ≡ (
          if stream_changed s.identity message.stream
          then store_calls (reset_stream s.store).1 ∷ entitlement_event message ∷ []
          else entitlement_event message ∷ []))
      × ((handle_entitlement_changed message s).0.identity ≡ with_stream s.identity message.stream)
unfolding handle_entitlement_changed
handle_entitlement_changed-resets message s = ground arith
