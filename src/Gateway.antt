-- ===== src/Gateway.antt =====
-- client/Tckr.MarketWatch/src/data/TckrGatewaySource.ts: the connection to a gateway as a state machine. State,
-- Outbound, Lifecycle, Inbound and Events model the code; the other children prove what it does.
pub mod State
pub mod Outbound
pub mod Lifecycle
pub mod Inbound
pub mod Events
pub mod Walk
pub mod Status
pub mod Silence
pub mod Queue
pub mod Retries
pub mod Streams
pub mod Symbols
