-- ===== src/Outbox.antt =====
-- The transactional outbox (src/trading/application/common): envelopes, the unit of work that
-- writes them, the event bus, and the relay that promotes them to the event log.
pub mod Envelope
pub mod Store
pub mod UnitOfWork
pub mod Bus
pub mod Relay
mod Tests
