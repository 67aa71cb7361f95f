-- ===== src/Eventbus.antt =====
-- internal/adapters/eventbus: the outbox of events and the relay that forwards them.
pub mod Outbox
pub mod Relay
pub mod Delivery
pub mod Progress
pub mod Stored
