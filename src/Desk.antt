-- ===== src/Desk.antt =====
-- The trade desk's domain layer: the five-state kill switch and the hash-chained event store.
pub mod KillSwitch
pub mod EventStore
