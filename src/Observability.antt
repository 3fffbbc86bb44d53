-- ===== src/Observability.antt =====
-- What the bot records of its trades.
pub mod Journal
