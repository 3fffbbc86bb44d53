-- ===== src/Scanner.antt =====
-- The market scanner.
pub mod Filters
