-- ===== src/Risk.antt =====
-- The risk policy and the risk manager.
pub mod Policy
pub mod Manager
