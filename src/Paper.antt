-- ===== src/Paper.antt =====
-- Paper trading.
pub mod KillSwitch
pub mod Broker
pub mod Portfolio
pub mod Recovery
pub mod Selector
pub mod Adapter
pub mod Candidates
pub mod Cycle
pub mod Session
pub mod Orchestrator
