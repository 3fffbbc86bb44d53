-- ===== src/Execution.antt =====
-- Execution: the live-trading gate, the guard against duplicate orders and the cost model.
pub mod LiveGate
pub mod Idempotency
pub mod CostModel
