-- ===== src/Backtest.antt =====
-- Backtesting.
pub mod Engine
pub mod Costs
