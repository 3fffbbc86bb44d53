-- ===== src/Market.antt =====
-- Market data: the timeframe contract, the filter of completed candles and the read quota.
pub mod Timeframe
pub mod Quota
pub mod Candles
