-- ===== src/Paper/Broker.antt =====
-- The paper broker: src/trading_bot/paper/broker.py. The clock's reading is an argument, the log is
-- left out, and a risk event is kept as the parts of its text.
mod Types
mod Orders
pub mod Sweep
pub mod Accounts
pub mod Signals
pub mod Ledger
pub mod Exits
mod Tests
pub use Types.*
unfoldable pub use Orders.*
