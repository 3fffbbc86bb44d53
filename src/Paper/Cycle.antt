-- ===== src/Paper/Cycle.antt =====
-- The decision cycle: src/trading_bot/paper/paper_cycle.py, with trim_to_pit of snapshot_context.py. The state is what one
-- cycle changes: its counters, the idempotency guard and the broker. The registry of the asset agents, the families with
-- their indicators and the texts that the code computes (a split, a format, a hash) are parameters. A rejection keeps its
-- stage and reason, the latter as data. The modelled router, adapter, risk manager and broker are total functions, so
-- the `except` clauses around them, which count router_errors, risk_errors and broker_errors, are never entered here.
pub mod Stages
pub mod Routing
mod RouteOnly
pub mod Orders
