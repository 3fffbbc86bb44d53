-- ===== src/Paper/Session.antt =====
-- A paper session: src/trading_bot/paper/harness.py, with a broker and with the cycle engine that trades; the source also
-- runs without them, and with the engine that only routes. The snapshots of the scanner and the reader of the history
-- are given. The archive, the metrics, the report, the alerts and the log are left out, and so are the session's id
-- and its clock.
pub mod History
pub mod Recording
mod Tests
use bot_crypto.Prelude.{
  ℕ, String, Bool, true, false, ◌&&◌, if◌then◌else◌, Option, none, some, List, [], ◌∷◌,
}
use bot_crypto.Float.{Float, fmax}
use bot_crypto.Dict.{Dict}
use bot_crypto.Market.Candles.{Ohlcv}
use bot_crypto.Execution.Idempotency.{IdempotencyGuard}
use bot_crypto.Execution.LiveGate.{TradingMode, paper}
use bot_crypto.Risk.Manager.{RiskManager, record_trade_result}
use bot_crypto.Paper.Broker.{PaperBroker, ClosedTrade, PaperExecutionSummary, reconcile_session}
use bot_crypto.Paper.Cycle.Stages.{CycleStageCounts, Engine}
use bot_crypto.Paper.Cycle.Orders.{CycleState, run_cycle_sync}
use bot_crypto.Paper.Session.History.{MarketSnapshot, Reader, decisions, prices}

-- Of the settings, what the session checks.
pub record Runtime : Type 0 where
  pub mode : TradingMode
  pub enable_paper_trading : Bool

-- What lives longer than a session.
pub record Desk (F : Type 0) : Type 0 where
  pub manager : RiskManager F
  pub guard : IdempotencyGuard
  pub broker : PaperBroker F

-- What one session is given by the scanner and the clock.
pub record SessionInput (F : Type 0) : Type 0 where
  pub reader : Option (Reader F)
  pub snapshots : List (MarketSnapshot F)
  pub started_at_ms : ℕ
  pub order_time : F
  pub exit_time : F

pub record SessionResult (F : Type 0) : Type 0 where
  pub cycle_counts : CycleStageCounts
  pub execution_summary : PaperExecutionSummary F

abbrev pub is_paper : TradingMode → Bool
is_paper paper = true
is_paper m = false

-- `_validate_runtime`
unfoldable pub is_valid : Runtime → Bool
is_valid r = is_paper r.mode && r.enable_paper_trading

module _ {F : Type 0} ⦃fl : Float F⦄ where
  -- `_sync_risk_equity`
  pub sync_risk_equity : PaperBroker F → RiskManager F → RiskManager F
  sync_risk_equity b m = record m { equity = b.equity; peak_equity = fmax m.peak_equity b.equity }

  -- `_record_closed_trades_in_risk`
  pub record_closed_trades : List (ClosedTrade F) → RiskManager F → RiskManager F
  record_closed_trades [] m = m
  record_closed_trades (t ∷ ts) m = record_closed_trades ts (record_trade_result t.pnl m)

  -- The cycle, on the equity that the broker has.
  run_decision_cycle : Engine F → SessionInput F → Desk F → CycleState F
  run_decision_cycle e i d =
      let h = decisions i.reader i.started_at_ms i.snapshots in
      run_cycle_sync e (sync_risk_equity d.broker d.manager) i.order_time h.history h.timestamps
        d.guard d.broker

  close_session :
      RiskManager F
      → CycleState F
      → PaperBroker F × PaperExecutionSummary F
      → Desk F × SessionResult F
  close_session m c (b, summary) = (
    record { manager = record_closed_trades summary.closed_trades m; guard = c.guard; broker = b },
    record { cycle_counts = c.counts; execution_summary = summary },
  )

  unfoldable pub run_valid : Engine F → SessionInput F → Desk F → Desk F × SessionResult F
  unfolding run_decision_cycle close_session
  run_valid e i d =
      let c = run_decision_cycle e i d in
      close_session (sync_risk_equity d.broker d.manager) c
        (reconcile_session (prices i.snapshots) i.exit_time c.broker)

  -- None is the ValueError of `_validate_runtime`.
  unfoldable pub run_session :
      Runtime → Engine F → SessionInput F → Desk F → Option (Desk F × SessionResult F)
  unfolding run_valid is_valid
  run_session r e i d = if is_valid r then some (run_valid e i d) else none
