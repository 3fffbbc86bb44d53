-- ===== src/Paper/Session/Tests.antt =====
-- A session on a broker that has closed a trade before.
use bot_crypto.Prelude.{◌+◌, ◌≡◌, true, false, none, List, [], ◌∷◌, ◌++◌, length}
use bot_crypto.Prelude.Int.{ℤ}
use bot_crypto.Float.{whole}
use bot_crypto.Float.Fixed.{fixed}
use bot_crypto.Signal.{buy}
use bot_crypto.Execution.Idempotency.{initial}
use bot_crypto.Risk.Policy.{Risk}
use bot_crypto.Paper.Broker.{ClosedTrade, stop_loss}
use bot_crypto.Paper.Cycle.Stages.{Engine}
use bot_crypto.Paper.Session.{Desk, SessionInput, run_valid, sync_risk_equity, record_closed_trades}
use bot_crypto.Paper.Session.Recording.{run_valid-records}

abbrev trade : ClosedTrade ℤ
trade = record {
  symbol = "BTC/USDT";
  side = buy;
  entry_price = whole 20;
  exit_price = whole 19;
  quantity = whole 1;
  pnl = whole 1;
  exit_reason = stop_loss;
  opened_at = whole 1;
  closed_at = whole 2;
}

abbrev engine : Engine ℤ
engine = record {
  asset_of = λ s. s;
  usdt_pair = λ s. s;
  sorted = λ symbols. symbols;
  intent_cloid = λ symbol strategy direction ts. symbol;
  build_context = λ asset bars ts. none;
  gates = record {
    require_confirmed = true;
    require_regime_match = true;
    min_data_quality = whole 0;
    require_fresh_context = true;
  };
  strategy_map = [];
  families = [];
}

abbrev policy : Risk ℤ
policy = record {
  max_risk_per_trade_pct = whole 1;
  max_daily_loss_pct = whole 3;
  max_weekly_loss_pct = whole 6;
  max_daily_drawdown_pct = whole 5;
  max_total_drawdown_pct = whole 10;
  max_open_positions = 3;
  max_trades_per_day = 20;
  max_consecutive_losses = 3;
  consecutive_loss_cooldown_minutes = 60;
  max_asset_exposure_pct = whole 20;
  max_total_exposure_pct = whole 50;
  min_order_notional_usdt = whole 10;
  max_order_notional_usdt = whole 1000;
  default_stop_loss_pct = whole 1;
  default_take_profit_pct = whole 2;
  kill_switch_enabled = true;
  live_trading_enabled = false;
}

abbrev desk : Desk ℤ
desk = record {
  manager = record {
    risk = policy;
    equity = whole 2000;
    open_positions = [];
    daily_pnl = whole 0;
    weekly_pnl = whole 0;
    trades_today = 0;
    consecutive_losses = 0;
    peak_equity = whole 2000;
    kill_switch_active = false;
  };
  guard = initial;
  broker = record {
    equity = whole 2000;
    initial_equity = whole 2000;
    slippage_bps = whole 0;
    commission_bps = whole 0;
    positions = [];
    closed_trades = trade ∷ [];
    fills_opened = 0;
    fills_closed = 0;
    risk_events = [];
  };
}

abbrev input : SessionInput ℤ
input = record {
  reader = none;
  snapshots = [];
  started_at_ms = 1;
  order_time = whole 3;
  exit_time = whole 4;
}

run_valid-records_example :
    (new : List (ClosedTrade ℤ)) × ((run_valid engine input desk).0.broker.closed_trades
      ≡ desk.broker.closed_trades ++ new)
    × ((run_valid engine input desk).0.manager
        ≡ record_closed_trades
            (desk.broker.closed_trades ++ new)
            (sync_risk_equity desk.broker desk.manager))
    × ((run_valid engine input desk).0.manager.trades_today
        ≡ desk.manager.trades_today + length desk.broker.closed_trades + length new)
run_valid-records_example = run_valid-records engine input desk
