-- ===== src/Paper/Orchestrator/Tests.antt =====
-- A loop of two sessions, and of none.
use bot_crypto.Prelude.{ℕ, ◌≤◌, ◌≡◌, refl, true, false, none, some, [], length, inl}
use bot_crypto.Prelude.Int.{ℤ}
use bot_crypto.Float.{whole}
use bot_crypto.Float.Fixed.{fixed}
use bot_crypto.Execution.LiveGate.{paper}
use bot_crypto.Execution.Idempotency.{initial}
use bot_crypto.Risk.Policy.{Risk}
use bot_crypto.Paper.Cycle.Stages.{Engine}
use bot_crypto.Paper.Session.{Desk, Runtime, is_valid}
use bot_crypto.Paper.Orchestrator.{Observed, PaperOrchestrator, ended, create, run}
use bot_crypto.Paper.Orchestrator.Ends.{Passed, run-EndsBy}

abbrev runtime : Runtime
runtime = record { mode = paper; enable_paper_trading = true }

-- Nothing is traded: no context can be built.
abbrev engine : Engine ℤ
engine = record {
  asset_of = λ s. s;
  usdt_pair = λ s. s;
  sorted = λ symbols. symbols;
  intent_cloid = λ symbol strategy direction ts. symbol;
  build_context = λ asset bars ts. none;
  gates = record {
    require_confirmed = true;
    require_regime_match = true;
    min_data_quality = whole 0;
    require_fresh_context = true;
  };
  strategy_map = [];
  families = [];
}

abbrev policy : Risk ℤ
policy = record {
  max_risk_per_trade_pct = whole 1;
  max_daily_loss_pct = whole 3;
  max_weekly_loss_pct = whole 6;
  max_daily_drawdown_pct = whole 5;
  max_total_drawdown_pct = whole 10;
  max_open_positions = 3;
  max_trades_per_day = 20;
  max_consecutive_losses = 3;
  consecutive_loss_cooldown_minutes = 60;
  max_asset_exposure_pct = whole 20;
  max_total_exposure_pct = whole 50;
  min_order_notional_usdt = whole 10;
  max_order_notional_usdt = whole 1000;
  default_stop_loss_pct = whole 1;
  default_take_profit_pct = whole 2;
  kill_switch_enabled = true;
  live_trading_enabled = false;
}

abbrev desk : Desk ℤ
desk = record {
  manager = record {
    risk = policy;
    equity = whole 2000;
    open_positions = [];
    daily_pnl = whole 0;
    weekly_pnl = whole 0;
    trades_today = 0;
    consecutive_losses = 0;
    peak_equity = whole 2000;
    kill_switch_active = false;
  };
  guard = initial;
  broker = record {
    equity = whole 2000;
    initial_equity = whole 2000;
    slippage_bps = whole 0;
    commission_bps = whole 0;
    positions = [];
    closed_trades = [];
    fills_opened = 0;
    fills_closed = 0;
    risk_events = [];
  };
}

abbrev world : ℕ → Observed ℤ
world n = record {
  stop_before = false;
  runtime = runtime;
  input = record {
    reader = none;
    snapshots = [];
    started_at_ms = 1;
    order_time = whole 1;
    exit_time = whole 2;
  };
  stop_after = false;
}

run-EndsBy_example :
    (o : PaperOrchestrator ℤ) × (run runtime engine (some 2) world 3 (create desk) ≡ some (ended o))
    × (o.running ≡ false)
    × (o.sessions_completed ≤ 2)
    × (length o.sessions ≡ o.sessions_completed)
    × Passed engine (some 2) world 0 o.sessions_completed
unfolding is_valid
run-EndsBy_example = run-EndsBy runtime engine (some 2) world 2 desk refl (inl refl)
