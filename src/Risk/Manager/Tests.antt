-- ===== src/Risk/Manager/Tests.antt =====
-- The risk manager on concrete signals.
use bot_crypto.Prelude.{
  ◌≡◌, refl, true, false, not, ◌&&◌, ltb, none, some, [], ◌∷◌, is_some, length,
}
use bot_crypto.Prelude.Int.{ℤ, negsuc}
use bot_crypto.Float.{whole, ◌/F◌, ◌≤F◌}
use bot_crypto.Float.Fixed.{fixed, fixed-IsOrdered}
use bot_crypto.Signal.{Signal, buy}
use bot_crypto.Risk.Policy.{Risk, check_invariants}
use bot_crypto.Risk.Manager.{
  RiskManager, PositionSize, blocked, daily_loss_limit, check_signal, compute_position_size,
  final_notional, clamped_notional, max_remaining, current_exposure, risk_amount, drawdown_pct,
  daily_loss_reached, trade_call, apply, run,
}
use bot_crypto.Risk.Manager.Limits.{is_approved, check_signal-approved}
use bot_crypto.Risk.Manager.Sizing.{compute_position_size_bounds}

-- 1% risk for each trade, 3% daily loss, 50% exposure, orders from 10 to 1000.
abbrev policy : Risk ℤ
policy = record {
  max_risk_per_trade_pct = whole 1;
  max_daily_loss_pct = whole 3;
  max_weekly_loss_pct = whole 6;
  max_daily_drawdown_pct = whole 5;
  max_total_drawdown_pct = whole 10;
  max_open_positions = 3;
  max_trades_per_day = 20;
  max_consecutive_losses = 3;
  consecutive_loss_cooldown_minutes = 60;
  max_asset_exposure_pct = whole 20;
  max_total_exposure_pct = whole 50;
  min_order_notional_usdt = whole 10;
  max_order_notional_usdt = whole 1000;
  default_stop_loss_pct = whole 1;
  default_take_profit_pct = whole 2;
  kill_switch_enabled = true;
  live_trading_enabled = false;
}

abbrev signal : Signal ℤ
signal = record {
  symbol = "BTC/USDT";
  side = buy;
  strategy_name = "ema";
  timeframe = "5m";
  confidence = whole 1;
  price = whole 20;
  stop_loss_pct = none;
  take_profit_pct = some (whole 3);
  metadata = [];
}

-- Equity 2000 with 400 invested: 600 may still be invested.
abbrev manager : RiskManager ℤ
manager = record {
  risk = policy;
  equity = whole 2000;
  open_positions = ("ETH/USDT", some (whole 400)) ∷ ("SOL/USDT", none) ∷ [];
  daily_pnl = whole 0;
  weekly_pnl = whole 0;
  trades_today = 4;
  consecutive_losses = 1;
  peak_equity = whole 2100;
  kill_switch_active = false;
}

abbrev size : PositionSize ℤ
size = record {
  symbol = "BTC/USDT";
  side = buy;
  notional_usdt = whole 600;
  quantity = whole 30;
  stop_loss_pct = whole 1;
  take_profit_pct = whole 3;
  risk_amount_usdt = whole 20;
}

-- The stop allows 2000, the order limit 1000, the exposure 600.
size-manager : compute_position_size signal manager ≡ some size
unfolding compute_position_size final_notional clamped_notional max_remaining current_exposure
    risk_amount
size-manager = refl

loses_too_much :
    check_signal signal (run (trade_call (negsuc 599999) ∷ []) manager) ≡ blocked daily_loss_limit
unfolding run apply check_signal daily_loss_reached
loses_too_much = refl

check_signal-approved_example : is_approved (check_signal signal manager) ≡ (
    not manager.kill_switch_active
    && manager.risk.kill_switch_enabled
    && ltb manager.trades_today manager.risk.max_trades_per_day
    && ltb (length manager.open_positions) manager.risk.max_open_positions
    && ltb manager.consecutive_losses manager.risk.max_consecutive_losses
    && not (daily_loss_reached manager)
    && not (manager.risk.max_total_drawdown_pct ≤F drawdown_pct manager)
    && is_some (compute_position_size signal manager))
check_signal-approved_example = check_signal-approved signal manager

compute_position_size_bounds_example :
    let n = final_notional signal manager in
    (fixed.le (whole 10) n ≡ true)
    × (fixed.le n (whole 1000) ≡ true)
    × (fixed.le n (max_remaining manager) ≡ true)
    × (size.notional_usdt ≡ fixed.round n 2)
    × (size.quantity ≡ n /F signal.price)
    × (fixed.lt (whole 0) signal.price ≡ true)
unfolding check_invariants
compute_position_size_bounds_example =
    compute_position_size_bounds fixed-IsOrdered signal manager size refl size-manager

abbrev stopped : RiskManager ℤ
stopped = record manager { kill_switch_active = true }
