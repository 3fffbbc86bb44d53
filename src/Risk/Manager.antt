-- ===== src/Risk/Manager.antt =====
-- The risk manager: src/trading_bot/risk/manager.py. The log and the texts of the reasons are left
-- out; `blocked_by` is kept.
pub mod Limits
pub mod Sizing
pub mod Session
mod Tests
use bot_crypto.Prelude.{
  ℕ, suc, ◌+◌, String, Bool, true, false, not, ◌&&◌, ◌||◌, Option, none, some, List, [], ◌∷◌, ltb,
  leb, if◌then◌else◌, length, map,
}
use bot_crypto.Float.{Float, whole, ◌+F◌, ◌-F◌, ◌*F◌, ◌/F◌, ◌<F◌, ◌≤F◌, fmax, fmin, fabs, fsum}
use bot_crypto.Dict.{Dict, insert, erase, values}
use bot_crypto.Signal.{Signal, Side, or_default}
use bot_crypto.Risk.Policy.{Risk}

pub record PositionSize (F : Type 0) : Type 0 where
  pub symbol : String
  pub side : Side
  pub notional_usdt : F
  pub quantity : F
  pub stop_loss_pct : F
  pub take_profit_pct : F
  pub risk_amount_usdt : F

pub data Block : Type 0 where
  kill_switch daily_trade_limit max_positions consecutive_loss_cooldown : Block
  daily_loss_limit max_drawdown position_sizing : Block

pub data RiskCheck (F : Type 0) : Type 0 where
  approved : PositionSize F → RiskCheck F
  blocked : Block → RiskCheck F

-- An open position is known by its "notional_usdt", if it has one.
pub record RiskManager (F : Type 0) : Type 0 where
  pub risk : Risk F
  pub equity : F
  pub open_positions : Dict (Option F)
  pub daily_pnl : F
  pub weekly_pnl : F
  pub trades_today : ℕ
  pub consecutive_losses : ℕ
  pub peak_equity : F
  pub kill_switch_active : Bool

module _ {F : Type 0} ⦃fl : Float F⦄ where
  -- `RiskManager(risk=risk, equity=equity)` with its `__post_init__`
  pub create : Risk F → F → RiskManager F
  create risk equity = record {
    risk = risk;
    equity = equity;
    open_positions = [];
    daily_pnl = whole 0;
    weekly_pnl = whole 0;
    trades_today = 0;
    consecutive_losses = 0;
    peak_equity = fmax (whole 0) equity;
    kill_switch_active = false;
  }

  pub activate_kill_switch : RiskManager F → RiskManager F
  activate_kill_switch m = record m { kill_switch_active = true }

  abbrev pub notional_of : Option F → F
  notional_of none = whole 0
  notional_of (some n) = n

  unfoldable pub current_exposure : RiskManager F → F
  current_exposure m = fsum (map notional_of (values m.open_positions))

  unfoldable pub risk_amount : RiskManager F → F
  risk_amount m = m.equity *F (m.risk.max_risk_per_trade_pct /F whole 100)

  unfoldable pub max_remaining : RiskManager F → F
  max_remaining m = m.equity *F (m.risk.max_total_exposure_pct /F whole 100) -F current_exposure m

  -- The notional that the stop loss allows, clamped to the order range.
  unfoldable pub clamped_notional : Signal F → RiskManager F → F
  clamped_notional s m =
      let stop = or_default s.stop_loss_pct m.risk.default_stop_loss_pct in
      let wanted =
        if whole 0 <F stop then risk_amount m /F (stop /F whole 100) else risk_amount m in
      fmax m.risk.min_order_notional_usdt (fmin wanted m.risk.max_order_notional_usdt)

  -- The variable `notional` where the position is built.
  unfoldable pub final_notional : Signal F → RiskManager F → F
  final_notional s m =
      if max_remaining m <F clamped_notional s m then max_remaining m else clamped_notional s m

  unfoldable pub compute_position_size : Signal F → RiskManager F → Option (PositionSize F)
  compute_position_size s m =
      if s.price ≤F whole 0
      then none
      else if final_notional s m <F m.risk.min_order_notional_usdt
      then none
      else some (record {
        symbol = s.symbol;
        side = s.side;
        notional_usdt = fl.round (final_notional s m) 2;
        quantity = final_notional s m /F s.price;
        stop_loss_pct = or_default s.stop_loss_pct m.risk.default_stop_loss_pct;
        take_profit_pct = or_default s.take_profit_pct m.risk.default_take_profit_pct;
        risk_amount_usdt = fl.round (risk_amount m) 2;
      })

  unfoldable pub daily_loss_reached : RiskManager F → Bool
  daily_loss_reached m =
      m.daily_pnl <F whole 0
      && m.equity *F (m.risk.max_daily_loss_pct /F whole 100) ≤F fabs m.daily_pnl

  unfoldable pub drawdown_pct : RiskManager F → F
  drawdown_pct m =
      if whole 0 <F m.peak_equity
      then (m.peak_equity -F m.equity) /F m.peak_equity *F whole 100
      else whole 0

  unfoldable pub sized : Option (PositionSize F) → RiskCheck F
  sized none = blocked position_sizing
  sized (some p) = approved p

  unfoldable pub check_signal : Signal F → RiskManager F → RiskCheck F
  unfolding sized
  check_signal s m =
      if m.kill_switch_active || not m.risk.kill_switch_enabled
      then blocked kill_switch
      else if leb m.risk.max_trades_per_day m.trades_today
      then blocked daily_trade_limit
      else if leb m.risk.max_open_positions (length m.open_positions)
      then blocked max_positions
      else if leb m.risk.max_consecutive_losses m.consecutive_losses
      then blocked consecutive_loss_cooldown
      else if daily_loss_reached m
      then blocked daily_loss_limit
      else if m.risk.max_total_drawdown_pct ≤F drawdown_pct m
      then blocked max_drawdown
      else sized (compute_position_size s m)

  unfoldable pub record_trade_result : F → RiskManager F → RiskManager F
  record_trade_result pnl m = record m {
    trades_today = m.trades_today + 1;
    daily_pnl = m.daily_pnl +F pnl;
    weekly_pnl = m.weekly_pnl +F pnl;
    equity = m.equity +F pnl;
    peak_equity = fmax m.peak_equity (m.equity +F pnl);
    consecutive_losses = if pnl <F whole 0 then m.consecutive_losses + 1 else 0;
  }

  pub add_position : String → Option F → RiskManager F → RiskManager F
  add_position symbol notional m = record m {
    open_positions = insert symbol notional m.open_positions;
  }

  pub remove_position : String → RiskManager F → RiskManager F
  remove_position symbol m = record m { open_positions = erase symbol m.open_positions }

  pub reset_daily : RiskManager F → RiskManager F
  reset_daily m = record m { daily_pnl = whole 0; trades_today = 0; consecutive_losses = 0 }

-- The calls that change the manager.
pub data Call (F : Type 0) : Type 0 where
  activate_call : Call F
  trade_call : F → Call F
  add_call : String → Option F → Call F
  remove_call : String → Call F
  reset_call : Call F

module _ {F : Type 0} ⦃fl : Float F⦄ where
  pub apply : Call F → RiskManager F → RiskManager F
  unfolding activate_kill_switch record_trade_result add_position remove_position reset_daily
  apply activate_call m = activate_kill_switch m
  apply (trade_call pnl) m = record_trade_result pnl m
  apply (add_call s n) m = add_position s n m
  apply (remove_call s) m = remove_position s m
  apply reset_call m = reset_daily m

  pub run : List (Call F) → RiskManager F → RiskManager F
  run [] m = m
  run (c ∷ cs) m = run cs (apply c m)
