-- ===== src/Paper/Portfolio.antt =====
-- The portfolio manager of paper trading: src/trading_bot/paper/portfolio_manager.py.
pub mod Laws
mod Tests
use bot_crypto.Prelude.{
  ℕ, String, Bool, true, false, ◌||◌, Option, none, some, List, [], ◌∷◌, leb, if◌then◌else◌,
  is_some, length,
}
use bot_crypto.Float.{Float, whole, ◌+F◌, ◌-F◌, ◌*F◌, ◌/F◌, ◌<F◌, ◌≤F◌, fsum, fabs}
use bot_crypto.Dict.{Dict, contains, insert, erase, values}
use bot_crypto.Signal.{Side, or_default}

-- `rejection_reason`
pub data Rejection : Type 0 where
  invalid_stop_or_price max_positions_reached exposure_exceeded : Rejection

pub record PositionSize (F : Type 0) : Type 0 where
  pub symbol : String
  pub side : Side
  pub quantity : F
  pub notional : F
  pub risk_budget_usdt : F
  pub risk_per_trade_pct : F
  pub max_exposure_pct : F
  pub within_limits : Bool
  pub rejection_reason : Option Rejection

pub record ExposureSnapshot (F : Type 0) : Type 0 where
  pub total_exposure : F
  pub max_exposure : F
  pub exposure_pct : F
  pub positions : Dict F

pub record PortfolioManager (F : Type 0) : Type 0 where
  pub initial_capital : F
  pub capital : F
  pub risk_per_trade : F
  pub max_exposure : F
  pub max_positions : ℕ
  pub max_daily_loss : F
  pub max_drawdown : F
  pub positions : Dict F
  pub daily_pnl : F
  pub peak_equity : F

-- The answer of `check_risk_limits`.
pub data Limit : Type 0 where
  within drawdown_breached daily_loss_breached : Limit

module _ {F : Type 0} ⦃fl : Float F⦄ where
  abbrev pub create : F → F → F → ℕ → F → F → PortfolioManager F
  create initial_capital risk_per_trade max_exposure max_positions max_daily_loss max_drawdown =
      record {
        initial_capital = initial_capital;
        capital = initial_capital;
        risk_per_trade = risk_per_trade;
        max_exposure = max_exposure;
        max_positions = max_positions;
        max_daily_loss = max_daily_loss;
        max_drawdown = max_drawdown;
        positions = [];
        daily_pnl = whole 0;
        peak_equity = initial_capital;
      }

  rejected : String → Side → F → Rejection → PortfolioManager F → PositionSize F
  rejected symbol side risk_budget reason m = record {
    symbol = symbol;
    side = side;
    quantity = whole 0;
    notional = whole 0;
    risk_budget_usdt = risk_budget;
    risk_per_trade_pct = m.risk_per_trade;
    max_exposure_pct = m.max_exposure;
    within_limits = false;
    rejection_reason = some reason;
  }

  -- `equity`: the argument, unless it is None or 0
  pub equity_of : Option F → PortfolioManager F → F
  equity_of current_equity m = or_default current_equity m.capital

  pub risk_budget_of : F → PortfolioManager F → F
  risk_budget_of equity m = equity *F m.risk_per_trade

  pub max_notional_of : F → PortfolioManager F → F
  max_notional_of equity m = equity *F m.max_exposure

  pub max_total_of : F → PortfolioManager F → F
  max_total_of equity m = equity *F m.max_exposure *F whole m.max_positions

  -- The quantity and the notional, capped by the exposure of one position.
  pub capped : F → F → F → PortfolioManager F → F × F
  capped entry_price stop_distance_pct equity m =
      let qty = risk_budget_of equity m /F (entry_price *F stop_distance_pct) in
      let max_notional = max_notional_of equity m in
      if max_notional <F qty *F entry_price
      then (max_notional /F entry_price, max_notional)
      else (qty, qty *F entry_price)

  pub compute_position_size : String → Side → F → F → Option F → PortfolioManager F → PositionSize F
  unfolding rejected
  compute_position_size symbol side entry_price stop_distance_pct current_equity m =
      let equity = equity_of current_equity m in
      let risk_budget = risk_budget_of equity m in
      let (qty, notional) = capped entry_price stop_distance_pct equity m in
      if stop_distance_pct ≤F whole 0 || entry_price ≤F whole 0
      then rejected symbol side risk_budget invalid_stop_or_price m
      else if leb m.max_positions (length m.positions)
      then rejected symbol side risk_budget max_positions_reached m
      else if max_total_of equity m <F fsum (values m.positions) +F notional
      then rejected symbol side risk_budget exposure_exceeded m
      else record {
        symbol = symbol;
        side = side;
        quantity = qty;
        notional = notional;
        risk_budget_usdt = risk_budget;
        risk_per_trade_pct = m.risk_per_trade;
        max_exposure_pct = m.max_exposure;
        within_limits = true;
        rejection_reason = none;
      }

  pub open_position : String → F → PortfolioManager F → PortfolioManager F × Bool
  open_position symbol notional m =
      if contains symbol m.positions
      then (m, false)
      else (record m { positions = insert symbol notional m.positions }, true)

  pub close_position : String → F → PortfolioManager F → PortfolioManager F
  close_position symbol pnl m =
      let capital = m.capital +F pnl in
      record m {
        positions = erase symbol m.positions;
        capital = capital;
        daily_pnl = m.daily_pnl +F pnl;
        peak_equity = if m.peak_equity <F capital then capital else m.peak_equity;
      }

  pub get_exposure : PortfolioManager F → ExposureSnapshot F
  get_exposure m =
      let total = fsum (values m.positions) in
      let max_allowed = max_total_of m.capital m in
      record {
        total_exposure = total;
        max_exposure = max_allowed;
        exposure_pct = if whole 0 <F max_allowed then total /F max_allowed else whole 0;
        positions = m.positions;
      }

  -- The second half of `check_risk_limits`, on the daily loss.
  check_daily_loss : PortfolioManager F → Limit
  check_daily_loss m =
      if whole 0 <F m.initial_capital
      then (if m.daily_pnl <F whole 0
          then (if m.max_daily_loss ≤F fabs m.daily_pnl /F m.initial_capital
              then daily_loss_breached
              else within)
          else within)
      else within

  pub check_risk_limits : F → PortfolioManager F → Limit
  unfolding check_daily_loss
  check_risk_limits equity m =
      if whole 0 <F m.peak_equity
      then (if m.max_drawdown ≤F (m.peak_equity -F equity) /F m.peak_equity
          then drawdown_breached
          else check_daily_loss m)
      else check_daily_loss m

  pub reset_daily : PortfolioManager F → PortfolioManager F
  reset_daily m = record m { daily_pnl = whole 0 }

-- The calls that change the manager.
pub data Call (F : Type 0) : Type 0 where
  open_call : String → F → Call F
  close_call : String → F → Call F
  reset_call : Call F

module _ {F : Type 0} ⦃fl : Float F⦄ where
  pub apply : Call F → PortfolioManager F → PortfolioManager F
  apply (open_call symbol notional) m = (open_position symbol notional m).0
  apply (close_call symbol pnl) m = close_position symbol pnl m
  apply reset_call m = reset_daily m

  pub run : List (Call F) → PortfolioManager F → PortfolioManager F
  run [] m = m
  run (c ∷ cs) m = run cs (apply c m)
