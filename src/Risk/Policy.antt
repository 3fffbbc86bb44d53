-- ===== src/Risk/Policy.antt =====
-- The risk policy: src/trading_bot/config/risk.py. The field bounds that pydantic checks are
-- `field_bounds`, the cross-field validator is `check_invariants`. The nested blocks on market conditions are
-- not read by the risk manager and are left out.
use bot_crypto.Prelude.{ℕ, ◌≡◌, Bool, true, ◌&&◌, Option, none, some, arith, leb, if◌then◌else◌}
use bot_crypto.Float.{Float, IsOrdered, whole, ◌<F◌, ◌≤F◌, le_of_not_lt}

pub record Risk (F : Type 0) : Type 0 where
  pub max_risk_per_trade_pct : F
  pub max_daily_loss_pct : F
  pub max_weekly_loss_pct : F
  pub max_daily_drawdown_pct : F
  pub max_total_drawdown_pct : F
  pub max_open_positions : ℕ
  pub max_trades_per_day : ℕ
  pub max_consecutive_losses : ℕ
  pub consecutive_loss_cooldown_minutes : ℕ
  pub max_asset_exposure_pct : F
  pub max_total_exposure_pct : F
  pub min_order_notional_usdt : F
  pub max_order_notional_usdt : F
  pub default_stop_loss_pct : F
  pub default_take_profit_pct : F
  pub kill_switch_enabled : Bool
  pub live_trading_enabled : Bool

-- The checks of the validator, in its order.
pub data Violation : Type 0 where
  exposure_below_risk asset_above_total order_range payoff live_trading : Violation

abbrev between : ℕ → ℕ → ℕ → Bool
between low x high = leb low x && leb x high

module _ {F : Type 0} ⦃fl : Float F⦄ where
  abbrev in_range : F → ℕ → Bool
  in_range x top = whole 0 <F x && x ≤F whole top

  pub field_bounds : Risk F → Bool
  field_bounds r =
      in_range r.max_risk_per_trade_pct 5
      && in_range r.max_daily_loss_pct 10
      && in_range r.max_weekly_loss_pct 20
      && in_range r.max_daily_drawdown_pct 20
      && in_range r.max_total_drawdown_pct 50
      && between 1 r.max_open_positions 20
      && between 1 r.max_trades_per_day 1000
      && between 1 r.max_consecutive_losses 20
      && in_range r.max_asset_exposure_pct 100
      && in_range r.max_total_exposure_pct 100
      && whole 0 <F r.min_order_notional_usdt
      && whole 0 <F r.max_order_notional_usdt
      && in_range r.default_stop_loss_pct 20
      && in_range r.default_take_profit_pct 20

  unfoldable pub check_invariants : Risk F → Option Violation
  check_invariants r =
      if r.max_total_exposure_pct <F r.max_risk_per_trade_pct
      then some exposure_below_risk
      else if r.max_total_exposure_pct <F r.max_asset_exposure_pct
      then some asset_above_total
      else if r.max_order_notional_usdt <F r.min_order_notional_usdt
      then some order_range
      else if r.default_take_profit_pct ≤F r.default_stop_loss_pct
      then some payoff
      else if r.live_trading_enabled
      then some live_trading
      else none

  -- A policy that passes the validator has a non-empty range of order sizes.
  pub order_range_of_valid :
      (o : IsOrdered fl) (r : Risk F)
      → check_invariants r ≡ none
      → fl.le r.min_order_notional_usdt r.max_order_notional_usdt ≡ true
  unfolding check_invariants
  order_range_of_valid o r h =
      ground (arith, le_of_not_lt o r.max_order_notional_usdt r.min_order_notional_usdt)
