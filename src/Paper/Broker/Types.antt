-- ===== src/Paper/Broker/Types.antt =====
-- The broker's records, and the exit rules of a position.
use bot_crypto.Prelude.{ℕ, String, Bool, Option, none, some, List, [], ◌&&◌, if◌then◌else◌}
use bot_crypto.Float.{Float, whole, ◌+F◌, ◌-F◌, ◌*F◌, ◌/F◌, ◌≤F◌}
use bot_crypto.Dict.{Dict}
use bot_crypto.Signal.{Side, buy, sell}

pub record PaperPosition (F : Type 0) : Type 0 where
  pub symbol : String
  pub side : Side
  pub entry_price : F
  pub quantity : F
  pub notional_usdt : F
  pub stop_loss_pct : F
  pub take_profit_pct : F
  pub opened_at : F
  pub entry_commission : F

pub data ExitReason : Type 0 where
  stop_loss take_profit signal : ExitReason

pub record ClosedTrade (F : Type 0) : Type 0 where
  pub symbol : String
  pub side : Side
  pub entry_price : F
  pub exit_price : F
  pub quantity : F
  pub pnl : F
  pub exit_reason : ExitReason
  pub opened_at : F
  pub closed_at : F

-- The text "symbol:reason at price", followed by "(ohlc)" if the check was on a candle.
pub record RiskEvent (F : Type 0) : Type 0 where
  pub symbol : String
  pub reason : ExitReason
  pub price : F
  pub ohlc : Bool

pub record PaperBroker (F : Type 0) : Type 0 where
  pub equity : F
  pub initial_equity : F
  pub slippage_bps : F
  pub commission_bps : F
  pub positions : Dict (PaperPosition F)
  pub closed_trades : List (ClosedTrade F)
  pub fills_opened : ℕ
  pub fills_closed : ℕ
  pub risk_events : List (RiskEvent F)

-- `both_hit_policy`: any text but "tp_first" is the default.
pub data BothHitPolicy : Type 0 where
  stop_first tp_first : BothHitPolicy

pub record Candle (F : Type 0) : Type 0 where
  pub open_price : F
  pub high : F
  pub low : F
  pub close : F

module _ {F : Type 0} ⦃fl : Float F⦄ where
  unfoldable pub create : F → F → F → PaperBroker F
  create equity slippage_bps commission_bps = record {
    equity = equity;
    initial_equity = equity;
    slippage_bps = slippage_bps;
    commission_bps = commission_bps;
    positions = [];
    closed_trades = [];
    fills_opened = 0;
    fills_closed = 0;
    risk_events = [];
  }

  abbrev pub below : F → F → F
  below price pct = price *F (whole 1 -F pct /F whole 100)

  abbrev pub above : F → F → F
  above price pct = price *F (whole 1 +F pct /F whole 100)

  abbrev pub stop_at : Side → F → F → F
  stop_at buy price pct = below price pct
  stop_at sell price pct = above price pct

  unfoldable pub stop_loss_price : PaperPosition F → F
  stop_loss_price p = stop_at p.side p.entry_price p.stop_loss_pct

  abbrev pub target_at : Side → F → F → F
  target_at buy price pct = above price pct
  target_at sell price pct = below price pct

  unfoldable pub take_profit_price : PaperPosition F → F
  take_profit_price p = target_at p.side p.entry_price p.take_profit_pct

  abbrev pub profit : Side → F → F → F → F
  profit buy entry price quantity = (price -F entry) *F quantity
  profit sell entry price quantity = (entry -F price) *F quantity

  unfoldable pub unrealized_pnl : PaperPosition F → F → F
  unrealized_pnl p current_price = profit p.side p.entry_price current_price p.quantity

  abbrev pub exit_at : Side → F → F → F → Option ExitReason
  exit_at buy price stop target =
      if price ≤F stop then some stop_loss else if target ≤F price then some take_profit else none
  exit_at sell price stop target =
      if stop ≤F price then some stop_loss else if price ≤F target then some take_profit else none

  unfoldable pub check_exit : PaperPosition F → F → Option ExitReason
  check_exit p price = exit_at p.side price (stop_loss_price p) (take_profit_price p)

  abbrev pub stop_touched : Side → Candle F → F → Bool
  stop_touched buy c stop = c.low ≤F stop
  stop_touched sell c stop = stop ≤F c.high

  abbrev pub target_touched : Side → Candle F → F → Bool
  target_touched buy c target = target ≤F c.high
  target_touched sell c target = c.low ≤F target

  abbrev pub sl_hit : PaperPosition F → Candle F → Bool
  sl_hit p c = stop_touched p.side c (stop_loss_price p)

  abbrev pub tp_hit : PaperPosition F → Candle F → Bool
  tp_hit p c = target_touched p.side c (take_profit_price p)

  abbrev pub both : BothHitPolicy → PaperPosition F → ExitReason × F
  both tp_first p = (take_profit, take_profit_price p)
  both stop_first p = (stop_loss, stop_loss_price p)

  -- The reason and the trigger price, where a candle touches the stop or the target.
  unfoldable pub check_candle : BothHitPolicy → PaperPosition F → Candle F → Option (ExitReason × F)
  check_candle policy p c =
      if sl_hit p c && tp_hit p c
      then some (both policy p)
      else if sl_hit p c
      then some (stop_loss, stop_loss_price p)
      else if tp_hit p c
      then some (take_profit, take_profit_price p)
      else none
