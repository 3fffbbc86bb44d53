-- ===== src/Backtest/Engine.antt =====
-- The replay loop of the backtest engine: src/trading_bot/backtesting/engine.py over the records of
-- src/trading_bot/backtesting/types.py. The strategy, the commission and the slippage are the source's
-- protocols: the strategy is any function of its own state, the context and the candle. The metrics at the end of
-- `run` are not modelled.
pub mod Books
pub mod Trades
mod Tests
mod Accounting
use bot_crypto.Prelude.{
  ℕ, zero, suc, ◌+◌, String, Bool, true, false, ◌&&◌, Option, none, some, List, [], ◌∷◌, ◌++◌,
  if◌then◌else◌,
}
use bot_crypto.Float.{Float, whole, ◌+F◌, ◌-F◌, ◌*F◌, ◌/F◌, ◌<F◌, ◌==F◌, fmax}
use bot_crypto.Signal.{Side, buy, sell}

pub record Ohlcv (F : Type 0) : Type 0 where
  pub symbol : String
  pub timestamp : ℕ
  pub open_price : F
  pub high : F
  pub low : F
  pub close : F
  pub volume : F

-- The engine reads neither the type nor the limit price: every order is a market order.
pub record Order (F : Type 0) : Type 0 where
  pub id : String
  pub symbol : String
  pub side : Side
  pub qty : F
  pub order_type : String
  pub timestamp : ℕ
  pub limit_price : Option F

pub record Fill (F : Type 0) : Type 0 where
  pub order_id : String
  pub symbol : String
  pub side : Side
  pub qty_filled : F
  pub fill_price : F
  pub commission : F
  pub slippage : F
  pub timestamp : ℕ

pub record Trade (F : Type 0) : Type 0 where
  pub entry_fill : Fill F
  pub exit_fill : Fill F
  pub pnl : F
  pub pnl_pct : F
  pub bars_held : ℕ

pub record EquityPoint (F : Type 0) : Type 0 where
  pub timestamp : ℕ
  pub equity : F
  pub drawdown_pct : F

pub record BacktestContext (F : Type 0) : Type 0 where
  pub symbol : String
  pub current_time : ℕ
  pub current_price : F
  pub equity : F
  pub position_qty : F
  pub position_avg_price : F

-- `commission_model.calculate(notional, qty, price)` and
-- `slippage_model.calculate(price, qty, side, volume)`
pub record Costs (F : Type 0) : Type 0 where
  pub commission : F → F → F → F
  pub slippage : F → F → Side → F → F

-- The variables of `run`.
pub record State (F : Type 0) : Type 0 where
  pub equity : F
  pub peak_equity : F
  pub position_qty : F
  pub position_avg_price : F
  pub equity_curve : List (EquityPoint F)
  pub trades : List (Trade F)
  pub pending_entry_fill : Option (Fill F)
  pub bars_held : ℕ

module _ {F : Type 0} ⦃fl : Float F⦄ where
  abbrev pub start : F → State F
  start initial_capital = record {
    equity = initial_capital;
    peak_equity = initial_capital;
    position_qty = whole 0;
    position_avg_price = whole 0;
    equity_curve = [];
    trades = [];
    pending_entry_fill = none;
    bars_held = 0;
  }

  pub floating_pnl : Ohlcv F → State F → F
  floating_pnl c s = elim s.pending_entry_fill [
    | none ↦ whole 0
    | some fill ↦
        if whole 0 <F s.position_qty
        then (c.close -F fill.fill_price) *F s.position_qty
        else whole 0
  ]

  -- The equity marked to the close, the peak and the new point of the curve.
  pub mark : Ohlcv F → State F → State F
  mark c s =
      let mtm = s.equity +F floating_pnl c s in
      let peak = fmax s.peak_equity mtm in
      record s {
        peak_equity = peak;
        equity_curve =
            s.equity_curve
            ++ record {
              timestamp = c.timestamp;
              equity = mtm;
              drawdown_pct = if whole 0 <F peak then (peak -F mtm) /F peak else whole 0;
            }
              ∷ [];
      }

  pub context : String → Ohlcv F → State F → BacktestContext F
  context symbol c s = record {
    symbol = symbol;
    current_time = c.timestamp;
    current_price = c.close;
    equity = s.equity;
    position_qty = s.position_qty;
    position_avg_price = s.position_avg_price;
  }

  -- `if position_qty > 0.0: bars_held += 1`
  pub count_bar : State F → State F
  count_bar s = if whole 0 <F s.position_qty then record s { bars_held = s.bars_held + 1 } else s

  pub buy_fill : Costs F → Order F → Ohlcv F → Fill F
  buy_fill costs o c =
      let slip = costs.slippage c.close o.qty o.side c.volume in
      let price = c.close +F slip in
      record {
        order_id = o.id;
        symbol = o.symbol;
        side = buy;
        qty_filled = o.qty;
        fill_price = price;
        commission = costs.commission (price *F o.qty) o.qty price;
        slippage = slip;
        timestamp = c.timestamp;
      }

  -- `_execute_buy`, with the assignments that follow it
  pub execute_buy : Costs F → Order F → Ohlcv F → State F → State F
  execute_buy costs o c s =
      let fill = buy_fill costs o c in
      record s {
        pending_entry_fill = some fill;
        equity = s.equity -F fill.commission;
        position_qty = o.qty;
        position_avg_price = fill.fill_price;
        bars_held = 0;
      }

  pub sell_fill : Costs F → Order F → Ohlcv F → Fill F
  sell_fill costs o c =
      let slip = costs.slippage c.close o.qty o.side c.volume in
      let price = c.close -F slip in
      record {
        order_id = o.id;
        symbol = o.symbol;
        side = sell;
        qty_filled = o.qty;
        fill_price = price;
        commission = costs.commission (price *F o.qty) o.qty price;
        slippage = slip;
        timestamp = c.timestamp;
      }

  pub closing_trade : Costs F → Order F → Ohlcv F → ℕ → Fill F → Trade F
  closing_trade costs o c bars entry =
      let fill = sell_fill costs o c in
      let entry_cost = entry.fill_price *F entry.qty_filled in
      let pnl = fill.fill_price *F o.qty -F entry_cost -F fill.commission in
      let invested = entry_cost +F entry.commission in
      record {
        entry_fill = entry;
        exit_fill = fill;
        pnl = pnl;
        pnl_pct = if whole 0 <F invested then pnl /F invested else whole 0;
        bars_held = bars;
      }

  pub close_entry : Trade F → State F → State F
  close_entry t s = record s {
    equity = s.equity +F t.pnl;
    position_qty = whole 0;
    position_avg_price = whole 0;
    pending_entry_fill = none;
    trades = s.trades ++ t ∷ [];
    bars_held = 0;
  }

  -- `_execute_sell`, with the assignments that follow it; with no entry it is ignored
  pub execute_sell : Costs F → Order F → Ohlcv F → State F → State F
  unfolding close_entry
  execute_sell costs o c s = elim s.pending_entry_fill [
    | none ↦ record s { bars_held = 0 }
    | some entry ↦ close_entry (closing_trade costs o c s.bars_held entry) s
  ]

  pub by_side : Side → Costs F → Order F → Ohlcv F → State F → State F
  by_side buy costs o c s = if s.position_qty ==F whole 0 then execute_buy costs o c s else s
  by_side sell costs o c s = if whole 0 <F s.position_qty then execute_sell costs o c s else s

  pub execute : Costs F → Option (Order F) → Ohlcv F → State F → State F
  unfolding by_side
  execute costs none c s = s
  execute costs (some o) c s = by_side o.side costs o c s

-- `strategy.on_candle(ctx, candle)`, on a strategy with a state of its own
abbrev pub Strategy : Type 0 → Type 0 → Type 0
Strategy F S = S → BacktestContext F → Ohlcv F → S × Option (Order F)

module _ {F S : Type 0} ⦃fl : Float F⦄ (strategy : Strategy F S) (costs : Costs F)
    (symbol : String) where
  -- One round of the loop.
  pub step : Ohlcv F → S × State F → S × State F
  step c (memory, s) =
      let marked = mark c s in
      let (memory', order) = strategy memory (context symbol c marked) c in
      (memory', execute costs order c (count_bar marked))

  pub run : List (Ohlcv F) → S × State F → S × State F
  run [] st = st
  run (c ∷ cs) st = run cs (step c st)
