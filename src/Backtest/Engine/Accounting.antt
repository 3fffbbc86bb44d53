-- ===== src/Backtest/Engine/Accounting.antt =====
-- A backtest on whole numbers: a purchase, a candle, a sale, and its canonical accounting.
use bot_crypto.Prelude.{
  ◌&&◌, ℕ, zero, suc, true, ◌≡◌, refl, Option, some, none, List, [], ◌∷◌, arith, All,
}
use bot_crypto.Prelude.Int.{ℤ}
use bot_crypto.Float.{whole}
use bot_crypto.Float.Integers.{integers, integers-IsOrdered, integers-IsUnrounded}
use bot_crypto.Signal.{Side, buy, sell}
use bot_crypto.Backtest.Engine.{
  Ohlcv, Order, Costs, Strategy, start, run, step, execute, by_side, execute_buy, buy_fill,
  execute_sell, sell_fill, closing_trade, close_entry, mark, floating_pnl, context, count_bar,
}
use bot_crypto.Backtest.Engine.Books.{IsComparable, IsPositive}
use bot_crypto.Research.Accounting.{
  explicit_cost, compute_trade_pnl, trade_pnls, compute_portfolio_pnl,
}
use bot_crypto.Research.Accounting.Reconciled.{IsFull, backtest-reconciled}
use bot_crypto.Research.Gates.{evaluate_accounting, accounting_passed, is_pass}
use bot_crypto.Research.Gates.Qualified.{backtest-passes}

abbrev candle : ℕ → ℤ → Ohlcv ℤ
candle t close = record {
  symbol = "BTC/USDT";
  timestamp = t;
  open_price = close;
  high = close;
  low = close;
  close = close;
  volume = whole 100;
}

abbrev order : Side → ℕ → Order ℤ
order side t = record {
  id = "o";
  symbol = "BTC/USDT";
  side = side;
  qty = whole 2;
  order_type = "market";
  limit_price = none;
  timestamp = t;
}

abbrev orders : ℕ → ℕ → Option (Order ℤ)
orders zero t = some (order buy t)
orders (suc zero) t = none
orders (suc (suc n)) t = some (order sell t)

abbrev buy_then_sell : Strategy ℤ ℕ
buy_then_sell n x c = (suc n, orders n c.timestamp)

abbrev costs : Costs ℤ
costs = record { commission = λ n q p. whole 1; slippage = λ p q s v. whole 1 }

abbrev candles : List (Ohlcv ℤ)
candles = candle 60 (whole 100) ∷ candle 120 (whole 104) ∷ candle 180 (whole 110) ∷ []

integers-IsComparable : IsComparable integers
integers-IsComparable = record {
  eq_refl = λ a. ground arith;
  lt_irrefl = λ a. ground arith;
  eq_of_lt = λ a b h. ground arith;
}

orders-IsPositive : (n t : ℕ) → IsPositive (orders n t)
orders-IsPositive zero t = refl
orders-IsPositive (suc zero) t = tt
orders-IsPositive (suc (suc n)) t = refl

closed :
    (run buy_then_sell costs "BTC/USDT" candles (0, start (whole 1000))).1.pending_entry_fill ≡ none
unfolding run step execute by_side execute_buy buy_fill execute_sell sell_fill closing_trade
    close_entry mark floating_pnl context count_bar
closed = refl

sold_all : All IsFull (run buy_then_sell costs "BTC/USDT" candles (0, start (whole 1000))).1.trades
unfolding run step execute by_side execute_buy buy_fill execute_sell sell_fill closing_trade
    close_entry mark floating_pnl context count_bar
sold_all = (refl, tt)

backtest-reconciled_example :
    let s = (run buy_then_sell costs "BTC/USDT" candles (0, start (whole 1000))).1 in
    All (λ t. (compute_trade_pnl explicit_cost t).reconciled ≡ true) s.trades
    × ((compute_portfolio_pnl explicit_cost s.trades (whole 1000) s.equity).equity_reconciled
        ≡ true)
    × ((compute_portfolio_pnl explicit_cost s.trades (whole 1000) s.equity).final_equity ≡ s.equity)
backtest-reconciled_example =
    backtest-reconciled integers-IsOrdered integers-IsUnrounded refl integers-IsComparable
      buy_then_sell costs "BTC/USDT" (λ n x c. orders-IsPositive n c.timestamp) explicit_cost
      (whole 1000) candles 0 closed sold_all

backtest-passes_example :
    let s = (run buy_then_sell costs "BTC/USDT" candles (0, start (whole 1000))).1 in
    let r =
      evaluate_accounting
        (whole 1)
        (trade_pnls explicit_cost s.trades)
        (compute_portfolio_pnl explicit_cost s.trades (whole 1000) s.equity)
        (whole 10) in
    accounting_passed r ≡ (is_pass r.fee_reconciliation && is_pass r.turnover_semantics)
backtest-passes_example =
    backtest-passes integers-IsOrdered integers-IsUnrounded refl integers-IsComparable buy_then_sell
      costs "BTC/USDT" (λ n x c. orders-IsPositive n c.timestamp) explicit_cost (whole 1000) candles
      0 (whole 1) (whole 10) refl closed sold_all
