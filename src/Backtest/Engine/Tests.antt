-- ===== src/Backtest/Engine/Tests.antt =====
-- A backtest on three candles: buy on the first, sell on the third.
use bot_crypto.Prelude.{ℕ, ◌≡◌, refl, Option, some, none, List, [], ◌∷◌, arith, suc, zero}
use bot_crypto.Prelude.Int.{ℤ, pos}
use bot_crypto.Float.{whole}
use bot_crypto.Float.Fixed.{fixed}
use bot_crypto.Signal.{Side, buy, sell}
use bot_crypto.Backtest.Engine.{
  Ohlcv, Order, Costs, Strategy, start, run, step, execute, by_side, execute_buy, buy_fill,
  execute_sell, sell_fill, closing_trade, close_entry, mark, floating_pnl, context, count_bar,
}
use bot_crypto.Backtest.Engine.Books.{IsComparable, IsSettled, IsPositive, run-IsSettled}

abbrev candle : ℕ → ℤ → Ohlcv ℤ
candle t close = record {
  symbol = "BTC/USDT";
  timestamp = t;
  open_price = close;
  high = close;
  low = close;
  close = close;
  volume = whole 100;
}

abbrev order : Side → ℕ → Order ℤ
order side t = record {
  id = "o";
  symbol = "BTC/USDT";
  side = side;
  qty = whole 2;
  order_type = "market";
  limit_price = none;
  timestamp = t;
}

-- Its state is the number of candles it has seen.
abbrev orders : ℕ → ℕ → Option (Order ℤ)
orders zero t = some (order buy t)
orders (suc zero) t = none
orders (suc (suc n)) t = some (order sell t)

abbrev buy_then_sell : Strategy ℤ ℕ
buy_then_sell n x c = (suc n, orders n c.timestamp)

-- A commission of 1 for each order, and a slippage of 1/2.
abbrev costs : Costs ℤ
costs = record { commission = λ n q p. whole 1; slippage = λ p q s v. pos 5000 }

abbrev candles : List (Ohlcv ℤ)
candles = candle 60 (whole 100) ∷ candle 120 (whole 104) ∷ candle 180 (whole 110) ∷ []

-- 2 * (109.5 - 100.5) less the two commissions.
final_equity :
    (run buy_then_sell costs "BTC/USDT" candles (0, start (whole 1000))).1.equity ≡ whole 1016
unfolding run step execute by_side execute_buy buy_fill execute_sell sell_fill closing_trade
    close_entry mark floating_pnl context count_bar
final_equity = refl

fixed-IsComparable : IsComparable fixed
fixed-IsComparable = record {
  eq_refl = λ a. ground arith;
  lt_irrefl = λ a. ground arith;
  eq_of_lt = λ a b h. ground arith;
}

orders-IsPositive : (n t : ℕ) → IsPositive (orders n t)
orders-IsPositive zero t = refl
orders-IsPositive (suc zero) t = tt
orders-IsPositive (suc (suc n)) t = refl

run-IsSettled_example :
    IsSettled (whole 1000) (run buy_then_sell costs "BTC/USDT" candles (0, start (whole 1000))).1
run-IsSettled_example =
    run-IsSettled buy_then_sell costs "BTC/USDT" fixed-IsComparable
      (λ n x c. orders-IsPositive n c.timestamp) (whole 1000) candles 0
