-- ===== src/Paper/Broker/Tests.antt =====
-- The broker on a concrete session.
use bot_crypto.Prelude.{String, ◌≡◌, refl, true, none, List, [], ◌∷◌, arith, is_some}
use bot_crypto.Prelude.Int.{ℤ, pos, +ℤ_assoc}
use bot_crypto.Float.{whole}
use bot_crypto.Float.Fixed.{fixed, fixed-IsOrdered}
use bot_crypto.Dict.{Dict, lookup, keys, IsUnique}
use bot_crypto.Signal.{Signal, Side, buy, sell}
use bot_crypto.Paper.Broker.Types.{
  PaperPosition, PaperBroker, tp_first, Candle, create, check_exit, check_candle, stop_loss_price,
  take_profit_price,
}
use bot_crypto.Paper.Broker.Orders.{
  execute_signal, close_position, closing_trade, new_position, check_positions,
  check_positions_ohlc, price_rule, candle_rule, sweep, visit,
}
use bot_crypto.Paper.Broker.Sweep.{survivor, lookup-check_positions_ohlc}
use bot_crypto.Paper.Broker.Accounts.{
  IsBalanced, IsExact, Call, signal_call, apply, run, run-IsBalanced,
}
use bot_crypto.Paper.Broker.Exits.{check_candle-of-check_exit}

abbrev order : String → Side → Signal ℤ
order symbol side = record {
  symbol = symbol;
  side = side;
  strategy_name = "ema";
  timeframe = "5m";
  confidence = whole 1;
  price = whole 100;
  stop_loss_pct = none;
  take_profit_pct = none;
  metadata = ("notional_usdt", whole 50) ∷ [];
}

-- Two positions: the default stop is 1% away, the default target 2%.
abbrev opening : List (Call ℤ)
opening = signal_call (order "BTC" buy) (pos 1) ∷ signal_call (order "ETH" sell) (pos 2) ∷ []

-- No slippage, and no commission.
abbrev broker : PaperBroker ℤ
broker = run opening (create (whole 1000) (whole 0) (whole 0))

abbrev prices : Dict ℤ
prices = ("BTC", whole 98) ∷ ("ETH", whole 100) ∷ []

-- The long position loses 2% of 50.
equity-after-stop : (check_positions prices (pos 3) broker).0.equity ≡ whole 999
unfolding run apply create execute_signal new_position check_positions sweep visit close_position
    closing_trade price_rule check_exit stop_loss_price take_profit_price
equity-after-stop = refl

keys-after-stop : keys (check_positions prices (pos 3) broker).0.positions ≡ "ETH" ∷ []
unfolding run apply create execute_signal new_position check_positions sweep visit close_position
    closing_trade price_rule check_exit stop_loss_price take_profit_price
keys-after-stop = refl

broker-IsUnique : IsUnique broker.positions
broker-IsUnique = (run-IsBalanced (whole 1000) (whole 0) (whole 0) opening).unique

abbrev wide : Candle ℤ
wide = record { open_price = whole 100; high = whole 103; low = whole 98; close = whole 102 }

lookup-check_positions_ohlc_example :
    lookup "ETH" (check_positions_ohlc tp_first (("ETH", wide) ∷ []) (pos 3) broker).0.positions
    ≡ survivor (candle_rule tp_first (("ETH", wide) ∷ [])) "ETH" (lookup "ETH" broker.positions)
lookup-check_positions_ohlc_example =
    lookup-check_positions_ohlc tp_first (("ETH", wide) ∷ []) (pos 3) "ETH" broker broker-IsUnique

run-IsBalanced_example : IsBalanced fixed broker
run-IsBalanced_example = run-IsBalanced (whole 1000) (whole 0) (whole 0) opening

fixed-IsExact : IsExact fixed
fixed-IsExact = record { add_assoc = +ℤ_assoc; add-zero = λ a. ground arith }

abbrev long : PaperPosition ℤ
long = record {
  symbol = "BTC";
  side = buy;
  entry_price = whole 100;
  quantity = whole 1;
  notional_usdt = whole 100;
  stop_loss_pct = whole 1;
  take_profit_pct = whole 2;
  opened_at = pos 0;
  entry_commission = pos 0;
}

check_candle-of-check_exit_example : is_some (check_candle tp_first long wide) ≡ true
unfolding check_exit stop_loss_price take_profit_price
check_candle-of-check_exit_example =
    check_candle-of-check_exit fixed-IsOrdered tp_first long wide refl refl refl
