-- ===== src/Structure/Tests.antt =====
-- A list of five candles with a dip in the middle.
use bot_crypto.Prelude.{
  ℕ, ◌+◌, ◌-◌, ◌*◌, ◌≤◌, ◌≡◌, refl, true, some, none, List, [], ◌∷◌, All, length, arith,
}
use bot_crypto.Prelude.Int.{ℤ, pos}
use bot_crypto.Float.Integers.{integers, integers-IsOrdered}
use bot_crypto.Market.Candles.{Ohlcv}
use bot_crypto.Structure.{
  TechnicalZone, is_valid, zone, detect_market_structure, request_of, support, pivots_of, is_below,
  is_above,
}
use bot_crypto.Structure.Detection.{detect_lem}

abbrev candle : ℕ → ℕ → Ohlcv ℤ
candle t low = record {
  symbol = "BTC/USDT";
  timestamp = t;
  open_price = pos (low + 2);
  high = pos (low + 4);
  low = pos low;
  close = pos (low + 1);
  volume = pos 1;
}

abbrev candles : List (Ohlcv ℤ)
candles = candle 1 10 ∷ candle 2 9 ∷ candle 3 5 ∷ candle 4 8 ∷ candle 5 11 ∷ []

abbrev near : List (Ohlcv ℤ)
near = candle 2 9 ∷ candle 4 8 ∷ []

dip_supports :
    pivots_of (request_of "BTC/USDT" "5m" 5) near (candle 3 5)
    ≡ zone (request_of "BTC/USDT" "5m" 5) support (pos 5) (pos 6) 3 ∷ []
unfolding pivots_of is_below is_above
dip_supports = refl

detect_lem_example :
    (zs : List (TechnicalZone ℤ)) × (detect_market_structure
        (λ xs. pos 3)
        candles
        "BTC/USDT"
        "5m"
        2
        none
      ≡ some zs)
    × All (λ z. is_valid z ≡ true) zs
    × (2 ≤ length zs)
    × (length zs ≤ 2 * (length candles - 2 * 2) + 4)
detect_lem_example =
    detect_lem (λ xs. pos 3) integers-IsOrdered (refl, refl) candles "BTC/USDT" "5m" 2 none
      (omega arith) (omega arith)
