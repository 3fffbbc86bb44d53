-- ===== src/Market/Candles/Tests.antt =====
-- The candle filter and the higher-timeframe state on concrete candles.
use bot_crypto.Prelude.{
  Occurs, ℕ, ◌+◌, ◌*◌, ◌&&◌, ltb, ◌≤◌, ◌<◌, String, ◌≡◌, refl, ◌⊎◌, true, none, some, List, [], ◌∷◌,
  arith, leb, length, filter, is_empty, All, if◌then◌else◌,
}
use bot_crypto.Prelude.Int.{ℤ}
use bot_crypto.Float.{whole}
use bot_crypto.Float.Fixed.{fixed}
use bot_crypto.Market.Timeframe.{name, seconds}
use bot_crypto.Market.Candles.{
  Ohlcv, ok, err, unknown_timeframe, not_enough_candles, timeframe_seconds_or_raise, is_closed,
  to_seconds, filter_completed_candles, is_candle_complete, keep, validate_candles_not_empty,
  get_last_completed_candle, get_completed_htf_state_at, state_of, ends_by, seconds_of,
}
use bot_crypto.Market.Candles.Closed.{validate_candles_lem}
use bot_crypto.Market.Candles.PointInTime.{htf_state_lem}

abbrev candle : ℕ → ℕ → Ohlcv ℤ
candle t close = record {
  symbol = "BTC/USDT";
  timestamp = t;
  open_price = whole close;
  high = whole close;
  low = whole close;
  close = whole close;
  volume = whole 1;
}

-- Texts that are in lower case already.
abbrev same : String → String
same s = s

abbrev candles : List (Ohlcv ℤ)
candles = candle 0 100 ∷ candle 300 101 ∷ candle 600 102 ∷ []

-- At 700 seconds the third five-minute candle is still forming.
last_completed :
    get_last_completed_candle same candles "5m" (whole 700) ≡ ok (some (candle 300 101))
unfolding get_last_completed_candle filter_completed_candles is_candle_complete keep
    timeframe_seconds_or_raise seconds_of name seconds is_closed to_seconds
last_completed = refl

fails_closed : filter_completed_candles same candles "7m" (whole 700) ≡ err unknown_timeframe
unfolding filter_completed_candles is_candle_complete keep timeframe_seconds_or_raise seconds_of
    name
fails_closed = refl

known_5m : timeframe_seconds_or_raise same "5m" ≡ ok 300
unfolding timeframe_seconds_or_raise seconds_of name seconds
known_5m = refl

validate_candles_lem_example :
    let kept = λ (n : ℕ). filter (is_closed n (whole 700)) candles in
    ((n : ℕ) × (timeframe_seconds_or_raise same "5m" ≡ ok n)
      × (validate_candles_not_empty same candles "5m" 2 (whole 700)
          ≡ (if leb 2 (length (kept n)) then ok (kept n) else err not_enough_candles)))
    ⊎ ((timeframe_seconds_or_raise same "5m" ≡ err unknown_timeframe)
        × (validate_candles_not_empty same candles "5m" 2 (whole 700)
            ≡ err (if is_empty candles then not_enough_candles else unknown_timeframe)))
validate_candles_lem_example = validate_candles_lem same candles "5m" 2 (whole 700) (omega arith)

htf_state_lem_example :
    ((get_completed_htf_state_at same candles "5m" 700 ≡ ok none)
      × All (λ c. 700 < c.timestamp + 300) candles)
    ⊎ ((r : Ohlcv ℤ) × (get_completed_htf_state_at same candles "5m" 700
          ≡ ok (some (state_of "5m" 300 r)))
        × Occurs r candles
        × (r.timestamp + 300 ≤ 700)
        × All (λ c. ends_by 300 700 c ≡ true → c.timestamp ≤ r.timestamp) candles
        × All
            (λ c.
              (ends_by 300 700 c && ltb 700 (c.timestamp + 1000 * 300)) ≡ true
              → 700 < r.timestamp + 1000 * 300)
            candles)
htf_state_lem_example = htf_state_lem same candles "5m" 300 700 known_5m
