-- ===== src/Research/Integrity/Tests.antt =====
-- Three candles of one minute, and a series with a hole.
use bot_crypto.Prelude.{ℕ, ◌≤◌, ◌≡◌, refl, List, [], ◌∷◌, All, length}
use bot_crypto.Prelude.Int.{ℤ, pos}
use bot_crypto.Float.Integers.{integers}
use bot_crypto.Market.Candles.{Ohlcv}
use bot_crypto.Research.Integrity.{
  check, all_passed, gaps, gaps_from, check_missing_bars, check_duplicates, duplicates_from,
  contains_ts, check_monotonicity, violations, violations_from, check_ohlcv_validity, issues,
  issues_of, check_warmup, check_completeness, bound_issues, expected_interval_ms,
}
use bot_crypto.Research.Integrity.Sound.{IsRegular, IsSane, IsCovering, check_sound}

abbrev candle : ℕ → Ohlcv ℤ
candle t = record {
  symbol = "BTC/USDT";
  timestamp = t;
  open_price = pos 10;
  high = pos 12;
  low = pos 9;
  close = pos 11;
  volume = pos 1;
}

abbrev candles : List (Ohlcv ℤ)
candles = candle 60000 ∷ candle 120000 ∷ candle 180000 ∷ []

hole : gaps 60000 (candle 60000 ∷ candle 240000 ∷ []) ≡ 60000 ∷ []
unfolding gaps gaps_from
hole = refl

check_sound_example :
    IsRegular 60000 candles
    × All IsSane candles
    × (3 ≤ length candles)
    × IsCovering 60000 180000 candles
unfolding check all_passed gaps gaps_from check_missing_bars check_duplicates duplicates_from
    contains_ts check_monotonicity violations violations_from check_ohlcv_validity issues issues_of
    check_warmup check_completeness bound_issues expected_interval_ms
check_sound_example = check_sound candles "1m" 60000 60000 180000 3 refl refl
