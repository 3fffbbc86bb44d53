-- ===== src/Paper/Adapter/Tests.antt =====
-- Two alpha signals of one entry and one stop.
use bot_crypto.Prelude.{◌≡◌, refl, none, some, []}
use bot_crypto.Prelude.Int.{ℤ, pos}
use bot_crypto.Float.Integers.{integers}
use bot_crypto.Paper.Adapter.{AlphaSignal, Direction, long, stop_of, derived_stop_pct, signal_of}

abbrev alpha : Direction → ℤ → AlphaSignal ℤ
alpha direction stop = record {
  family = "trend";
  symbol = "BTC/USDT";
  timestamp = 7;
  direction = direction;
  entry_reference = pos 10;
  structural_stop = stop;
  timeframe = "5m";
  metadata = [];
  effective_stop = none;
}

-- A long's stop below its entry is kept, at its distance from the price.
long_stop :
    (signal_of (alpha long (pos 5))).stop_loss_pct ≡ some (derived_stop_pct (pos 5) (pos 10))
unfolding signal_of stop_of
long_stop = refl
