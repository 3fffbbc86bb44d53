-- ===== src/Scanner/Filters/Tests.antt =====
-- A live and a paper filter on one source.
use bot_crypto.Prelude.{◌≡◌, refl, true, some, []}
use bot_crypto.Prelude.Int.{ℤ}
use bot_crypto.Float.{whole}
use bot_crypto.Float.Fixed.{fixed, fixed-IsOrdered}
use bot_crypto.Scanner.Filters.{
  Mode, paper, live, Source, VolumeFilter, live_refused, create_volume, volume_threshold,
  apply_volume,
}
use bot_crypto.Scanner.Filters.Outcomes.{live_passes_all}

abbrev source : Source ℤ
source = record { volume_usdt = λ s. whole 12; spread_bps = λ s. whole 3; recent = λ s n. [] }

abbrev filter_in : Mode → VolumeFilter ℤ
filter_in mode = record { min_usdt = whole 5; mode = mode; live_min_usdt = some (whole 10) }

created_live : create_volume (whole 5) live (some (whole 10)) ≡ some (filter_in live)
unfolding create_volume live_refused
created_live = refl

created_paper : create_volume (whole 5) paper (some (whole 10)) ≡ some (filter_in paper)
unfolding create_volume live_refused
created_paper = refl

passes_live : (apply_volume (filter_in live) "BTC/USDT" source).passed ≡ true
unfolding apply_volume volume_threshold
passes_live = refl

live_passes_all_example : (apply_volume (filter_in paper) "BTC/USDT" source).passed ≡ true
live_passes_all_example =
    live_passes_all fixed-IsOrdered (whole 5) paper (some (whole 10)) (filter_in live)
      (filter_in paper) "BTC/USDT" source created_live created_paper passes_live
