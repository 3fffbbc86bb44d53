-- ===== src/Market/Timeframe/Tests.antt =====
-- The inference on concrete candles.
use bot_crypto.Prelude.{none, ◌⊎◌, ◌≡◌, ◌≢◌, refl, some, List, [], ◌∷◌, ◌*◌}
use bot_crypto.Prelude.Int.{ℤ, pos}
use bot_crypto.Market.Timeframe.{
  m1, m5, h1, seconds, intervals, sort, to_seconds, distance, closest, within_tolerance, classify,
  median, infer_timeframe_from_candles,
}
use bot_crypto.Market.Timeframe.Infer.{spaced, infer_round_trip}

-- Five-minute candles, one of them missing.
abbrev gap : List ℤ
gap = pos 0 ∷ pos 300 ∷ pos 900 ∷ pos 1200 ∷ []

infer-gap : infer_timeframe_from_candles gap ≡ some m5
unfolding infer_timeframe_from_candles median intervals sort classify to_seconds closest distance
    within_tolerance seconds
infer-gap = refl

classify-h1 : classify (pos 3500) ≡ some h1
unfolding classify to_seconds closest distance within_tolerance seconds
classify-h1 = refl

infer_round_trip_example :
    (infer_timeframe_from_candles (spaced 7 (seconds m1) 5) ≡ some m1)
    × (((m1 ≡ m1) × (infer_timeframe_from_candles (spaced 7 (seconds m1 * 1000) 5) ≡ none))
        ⊎ ((m1 ≢ m1) × (infer_timeframe_from_candles (spaced 7 (seconds m1 * 1000) 5) ≡ some m1)))
infer_round_trip_example = infer_round_trip m1 7 3
