-- ===== src/Market/Candles/Closed.antt =====
-- The filter keeps exactly the closed candles, and fails closed on a timeframe that it does not know.
use bot_crypto.Prelude.{
  ℕ, String, ◌≡◌, refl, true, List, [], ◌∷◌, arith, length, filter, is_empty, if◌then◌else◌, inl,
  inr, ◌⊎◌, ◌<◌, leb, Option-cases,
}
use bot_crypto.Float.{Float, IsOrdered, whole, ◌+F◌}
use bot_crypto.Market.Timeframe.{timeframes}
use bot_crypto.Market.Candles.{
  Ohlcv, ok, err, unknown_timeframe, not_enough_candles, timeframe_seconds_or_raise, is_closed,
  is_candle_complete, keep, filter_completed_candles, validate_candles_not_empty, seconds_of,
  to_seconds,
}

known-or-unknown :
    (lower : String → String) (timeframe : String)
    → ((n : ℕ) × (timeframe_seconds_or_raise lower timeframe ≡ ok n))
      ⊎ (timeframe_seconds_or_raise lower timeframe ≡ err unknown_timeframe)
unfolding timeframe_seconds_or_raise
known-or-unknown lower timeframe = elim (Option-cases (seconds_of (lower timeframe) timeframes)) [
  | inl e ↦ inr (ground arith)
  | inr (n, e) ↦ inl (n, ground arith)
]

module _ {F : Type 0} ⦃fl : Float F⦄ (lower : String → String) where
  filter-known :
      (cs : List (Ohlcv F)) (timeframe : String) (now : F) (n : ℕ)
      → timeframe_seconds_or_raise lower timeframe ≡ ok n
      → filter_completed_candles lower cs timeframe now ≡ ok (filter (is_closed n now) cs)
  unfolding filter_completed_candles is_candle_complete keep
  filter-known [] timeframe now n e = refl
  filter-known (c ∷ cs) timeframe now n e = ground (arith, filter-known cs timeframe now n e)

  filter-unknown :
      (cs : List (Ohlcv F)) (timeframe : String) (now : F)
      → timeframe_seconds_or_raise lower timeframe ≡ err unknown_timeframe
      → filter_completed_candles lower cs timeframe now
        ≡ (if is_empty cs then ok [] else err unknown_timeframe)
  unfolding filter_completed_candles is_candle_complete keep
  filter-unknown [] timeframe now e = refl
  filter-unknown (c ∷ cs) timeframe now e = ground arith

  validate-unknown :
      (cs : List (Ohlcv F)) (timeframe : String) (min_count : ℕ) (now : F)
      → 0 < min_count
      → timeframe_seconds_or_raise lower timeframe ≡ err unknown_timeframe
      → validate_candles_not_empty lower cs timeframe min_count now
        ≡ err (if is_empty cs then not_enough_candles else unknown_timeframe)
  unfolding validate_candles_not_empty
  validate-unknown [] timeframe min_count now h e =
      ground (arith, filter-unknown [] timeframe now e)
  validate-unknown (c ∷ cs) timeframe min_count now h e =
      ground (arith, filter-unknown (c ∷ cs) timeframe now e)

  -- With a positive minimum, the validation returns candles only for a timeframe of the table, and then exactly the
  -- closed ones, in order, at least the minimum of them; for a timeframe of the table with fewer closed candles than
  -- the minimum it raises the error that says so, and for any other timeframe it raises.
  pub validate_candles_lem :
      (cs : List (Ohlcv F)) (timeframe : String) (min_count : ℕ) (now : F)
      → 0 < min_count
      → (((n : ℕ) × (timeframe_seconds_or_raise lower timeframe ≡ ok n)
            × (validate_candles_not_empty lower cs timeframe min_count now ≡ (
                if leb min_count (length (filter (is_closed n now) cs))
                then ok (filter (is_closed n now) cs)
                else err not_enough_candles)))
          ⊎ ((timeframe_seconds_or_raise lower timeframe ≡ err unknown_timeframe)
              × (validate_candles_not_empty lower cs timeframe min_count now
                  ≡ err (if is_empty cs then not_enough_candles else unknown_timeframe))))
  unfolding validate_candles_not_empty
  validate_candles_lem cs timeframe min_count now h = elim (known-or-unknown lower timeframe) [
    | inl (n, e) ↦ inl (n, e, ground (arith, filter-known cs timeframe now n e))
    | inr e ↦ inr (e, validate-unknown cs timeframe min_count now h e)
  ]

  -- With times in a total order, a candle that is closed at one time is closed at every later time, so the later
  -- filter keeps all that the earlier one kept.
  pub filter-monotone :
      (o : IsOrdered fl) (n : ℕ) (now later : F) (cs : List (Ohlcv F))
      → fl.le now later ≡ true
      → filter (is_closed n later) (filter (is_closed n now) cs) ≡ filter (is_closed n now) cs
  unfolding is_closed
  filter-monotone o n now later [] h = refl
  filter-monotone o n now later (c ∷ cs) h = ground (
    arith,
    filter-monotone o n now later cs h,
    o.le_trans (to_seconds c.timestamp +F whole n) now later,
  )
