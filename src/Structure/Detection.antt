-- ===== src/Structure/Detection.antt =====
-- What the detector returns.
use bot_crypto.Prelude.{
  ℕ, zero, suc, ◌+◌, ◌-◌, ◌*◌, ◌≤◌, String, ◌≡◌, refl, ap, true, Option, none, some, List, [], ◌∷◌,
  ◌++◌, arith, length, length-append, get_elem?, get_last?, All,
}
use bot_crypto.Float.{Float, IsOrdered, whole, ◌≤F◌, fmin, fmax}
use bot_crypto.Market.Candles.{Ohlcv}
use bot_crypto.Structure.{
  TechnicalZone, Request, support, resistance, is_valid, zone, request_of, event_ts, zone_if,
  is_below, is_above, pivots_of, pivots_at, pivots_in, neighbors, pivot_zones, range, range_zones,
  order_block_zone, consolidation_zone, listed, all_zones, detect_market_structure,
}
use bot_crypto.Structure.Zones.{all_zones-AreValid}

module _ {F : Type 0} ⦃fl : Float F⦄ (mean : List F → F) where
  length-range : (start n : ℕ) → length (range start n) ≡ n
  length-range start zero = refl
  length-range start (suc n) = ap suc (length-range (start + 1) n)

  length-pivots_at :
      (r : Request) (near : List (Ohlcv F)) (c : Option (Ohlcv F)) → length (pivots_at r near c) ≤ 2
  unfolding pivots_at pivots_of
  length-pivots_at r near none = omega arith
  length-pivots_at r near (some c) = ground (
    arith,
    length-append
        (zone_if (is_below c near) (zone r support c.low (fmin c.open_price c.close) c.timestamp))
        (zone_if (is_above c near)
          (zone r resistance (fmax c.open_price c.close) c.high c.timestamp)),
  )

  length-listed : (z : Option (TechnicalZone F)) → length (listed mean z) ≤ 1
  length-listed none = omega arith
  length-listed (some z) = omega arith

  length-pivots_in :
      (r : Request) (candles : List (Ohlcv F)) (window : ℕ) (is : List ℕ)
      → length (pivots_in r candles window is) ≤ 2 * length is
  unfolding pivots_in pivots_at pivots_of
  length-pivots_in r candles window [] = omega arith
  length-pivots_in r candles window (idx ∷ is) = ground (
    arith,
    length-pivots_in r candles window is,
    length-append (pivots_at r (neighbors candles window idx) (get_elem? candles idx))
        (pivots_in r candles window is),
    length-pivots_at r (neighbors candles window idx) (get_elem? candles idx),
  )

  -- The number of zones is at least that of the range, and at most two for each candle with neighbors on both sides.
  length-all_zones :
      (r : Request) (window : ℕ) (c : Ohlcv F) (cs : List (Ohlcv F))
      → (2 ≤ length (all_zones mean r window c cs))
        × (length (all_zones mean r window c cs) ≤ 2 * (length (c ∷ cs) - 2 * window) + 4)
  unfolding all_zones range_zones pivot_zones
  length-all_zones r window c cs =
      let blocks = listed mean (order_block_zone mean r (c ∷ cs)) in
      let rest = listed mean (consolidation_zone mean r (c ∷ cs)) in
      let pivots = pivot_zones r (c ∷ cs) window in
      let ranges = range_zones r c cs in
      omega (
        arith,
        length-append (pivots ++ ranges ++ blocks) rest,
        length-append (pivots ++ ranges) blocks,
        length-append pivots ranges,
        length-listed (order_block_zone mean r (c ∷ cs)),
        length-listed (consolidation_zone mean r (c ∷ cs)),
        length-pivots_in r (c ∷ cs) window (range window (length (c ∷ cs) - 2 * window)),
        length-range window (length (c ∷ cs) - 2 * window),
      )

  -- Where the comparisons are a total order and 0.1 is between 0 and 1: with a window of at least 1 and at least two windows and one candle, the detector returns zones, and each of them
  -- passes the zone's own check, so that none raises its ValueError: low is not above high, and the strength is
  -- between 0 and 1. They are at least the two of the range, and at most four and two for each candle with a window on both sides.
  pub detect_lem :
      (o : IsOrdered fl)
      (tenth : (whole 0 ≤F fl.decimal 1 10 ≡ true) × (fl.decimal 1 10 ≤F whole 1 ≡ true))
      (candles : List (Ohlcv F)) (symbol timeframe : String) (window : ℕ) (detected_at : Option ℕ)
      → 1 ≤ window
      → window * 2 + 1 ≤ length candles
      → (zs : List (TechnicalZone F)) × (detect_market_structure mean candles symbol timeframe
            window detected_at
          ≡ some zs)
        × All (λ z. is_valid z ≡ true) zs
        × (2 ≤ length zs)
        × (length zs ≤ 2 * (length candles - 2 * window) + 4)
  unfolding detect_market_structure
  detect_lem o tenth [] symbol timeframe window detected_at h k = ground (arith, h, k)
  detect_lem o tenth (c ∷ cs) symbol timeframe window detected_at h k =
      let r = request_of symbol timeframe (event_ts detected_at (get_last? (c ∷ cs))) in
      (
        all_zones mean r window c cs,
        ground (arith, h, k),
        all_zones-AreValid o tenth mean r window c cs,
        (length-all_zones r window c cs).0,
        (length-all_zones r window c cs).1,
      )
