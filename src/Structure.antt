-- ===== src/Structure.antt =====
-- The market structure: src/trading_bot/market_structure/detector.py, with TechnicalZone of trade_journal/types.py. The
-- evidence of a zone is left out, and its id is kept as the timestamp that makes it unique. `zone` builds a zone
-- whether or not it passes the zone's own check, which is `is_valid`. `mean` of the library `statistics` is a parameter.
pub mod Zones
pub mod Detection
mod Tests
use bot_crypto.Prelude.{
  ℕ, zero, suc, ◌+◌, ◌-◌, ◌*◌, String, Bool, true, false, ◌&&◌, ◌||◌, Option, none, some, List, [],
  ◌∷◌, ◌++◌, map, ltb, length, get_elem?, get_last?, if◌then◌else◌,
}
use bot_crypto.Float.{Float, whole, ◌+F◌, ◌-F◌, ◌*F◌, ◌/F◌, ◌<F◌, ◌≤F◌, fmin, fmax, fabs}
use bot_crypto.Market.Candles.{Ohlcv}

pub data ZoneKind : Type 0 where
  support resistance range_low range_high order_block accumulation distribution : ZoneKind

pub record TechnicalZone (F : Type 0) : Type 0 where
  pub symbol : String
  pub timeframe : String
  pub kind : ZoneKind
  pub low : F
  pub high : F
  pub strength : F
  pub detected_at : ℕ
  pub suffix : ℕ

-- What every zone of one call has in common.
pub record Request : Type 0 where
  pub symbol : String
  pub timeframe : String
  pub detected_at : ℕ

abbrev request_of : String → String → ℕ → Request
request_of symbol timeframe detected_at = record {
  symbol = symbol;
  timeframe = timeframe;
  detected_at = detected_at;
}

module _ {A : Type 0} where
  -- `xs[n:]` and `xs[:n]`
  abbrev drop : ℕ → List A → List A
  drop zero xs = xs
  drop (suc n) [] = []
  drop (suc n) (x ∷ xs) = drop n xs

  abbrev take : ℕ → List A → List A
  take zero xs = []
  take (suc n) [] = []
  take (suc n) (x ∷ xs) = x ∷ take n xs

-- `range(start, start + n)`
abbrev range : ℕ → ℕ → List ℕ
range start zero = []
range start (suc n) = start ∷ range (start + 1) n

module _ {F : Type 0} ⦃fl : Float F⦄ where
  -- `__post_init__`, which raises a ValueError where this does not hold
  pub is_valid : TechnicalZone F → Bool
  is_valid z = z.low ≤F z.high && whole 0 ≤F z.strength && z.strength ≤F whole 1

  pub width_pct : F → F → F
  width_pct low high =
      let mid = (low +F high) /F whole 2 in
      if whole 0 <F mid then fmax (high -F low) (whole 0) /F mid else whole 1

  -- `_zone`
  pub zone : Request → ZoneKind → F → F → ℕ → TechnicalZone F
  zone r kind a b suffix = record {
    symbol = r.symbol;
    timeframe = r.timeframe;
    kind = kind;
    low = fmin a b;
    high = fmax a b;
    strength = fmax (fl.decimal 1 10) (fmin (whole 1) (whole 1 -F width_pct (fmin a b) (fmax a b)));
    detected_at = r.detected_at;
    suffix = suffix;
  }

  -- `min(candles, key=...)` and `max(candles, key=...)`: the first one
  abbrev lowest : Ohlcv F → List (Ohlcv F) → Ohlcv F
  lowest best [] = best
  lowest best (c ∷ cs) = lowest (if c.low <F best.low then c else best) cs

  abbrev highest : Ohlcv F → List (Ohlcv F) → Ohlcv F
  highest best [] = best
  highest best (c ∷ cs) = highest (if best.high <F c.high then c else best) cs

  -- `candle.low < min(row.low for row in neighbors)`, and the same of the highs; with a window of at least 1 the neighbors
  -- are not empty.
  pub is_below : Ohlcv F → List (Ohlcv F) → Bool
  is_below c [] = false
  is_below c (n ∷ ns) = c.low <F (lowest n ns).low

  pub is_above : Ohlcv F → List (Ohlcv F) → Bool
  is_above c [] = false
  is_above c (n ∷ ns) = (highest n ns).high <F c.high

  abbrev zone_if : Bool → TechnicalZone F → List (TechnicalZone F)
  zone_if b z = if b then z ∷ [] else []

  -- The neighbors of a candle: `swing_window` on each side.
  pub neighbors : List (Ohlcv F) → ℕ → ℕ → List (Ohlcv F)
  neighbors candles window idx =
      take window (drop (idx - window) candles) ++ take window (drop (idx + 1) candles)

  pub pivots_of : Request → List (Ohlcv F) → Ohlcv F → List (TechnicalZone F)
  pivots_of r near c =
      zone_if (is_below c near) (zone r support c.low (fmin c.open_price c.close) c.timestamp)
      ++ zone_if (is_above c near)
          (zone r resistance (fmax c.open_price c.close) c.high c.timestamp)

  pivots_at : Request → List (Ohlcv F) → Option (Ohlcv F) → List (TechnicalZone F)
  pivots_at r near none = []
  pivots_at r near (some c) = pivots_of r near c

  pub pivots_in : Request → List (Ohlcv F) → ℕ → List ℕ → List (TechnicalZone F)
  unfolding pivots_at neighbors
  pivots_in r candles window [] = []
  pivots_in r candles window (idx ∷ is) =
      pivots_at r (neighbors candles window idx) (get_elem? candles idx)
      ++ pivots_in r candles window is

  -- `_pivot_zones`
  pub pivot_zones : Request → List (Ohlcv F) → ℕ → List (TechnicalZone F)
  pivot_zones r candles window =
      pivots_in r candles window (range window (length candles - 2 * window))

  -- `_range_zones`, of a list that is not empty
  pub range_zones : Request → Ohlcv F → List (Ohlcv F) → List (TechnicalZone F)
  range_zones r c cs =
      let lo = lowest c cs in
      let hi = highest c cs in
      zone r range_low lo.low (fmin lo.open_price lo.close) lo.timestamp
      ∷ zone r range_high (fmax hi.open_price hi.close) hi.high hi.timestamp
      ∷ []

module _ {F : Type 0} where
  -- `detected_at if detected_at is not None else candles[-1].timestamp`
  abbrev event_ts : Option ℕ → Option (Ohlcv F) → ℕ
  event_ts (some t) final = t
  event_ts none none = 0
  event_ts none (some final) = final.timestamp

module _ {F : Type 0} ⦃fl : Float F⦄ (mean : List F → F) where
  pub mean_range : List (Ohlcv F) → F
  mean_range candles = mean (map (λ c. fmax (whole 0) (c.high -F c.low)) candles)

  -- A candle against the impulse, and then one as large as the mean range.
  pub is_order_block : F → Ohlcv F → Ohlcv F → Bool
  is_order_block atr prev current =
      atr ≤F fabs (current.close -F current.open_price)
      && ((prev.close <F prev.open_price && current.open_price <F current.close)
          || (prev.open_price <F prev.close && current.close <F current.open_price))

  -- The loop goes from the newest pair to the oldest: its first hit is the last pair of the list that fits.
  pub last_block : Request → F → List (Ohlcv F) → Option (TechnicalZone F)
  last_block r atr [] = none
  last_block r atr (prev ∷ []) = none
  last_block r atr (prev ∷ current ∷ cs) = elim (last_block r atr (current ∷ cs)) [
    | some z ↦ some z
    | none ↦
        if is_order_block atr prev current
        then some (
            zone r order_block (fmin prev.open_price prev.close) (fmax prev.open_price prev.close)
              prev.timestamp)
        else none
  ]

  -- `_order_block_zone`
  pub order_block_zone : Request → List (Ohlcv F) → Option (TechnicalZone F)
  order_block_zone r candles =
      if mean_range candles ≤F whole 0 then none else last_block r (mean_range candles) candles

  -- `candles[-min(8, len(candles)):]`
  abbrev recent : List (Ohlcv F) → List (Ohlcv F)
  recent candles = drop (length candles - 8) candles

  consolidation_of :
      Request → List (Ohlcv F) → Ohlcv F → List (Ohlcv F) → Ohlcv F → Option (TechnicalZone F)
  consolidation_of r candles first rest final =
      let window = first ∷ rest in
      let high = (highest first rest).high in
      let low = (lowest first rest).low in
      let avg_close = mean (map (λ c. c.close) window) in
      let range_pct = (high -F low) /F avg_close *F whole 100 in
      if avg_close ≤F whole 0
      then none
      else if range_pct ≤F whole 1
          && mean (map (λ c. c.volume) candles) ≤F mean (map (λ c. c.volume) window)
      then some (
          zone r (if first.close ≤F final.close then accumulation else distribution) low high
            final.timestamp)
      else none

  consolidate : Request → List (Ohlcv F) → List (Ohlcv F) → Option (TechnicalZone F)
  unfolding consolidation_of
  consolidate r candles [] = none
  consolidate r candles (first ∷ rest) = elim (get_last? (first ∷ rest)) [
    | none ↦ none
    | some final ↦ consolidation_of r candles first rest final
  ]

  -- `_consolidation_zone`
  pub consolidation_zone : Request → List (Ohlcv F) → Option (TechnicalZone F)
  unfolding consolidate
  consolidation_zone r candles = consolidate r candles (recent candles)

  abbrev listed : Option (TechnicalZone F) → List (TechnicalZone F)
  listed none = []
  listed (some z) = z ∷ []

  pub all_zones : Request → ℕ → Ohlcv F → List (Ohlcv F) → List (TechnicalZone F)
  all_zones r window c cs =
      pivot_zones r (c ∷ cs) window
      ++ range_zones r c cs
      ++ listed (order_block_zone r (c ∷ cs))
      ++ listed (consolidation_zone r (c ∷ cs))

  -- None is the ValueError of a window of zero.
  pub detect_market_structure :
      List (Ohlcv F) → String → String → ℕ → Option ℕ → Option (List (TechnicalZone F))
  unfolding all_zones
  detect_market_structure [] symbol timeframe window detected_at =
      if ltb window 1 then none else some []
  detect_market_structure (c ∷ cs) symbol timeframe window detected_at =
      let zones =
        all_zones (request_of symbol timeframe (event_ts detected_at (get_last? (c ∷ cs)))) window c
          cs in
      if ltb window 1
      then none
      else if ltb (length (c ∷ cs)) (window * 2 + 1)
      then some []
      else some zones

-- None is the ValueError of a price that is not positive.
pub distance_to_zone_bps : {F : Type 0} ⦃fl : Float F⦄ → F → TechnicalZone F → Option F
distance_to_zone_bps price z =
    let edge = if price <F z.low then z.low else z.high in
    if price ≤F whole 0
    then none
    else if z.low ≤F price && price ≤F z.high
    then some (whole 0)
    else some (fabs (price -F edge) /F price *F whole 10000)
