-- ===== src/Structure/Zones.antt =====
-- The zones that the detector builds.
use bot_crypto.Prelude.{
  ℕ, ◌-◌, ◌*◌, ◌≡◌, Bool, true, false, Option, none, some, List, [], ◌∷◌, ◌++◌, arith, length,
  get_elem?, get_last?, All, All-append, if◌then◌else◌, Bool-cases, inl, inr,
}
use bot_crypto.Float.{Float, IsOrdered, le_refl, whole, ◌-F◌, ◌≤F◌, fmin, fmax}
use bot_crypto.Market.Candles.{Ohlcv}
use bot_crypto.Structure.{
  TechnicalZone, ZoneKind, Request, support, resistance, is_valid, zone, width_pct, order_block,
  range_low, range_high, accumulation, distribution, zone_if, is_below, is_above, pivots_of,
  pivots_at, pivots_in, neighbors, pivot_zones, range, range_zones, is_order_block, last_block,
  order_block_zone, mean_range, consolidation_of, consolidate, consolidation_zone, recent, listed,
  all_zones, lowest, highest,
}

module _ {F : Type 0} ⦃fl : Float F⦄ (o : IsOrdered fl)
    (tenth : (whole 0 ≤F fl.decimal 1 10 ≡ true) × (fl.decimal 1 10 ≤F whole 1 ≡ true)) where
  min-le-max : (a b : F) → fmin a b ≤F fmax a b ≡ true
  min-le-max a b =
      ground
        (arith, o.lt-eq-not-le a b, o.lt-eq-not-le b a, o.le_total a b, o.le_total b a, le_refl o a)

  -- The strength is cut to the interval from 0.1 to 1.
  clamped :
      (x : F)
      → (whole 0 ≤F fmax (fl.decimal 1 10) (fmin (whole 1) x) ≡ true)
        × (fmax (fl.decimal 1 10) (fmin (whole 1) x) ≤F whole 1 ≡ true)
  clamped x = ground (
    arith,
    tenth,
    o.lt-eq-not-le (fl.decimal 1 10) x,
    o.lt-eq-not-le x (whole 1),
    o.lt-eq-not-le (fl.decimal 1 10) (whole 1),
    o.le_total x (fl.decimal 1 10),
    o.le_total (whole 1) x,
    o.le_total x (whole 1),
    o.le_trans (whole 0) (fl.decimal 1 10) x,
    le_refl o (whole 1),
    o.le_trans (whole 0) (fl.decimal 1 10) (whole 1),
  )

  abbrev pub AreValid : List (TechnicalZone F) → Type 0
  AreValid zs = All (λ z. is_valid z ≡ true) zs

  zone-is_valid : (r : Request) (k : ZoneKind) (a b : F) (t : ℕ) → is_valid (zone r k a b t) ≡ true
  unfolding is_valid zone
  zone-is_valid r k a b t =
      ground (arith, min-le-max a b, clamped (whole 1 -F width_pct (fmin a b) (fmax a b)))

  zone_if-AreValid :
      (b : Bool) (r : Request) (k : ZoneKind) (x y : F) (t : ℕ)
      → AreValid (zone_if b (zone r k x y t))
  zone_if-AreValid true r k x y t = (zone-is_valid r k x y t, tt)
  zone_if-AreValid false r k x y t = tt

  pivots_at-AreValid :
      (r : Request) (near : List (Ohlcv F)) (c : Option (Ohlcv F)) → AreValid (pivots_at r near c)
  unfolding pivots_at pivots_of
  pivots_at-AreValid r near none = tt
  pivots_at-AreValid r near (some c) =
      All-append (λ z. is_valid z ≡ true) (zone_if (is_below c near) _)
        (zone_if (is_above c near) _) (zone_if-AreValid (is_below c near) r support _ _ _)
        (zone_if-AreValid (is_above c near) r resistance _ _ _)

  pivots_in-AreValid :
      (r : Request) (candles : List (Ohlcv F)) (window : ℕ) (is : List ℕ)
      → AreValid (pivots_in r candles window is)
  unfolding pivots_in
  pivots_in-AreValid r candles window [] = tt
  pivots_in-AreValid r candles window (idx ∷ is) =
      All-append (λ z. is_valid z ≡ true)
        (pivots_at r (neighbors candles window idx) (get_elem? candles idx))
        (pivots_in r candles window is)
        (pivots_at-AreValid r (neighbors candles window idx) (get_elem? candles idx))
        (pivots_in-AreValid r candles window is)

  module _ (mean : List F → F) where
    last_block-AreValid :
        (r : Request) (atr : F) (cs : List (Ohlcv F))
        → AreValid (listed mean (last_block mean r atr cs))
    unfolding last_block
    last_block-AreValid r atr [] = tt
    last_block-AreValid r atr (prev ∷ []) = tt
    last_block-AreValid r atr (prev ∷ current ∷ cs) =
        go (last_block mean r atr (current ∷ cs)) (last_block-AreValid r atr (current ∷ cs))
      where
        go :
            (later : Option (TechnicalZone F))
            → AreValid (listed mean later)
            → AreValid (
                listed mean (elim later [
                  | some z ↦ some z
                  | none ↦
                      if is_order_block mean atr prev current
                      then some (
                          zone r order_block
                            (fmin prev.open_price prev.close)
                            (fmax prev.open_price prev.close)
                            prev.timestamp)
                      else none
                ]))
        go (some z) h = h
        go none h = ground (
          arith,
          zone-is_valid r order_block (fmin prev.open_price prev.close)
              (fmax prev.open_price prev.close) prev.timestamp,
        )

    order_block-AreValid :
        (r : Request) (cs : List (Ohlcv F)) → AreValid (listed mean (order_block_zone mean r cs))
    unfolding order_block_zone
    order_block-AreValid r cs = elim (Bool-cases (mean_range mean cs ≤F whole 0)) [
      | inl h ↦ rw h tt
      | inr h ↦ rw h (last_block-AreValid r (mean_range mean cs) cs)
    ]

    consolidate-AreValid :
        (r : Request) (candles window : List (Ohlcv F))
        → AreValid (listed mean (consolidate mean r candles window))
    unfolding consolidate consolidation_of
    consolidate-AreValid r candles [] = tt
    consolidate-AreValid r candles (first ∷ rest) = of_last (get_last? (first ∷ rest))
      where
        one :
            (k : ZoneKind) (final : Ohlcv F)
            → is_valid (zone r k (lowest first rest).low (highest first rest).high final.timestamp)
              ≡ true
        one k final =
            zone-is_valid r k (lowest first rest).low (highest first rest).high final.timestamp

        of_one :
            (final : Ohlcv F)
            → AreValid (listed mean (consolidation_of mean r candles first rest final))
        of_one final =
            ground
              (arith, one (if first.close ≤F final.close then accumulation else distribution) final)

        of_last :
            (final : Option (Ohlcv F))
            → AreValid (
                listed mean (elim final [
                  | none ↦ none
                  | some f ↦ consolidation_of mean r candles first rest f
                ]))
        of_last none = tt
        of_last (some f) = of_one f

    range_zones-AreValid :
        (r : Request) (c : Ohlcv F) (cs : List (Ohlcv F)) → AreValid (range_zones r c cs)
    unfolding range_zones
    range_zones-AreValid r c cs =
        (zone-is_valid r range_low _ _ _, (zone-is_valid r range_high _ _ _, tt))

    consolidation-AreValid :
        (r : Request) (cs : List (Ohlcv F)) → AreValid (listed mean (consolidation_zone mean r cs))
    unfolding consolidation_zone
    consolidation-AreValid r cs = consolidate-AreValid r cs (recent mean cs)

    pivot_zones-AreValid :
        (r : Request) (cs : List (Ohlcv F)) (window : ℕ) → AreValid (pivot_zones r cs window)
    unfolding pivot_zones
    pivot_zones-AreValid r cs window =
        pivots_in-AreValid r cs window (range window (length cs - 2 * window))

    pub all_zones-AreValid :
        (r : Request) (window : ℕ) (c : Ohlcv F) (cs : List (Ohlcv F))
        → AreValid (all_zones mean r window c cs)
    unfolding all_zones
    all_zones-AreValid r window c cs =
        let blocks = listed mean (order_block_zone mean r (c ∷ cs)) in
        let rest = listed mean (consolidation_zone mean r (c ∷ cs)) in
        let P = λ (z : TechnicalZone F). is_valid z ≡ true in
        let pivots = pivot_zones r (c ∷ cs) window in
        let ranges = range_zones r c cs in
        All-append P (pivots ++ ranges ++ blocks) rest
          (All-append P (pivots ++ ranges) blocks
            (All-append P pivots ranges (pivot_zones-AreValid r (c ∷ cs) window)
              (range_zones-AreValid r c cs))
            (order_block-AreValid r (c ∷ cs)))
          (consolidation-AreValid r (c ∷ cs))
