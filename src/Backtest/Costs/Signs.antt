-- ===== src/Backtest/Costs/Signs.antt =====
-- Commissions and slippages are never negative.
use bot_crypto.Prelude.{◌≡◌, subst, true, none, List, [], ◌∷◌, arith, All}
use bot_crypto.Float.{
  IsNonNegative, Float, IsOrdered, IsSigned, whole, ◌*F◌, ◌/F◌, ◌<F◌, fmax, le_refl, le_of_not_lt,
}
use bot_crypto.Signal.{Side}
use bot_crypto.Backtest.Costs.{
  Tier, CommissionModel, tiered, SlippageModel, ok, create_flat_pct, check_tiers, create_tiered,
  last_rate, select_rate, calculate_commission, create_flat_bps, create_volume_impact,
  calculate_slippage, engine_costs,
}

module _ {F : Type 0} ⦃fl : Float F⦄ where
  -- The models that the constructors return.
  pub data IsCommission (m : CommissionModel F) : Type 0 where
    by_rate : (rate : F) → create_flat_pct rate ≡ ok m → IsCommission m
    by_tiers :
        (tiers : List (Tier F)) (fixed_fee : F)
        → create_tiered tiers fixed_fee ≡ ok m
        → IsCommission m

  pub data IsSlippage (m : SlippageModel F) : Type 0 where
    by_bps : (bps : F) → create_flat_bps bps ≡ ok m → IsSlippage m
    by_impact :
        (base_bps impact_coef : F) → create_volume_impact base_bps impact_coef ≡ ok m → IsSlippage m

module _ {F : Type 0} ⦃fl : Float F⦄ (o : IsOrdered fl) (signs : IsSigned fl) where
  checked : (ts : List (Tier F)) → check_tiers ts ≡ none → All (λ t. IsNonNegative t.rate) ts
  unfolding check_tiers
  checked [] h = tt
  checked (t ∷ ts) h = ground (arith, checked ts, le_of_not_lt o t.rate (whole 0))

  last_rate-IsNonNegative :
      (d : F) (ts : List (Tier F))
      → IsNonNegative d
      → All (λ t. IsNonNegative t.rate) ts
      → IsNonNegative (last_rate d ts)
  unfolding last_rate
  last_rate-IsNonNegative d [] h k = h
  last_rate-IsNonNegative d (t ∷ ts) h k = last_rate-IsNonNegative t.rate ts k.0 k.1

  select_rate-IsNonNegative :
      (d notional : F) (ts : List (Tier F))
      → IsNonNegative d
      → All (λ t. IsNonNegative t.rate) ts
      → IsNonNegative (select_rate d notional ts)
  unfolding select_rate
  select_rate-IsNonNegative d notional [] h k = h
  select_rate-IsNonNegative d notional (t ∷ ts) h k =
      ground (arith, select_rate-IsNonNegative d notional ts h k.1)

  tiered-IsNonNegative :
      (ts : List (Tier F)) (fixed_fee notional qty price : F)
      → All (λ t. IsNonNegative t.rate) ts
      → IsNonNegative fixed_fee
      → IsNonNegative notional
      → IsNonNegative (calculate_commission (tiered ts fixed_fee) notional qty price)
  unfolding calculate_commission
  tiered-IsNonNegative ts fixed_fee notional qty price rates fee h =
      let d = last_rate-IsNonNegative (whole 0) ts (le_refl o (whole 0)) rates in
      let rate = select_rate (last_rate (whole 0) ts) notional ts in
      signs.add_nonneg (notional *F rate) fixed_fee
        (signs.mul_nonneg notional rate h
          (select_rate-IsNonNegative (last_rate (whole 0) ts) notional ts d rates))
        fee

  commission-IsNonNegative :
      (m : CommissionModel F) (notional qty price : F)
      → IsCommission m
      → IsNonNegative notional
      → IsNonNegative (calculate_commission m notional qty price)
  unfolding create_flat_pct create_tiered calculate_commission
  commission-IsNonNegative m notional qty price (by_rate rate e) h =
      ground (arith, signs.mul_nonneg notional rate, le_of_not_lt o rate (whole 0))
  commission-IsNonNegative m notional qty price (by_tiers [] fixed_fee e) h = ground arith
  commission-IsNonNegative m notional qty price (by_tiers (t ∷ ts) fixed_fee e) h =
      let same : tiered (t ∷ ts) fixed_fee ≡ m = ground arith in
      subst (λ x. IsNonNegative (calculate_commission x notional qty price)) same
        (tiered-IsNonNegative (t ∷ ts) fixed_fee notional qty price
          (checked (t ∷ ts) (ground arith)) (ground (arith, le_of_not_lt o fixed_fee (whole 0))) h)

  bps-IsNonNegative :
      (price bps : F)
      → IsNonNegative price
      → IsNonNegative bps
      → IsNonNegative (price *F (bps /F whole 10000))
  bps-IsNonNegative price bps h k =
      signs.mul_nonneg price (bps /F whole 10000) h (
        signs.div_nonneg bps (whole 10000) k
          (signs.literal_pos 10000 1 (omega arith) (omega arith)))

  fmax_pos : (a b : F) → (whole 0 <F b) ≡ true → (whole 0 <F fmax a b) ≡ true
  fmax_pos a b h = ground (
    arith,
    o.lt-eq-not-le (whole 0) a,
    o.lt-eq-not-le (whole 0) b,
    o.lt-eq-not-le a b,
    o.le_trans b a (whole 0),
  )

  impact-IsNonNegative :
      (sqrt : F → F) (impact_coef qty volume : F)
      → ((a : F) → IsNonNegative a → IsNonNegative (sqrt a))
      → IsNonNegative impact_coef
      → IsNonNegative qty
      → IsNonNegative (impact_coef *F sqrt (qty /F fmax volume (fl.decimal 1 100_000_000)))
  impact-IsNonNegative sqrt impact_coef qty volume root h k =
      let floor = fl.decimal 1 100_000_000 in
      let part = qty /F fmax volume floor in
      signs.mul_nonneg impact_coef (sqrt part) h (
        root part (
          signs.div_nonneg qty (fmax volume floor) k
            (fmax_pos volume floor (signs.literal_pos 1 100_000_000 (omega arith) (omega arith)))))

  slippage-IsNonNegative :
      (sqrt : F → F) (m : SlippageModel F) (price qty : F) (side : Side) (volume : F)
      → ((a : F) → IsNonNegative a → IsNonNegative (sqrt a))
      → IsSlippage m
      → IsNonNegative price
      → IsNonNegative qty
      → IsNonNegative (calculate_slippage sqrt m price qty side volume)
  unfolding create_flat_bps create_volume_impact calculate_slippage
  slippage-IsNonNegative sqrt m price qty side volume root (by_bps bps e) h k =
      ground (arith, bps-IsNonNegative price bps, le_of_not_lt o bps (whole 0))
  slippage-IsNonNegative sqrt m price qty side volume root (by_impact base_bps impact_coef e) h k =
      ground (
        arith,
        bps-IsNonNegative price base_bps h,
        impact-IsNonNegative sqrt impact_coef qty volume root,
        le_of_not_lt o base_bps (whole 0),
        le_of_not_lt o impact_coef (whole 0),
        signs.add_nonneg (price *F (base_bps /F whole 10000))
            (impact_coef *F sqrt (qty /F fmax volume (fl.decimal 1 100_000_000))),
      )

  -- With numbers in a total order whose operations keep signs, and a square root that keeps them too, the engine's
  -- costs from any two models that their constructors accept are never negative: the commission for a notional and the
  -- slippage for a price and a quantity that are not negative, at any volume.
  pub engine_costs-IsNonNegative :
      (sqrt : F → F)
      → ((a : F) → IsNonNegative a → IsNonNegative (sqrt a))
      → (commission : CommissionModel F) (slippage : SlippageModel F) → IsCommission commission
      → IsSlippage slippage
      → (notional price qty volume : F) (side : Side) → IsNonNegative notional
      → IsNonNegative price
      → IsNonNegative qty
      → IsNonNegative ((engine_costs sqrt commission slippage).commission notional qty price)
        × IsNonNegative ((engine_costs sqrt commission slippage).slippage price qty side volume)
  unfolding engine_costs
  engine_costs-IsNonNegative sqrt root commission slippage c s notional price qty volume side hn hp
        hq =
      (
        commission-IsNonNegative commission notional qty price c hn,
        slippage-IsNonNegative sqrt slippage price qty side volume root s hp hq,
      )
