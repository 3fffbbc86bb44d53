-- ===== src/Backtest/Costs/Tests.antt =====
-- Costs from tiers and from the volume.
use bot_crypto.Prelude.{◌≡◌, refl, List, [], ◌∷◌}
use bot_crypto.Prelude.Int.{ℤ, pos}
use bot_crypto.Float.{IsNonNegative}
use bot_crypto.Float.Fixed.{fixed}
use bot_crypto.Float.Integers.{integers, integers-IsOrdered, integers-IsSigned}
use bot_crypto.Signal.{buy}
use bot_crypto.Backtest.Costs.{
  Tier, CommissionModel, tiered, SlippageModel, volume_impact, ok, create_tiered, check_tiers,
  check_order, create_volume_impact, engine_costs,
}
use bot_crypto.Backtest.Costs.Signs.{by_tiers, by_impact, engine_costs-IsNonNegative}

abbrev tiers : List (Tier ℤ)
tiers =
    record { max_notional = pos 500; rate = pos 10 }
    ∷ record { max_notional = pos 1000; rate = pos 9 }
    ∷ []

constructed : create_tiered ⦃fl = fixed⦄ tiers (pos 2) ≡ ok (tiered tiers (pos 2))
unfolding create_tiered check_tiers check_order
constructed = refl

abbrev commission : CommissionModel ℤ
commission = tiered tiers (pos 2)

abbrev slippage : SlippageModel ℤ
slippage = volume_impact (pos 2) (pos 1)

commission_constructed : create_tiered ⦃fl = integers⦄ tiers (pos 2) ≡ ok commission
unfolding create_tiered check_tiers check_order
commission_constructed = refl

slippage_constructed : create_volume_impact ⦃fl = integers⦄ (pos 2) (pos 1) ≡ ok slippage
unfolding create_volume_impact
slippage_constructed = refl

engine_costs-IsNonNegative_example :
    IsNonNegative ⦃fl = integers⦄ (
      (engine_costs ⦃fl = integers⦄ (λ a. a) commission slippage).commission
        (pos 700)
        (pos 7)
        (pos 100))
    × IsNonNegative ⦃fl = integers⦄ (
        (engine_costs ⦃fl = integers⦄ (λ a. a) commission slippage).slippage
          (pos 100)
          (pos 7)
          buy
          (pos 0))
engine_costs-IsNonNegative_example =
    engine_costs-IsNonNegative ⦃fl = integers⦄ integers-IsOrdered integers-IsSigned (λ a. a)
      (λ a h. h) commission slippage (by_tiers tiers (pos 2) commission_constructed)
      (by_impact (pos 2) (pos 1) slippage_constructed) (pos 700) (pos 100) (pos 7) (pos 0) buy refl
      refl refl
