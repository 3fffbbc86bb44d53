-- ===== src/Execution/CostModel/Tests.antt =====
-- A trade at a commission of 5 and a slippage of 1 basis points.
use bot_crypto.Prelude.{refl}
use bot_crypto.Prelude.Int.{ℤ, pos}
use bot_crypto.Float.Integers.{integers, integers-IsOrdered, integers-IsSigned}
use bot_crypto.Signal.{sell}
use bot_crypto.Execution.CostModel.{ExecutionCostModel, compute_costs}
use bot_crypto.Execution.CostModel.Signs.{AreNonNegative, compute_costs-AreNonNegative}

abbrev model : ExecutionCostModel ℤ
model = record { commission_bps = pos 5; slippage_bps = pos 1 }

compute_costs-AreNonNegative_example :
    AreNonNegative ⦃fl = integers⦄
      (compute_costs ⦃fl = integers⦄ (pos 1000) (pos 100) (pos 90) (pos 10) sell model)
compute_costs-AreNonNegative_example =
    compute_costs-AreNonNegative integers-IsOrdered integers-IsSigned (pos 5) (pos 1) model
      (pos 1000) (pos 100) (pos 90) (pos 10) sell refl refl
