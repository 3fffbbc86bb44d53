-- ===== src/Backtest/Costs.antt =====
-- The commission and slippage models of the backtest engine: src/trading_bot/backtesting/commissions.py and
-- src/trading_bot/backtesting/slippage.py. A class with its validated arguments is a constructor; `sqrt` is
-- `math.sqrt`.
pub mod Tiers
pub mod Signs
mod Tests
use bot_crypto.Prelude.{Bool, true, false, Option, none, some, List, [], ◌∷◌, if◌then◌else◌}
use bot_crypto.Float.{Float, whole, ◌+F◌, ◌*F◌, ◌/F◌, ◌<F◌, ◌≤F◌, fmax}
use bot_crypto.Signal.{Side}
use bot_crypto.Backtest.Engine.{Costs}

pub record Tier (F : Type 0) : Type 0 where
  pub max_notional : F
  pub rate : F

pub data CommissionModel (F : Type 0) : Type 0 where
  flat_pct : F → CommissionModel F
  tiered : List (Tier F) → F → CommissionModel F

pub data SlippageModel (F : Type 0) : Type 0 where
  flat_bps : F → SlippageModel F
  volume_impact : F → F → SlippageModel F

-- The messages of the ValueErrors.
pub data ModelError : Type 0 where
  negative_rate no_tiers negative_max_notional negative_fixed_fee unsorted_tiers negative_bps
        negative_impact :
      ModelError

pub data Result (A : Type 0) : Type 0 where
  ok : A → Result A
  err : ModelError → Result A

module _ {F : Type 0} ⦃fl : Float F⦄ where
  pub create_flat_pct : F → Result (CommissionModel F)
  create_flat_pct rate = if rate <F whole 0 then err negative_rate else ok (flat_pct rate)

  -- The first error of the loop over the tiers.
  pub check_tiers : List (Tier F) → Option ModelError
  check_tiers [] = none
  check_tiers (t ∷ ts) =
      if t.max_notional <F whole 0
      then some negative_max_notional
      else if t.rate <F whole 0
      then some negative_rate
      else check_tiers ts

  -- The loop over the neighbours.
  pub check_order : Tier F → List (Tier F) → Option ModelError
  check_order t [] = none
  check_order t (u ∷ us) =
      if u.max_notional <F t.max_notional then some unsorted_tiers else check_order u us

  pub create_tiered : List (Tier F) → F → Result (CommissionModel F)
  create_tiered [] fixed_fee = err no_tiers
  create_tiered (t ∷ ts) fixed_fee = elim (check_tiers (t ∷ ts)) [
    | some e ↦ err e
    | none ↦
        if fixed_fee <F whole 0
        then err negative_fixed_fee
        else elim (check_order t ts) [ some e ↦ err e | none ↦ ok (tiered (t ∷ ts) fixed_fee) ]
  ]

  -- `self.tiers[-1][1]`, with a default for the empty list that the constructor refuses
  pub last_rate : F → List (Tier F) → F
  last_rate rate [] = rate
  last_rate rate (t ∷ ts) = last_rate t.rate ts

  -- The loop with its `break`.
  pub select_rate : F → F → List (Tier F) → F
  select_rate fallback notional [] = fallback
  select_rate fallback notional (t ∷ ts) =
      if notional ≤F t.max_notional then t.rate else select_rate fallback notional ts

  pub calculate_commission : CommissionModel F → F → F → F → F
  calculate_commission (flat_pct rate) notional qty price = notional *F rate
  calculate_commission (tiered tiers fixed_fee) notional qty price =
      notional *F select_rate (last_rate (whole 0) tiers) notional tiers +F fixed_fee

  pub create_flat_bps : F → Result (SlippageModel F)
  create_flat_bps bps = if bps <F whole 0 then err negative_bps else ok (flat_bps bps)

  pub create_volume_impact : F → F → Result (SlippageModel F)
  create_volume_impact base_bps impact_coef =
      if base_bps <F whole 0
      then err negative_bps
      else if impact_coef <F whole 0
      then err negative_impact
      else ok (volume_impact base_bps impact_coef)

  pub calculate_slippage : (F → F) → SlippageModel F → F → F → Side → F → F
  calculate_slippage sqrt (flat_bps bps) price qty side volume = price *F (bps /F whole 10000)
  calculate_slippage sqrt (volume_impact base_bps impact_coef) price qty side volume =
      price *F (base_bps /F whole 10000)
      +F impact_coef *F sqrt (qty /F fmax volume (fl.decimal 1 100_000_000))

  -- The models as the engine's constructor keeps them.
  pub engine_costs : (F → F) → CommissionModel F → SlippageModel F → Costs F
  engine_costs sqrt commission slippage = record {
    commission = calculate_commission commission;
    slippage = calculate_slippage sqrt slippage;
  }
