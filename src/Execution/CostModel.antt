-- ===== src/Execution/CostModel.antt =====
-- The cost model of paper trading: src/trading_bot/execution/cost_model.py, its construction, `compute_costs` and
-- `planned_net_rr`.
pub mod Signs
mod Tests
use bot_crypto.Prelude.{Option, none, some, ◌||◌, if◌then◌else◌}
use bot_crypto.Float.{Float, whole, ◌+F◌, ◌-F◌, ◌*F◌, ◌/F◌, ◌<F◌, fmax}
use bot_crypto.Signal.{Side, buy, sell}

pub record ExecutionCosts (F : Type 0) : Type 0 where
  pub entry_fee_usdt : F
  pub exit_fee_usdt : F
  pub entry_slippage_usdt : F
  pub exit_slippage_usdt : F
  pub total_cost_usdt : F
  pub total_cost_bps : F
  pub gross_pnl : F
  pub net_pnl : F

pub record PlannedNetRr (F : Type 0) : Type 0 where
  pub gross_rr : F
  pub net_rr : F
  pub cost_fraction_of_target : F
  pub total_cost_bps : F

pub record ExecutionCostModel (F : Type 0) : Type 0 where
  pub commission_bps : F
  pub slippage_bps : F

module _ {F : Type 0} ⦃fl : Float F⦄ where
  -- `ExecutionCostModel(commission_bps, slippage_bps)`; None stands for the ValueError
  abbrev pub create : F → F → Option (ExecutionCostModel F)
  create commission_bps slippage_bps =
      if commission_bps <F whole 0
        || whole 1000 <F commission_bps
        || slippage_bps <F whole 0
        || whole 1000 <F slippage_bps
      then none
      else some (record { commission_bps = commission_bps; slippage_bps = slippage_bps })

  abbrev bps_to_decimal : F → F
  bps_to_decimal bps = bps /F whole 10000

  -- `entry_commission_usdt` and `exit_commission_usdt`, which are the same
  abbrev commission_usdt : F → ExecutionCostModel F → F
  commission_usdt notional_usdt m = notional_usdt *F bps_to_decimal m.commission_bps

  abbrev pub entry_slippage_price : F → Side → ExecutionCostModel F → F
  entry_slippage_price price buy m = price *F (whole 1 +F bps_to_decimal m.slippage_bps)
  entry_slippage_price price sell m = price *F (whole 1 -F bps_to_decimal m.slippage_bps)

  abbrev pub exit_slippage_price : F → Side → ExecutionCostModel F → F
  exit_slippage_price price buy m = price *F (whole 1 -F bps_to_decimal m.slippage_bps)
  exit_slippage_price price sell m = price *F (whole 1 +F bps_to_decimal m.slippage_bps)

  -- What a position gains from `a` to `b`.
  abbrev gain : Side → F → F → F → F
  gain buy a b quantity = (b -F a) *F quantity
  gain sell a b quantity = (a -F b) *F quantity

  pub compute_costs : F → F → F → F → Side → ExecutionCostModel F → ExecutionCosts F
  compute_costs notional_usdt entry_price exit_price quantity side m =
      let actual_entry = entry_slippage_price entry_price side m in
      let actual_exit = exit_slippage_price exit_price side m in
      let gross_pnl = gain side actual_entry actual_exit quantity in
      let fee = commission_usdt notional_usdt m in
      let entry_slippage = fmax (gain side entry_price actual_entry quantity) (whole 0) in
      let exit_slippage = fmax (gain side actual_exit exit_price quantity) (whole 0) in
      let total = fee +F fee +F entry_slippage +F exit_slippage in
      record {
        entry_fee_usdt = fl.round fee 8;
        exit_fee_usdt = fl.round fee 8;
        entry_slippage_usdt = fl.round entry_slippage 8;
        exit_slippage_usdt = fl.round exit_slippage 8;
        total_cost_usdt = fl.round total 8;
        total_cost_bps =
            fl.round
              (if whole 0 <F notional_usdt then total /F notional_usdt *F whole 10000 else whole 0)
              4;
        gross_pnl = fl.round gross_pnl 8;
        net_pnl = fl.round (gross_pnl -F total) 8;
      }

  -- Neither the entry price nor the side is read.
  pub planned_net_rr : F → F → ExecutionCostModel F → PlannedNetRr F
  planned_net_rr stop_distance_pct target_distance_pct m =
      let notional = whole 1000 in
      let stop = notional *F (stop_distance_pct /F whole 100) in
      let target = notional *F (target_distance_pct /F whole 100) in
      let fee = commission_usdt notional m in
      let slip = notional *F bps_to_decimal m.slippage_bps in
      let total = fee +F fee +F slip +F slip in
      let net_loss = stop +F total in
      record {
        gross_rr = if whole 0 <F stop then fl.round (target /F stop) 4 else whole 0;
        net_rr =
            fl.round (if whole 0 <F net_loss then (target -F total) /F net_loss else whole 0) 4;
        cost_fraction_of_target =
            if whole 0 <F target then fl.round (total /F target) 4 else whole 1;
        total_cost_bps = fl.round (total /F notional *F whole 10000) 2;
      }
