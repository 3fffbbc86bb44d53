-- ===== src/Execution/CostModel/Signs.antt =====
-- The costs of a trade are never negative.
use bot_crypto.Prelude.{◌≡◌, some, arith, if◌then◌else◌}
use bot_crypto.Float.{
  IsNonNegative, Float, IsOrdered, IsSigned, whole, ◌+F◌, ◌*F◌, ◌/F◌, ◌<F◌, le_refl, le_of_not_lt,
  le-fmax_right,
}
use bot_crypto.Signal.{Side}
use bot_crypto.Execution.CostModel.{
  ExecutionCosts, ExecutionCostModel, create, bps_to_decimal, commission_usdt, compute_costs,
}

module _ {F : Type 0} ⦃fl : Float F⦄ where
  pub record AreNonNegative (c : ExecutionCosts F) : Type 0 where
    pub entry_fee : IsNonNegative c.entry_fee_usdt
    pub exit_fee : IsNonNegative c.exit_fee_usdt
    pub entry_slippage : IsNonNegative c.entry_slippage_usdt
    pub exit_slippage : IsNonNegative c.exit_slippage_usdt
    pub total : IsNonNegative c.total_cost_usdt
    pub bps : IsNonNegative c.total_cost_bps

module _ {F : Type 0} ⦃fl : Float F⦄ (o : IsOrdered fl) (signs : IsSigned fl) where
  rate-IsNonNegative : (bps : F) → IsNonNegative bps → IsNonNegative (bps_to_decimal bps)
  rate-IsNonNegative bps h =
      signs.div_nonneg bps (whole 10000) h (signs.literal_pos 10000 1 (omega arith) (omega arith))

  fee-IsNonNegative :
      (c s notional : F) (m : ExecutionCostModel F)
      → create c s ≡ some m
      → IsNonNegative notional
      → IsNonNegative (commission_usdt notional m)
  fee-IsNonNegative c s notional m e h = ground (
    arith,
    le_of_not_lt o c (whole 0),
    rate-IsNonNegative m.commission_bps,
    signs.mul_nonneg notional (bps_to_decimal m.commission_bps) h,
  )

  sum-IsNonNegative :
      (a b c d : F)
      → IsNonNegative a
      → IsNonNegative b
      → IsNonNegative c
      → IsNonNegative d
      → IsNonNegative (a +F b +F c +F d)
  sum-IsNonNegative a b c d ha hb hc hd =
      signs.add_nonneg (a +F b +F c) d (signs.add_nonneg (a +F b) c (signs.add_nonneg a b ha hb) hc)
        hd

  bps-IsNonNegative :
      (total notional : F)
      → IsNonNegative total
      → IsNonNegative (if whole 0 <F notional then total /F notional *F whole 10000 else whole 0)
  bps-IsNonNegative total notional h = ground (
    arith,
    le_refl o (whole 0),
    signs.div_nonneg total notional h,
    signs.mul_nonneg (total /F notional) (whole 10000),
    signs.literal_pos 10000 1 (omega arith) (omega arith),
    o.lt-eq-not-le (whole 0) (whole 10000),
    o.le_total (whole 10000) (whole 0),
  )

  -- With numbers in a total order whose operations keep signs, no cost that an accepted model computes for a notional
  -- that is not negative is negative, at any prices, quantity and side.
  pub compute_costs-AreNonNegative :
      (c s : F) (m : ExecutionCostModel F) (notional entry exit quantity : F) (side : Side)
      → create c s ≡ some m
      → IsNonNegative notional
      → AreNonNegative (compute_costs notional entry exit quantity side m)
  unfolding compute_costs
  compute_costs-AreNonNegative c s m notional entry exit quantity side e h =
      let fee = fee-IsNonNegative c s notional m e h in
      let slip_in = le-fmax_right o _ (whole 0) in
      let slip_out = le-fmax_right o _ (whole 0) in
      let total = sum-IsNonNegative _ _ _ _ fee fee slip_in slip_out in
      record {
        entry_fee = signs.round_nonneg _ 8 fee;
        exit_fee = signs.round_nonneg _ 8 fee;
        entry_slippage = signs.round_nonneg _ 8 slip_in;
        exit_slippage = signs.round_nonneg _ 8 slip_out;
        total = signs.round_nonneg _ 8 total;
        bps = signs.round_nonneg _ 4 (bps-IsNonNegative _ notional total);
      }
