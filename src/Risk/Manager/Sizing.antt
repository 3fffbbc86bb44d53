-- ===== src/Risk/Manager/Sizing.antt =====
-- The bounds on the size of an approved position.
use bot_crypto.Prelude.{◌≡◌, true, none, some, arith}
use bot_crypto.Float.{
  Float, IsOrdered, whole, ◌/F◌, le_refl, le_of_lt, le_of_not_lt, fmin-le_right, fmax,
}
use bot_crypto.Signal.{Signal}
use bot_crypto.Risk.Policy.{check_invariants, order_range_of_valid}
use bot_crypto.Risk.Manager.{
  RiskManager, PositionSize, compute_position_size, final_notional, clamped_notional, max_remaining,
}

module _ {F : Type 0} ⦃fl : Float F⦄ (o : IsOrdered fl) where
  fmax_le : (a b c : F) → fl.le a c ≡ true → fl.le b c ≡ true → fl.le (fmax a b) c ≡ true
  fmax_le a b c h k = ground arith

  clamped-le-max :
      (s : Signal F) (m : RiskManager F)
      → check_invariants m.risk ≡ none
      → fl.le (clamped_notional s m) m.risk.max_order_notional_usdt ≡ true
  unfolding clamped_notional
  clamped-le-max s m v =
      fmax_le _ _ _ (order_range_of_valid o m.risk v)
        (fmin-le_right o _ m.risk.max_order_notional_usdt)

  final-le :
      (s : Signal F) (m : RiskManager F)
      → (fl.le (final_notional s m) (max_remaining m) ≡ true)
        × (fl.le (final_notional s m) (clamped_notional s m) ≡ true)
  unfolding final_notional
  final-le s m = ground (
    arith,
    le_refl o (max_remaining m),
    le_refl o (clamped_notional s m),
    le_of_lt o (max_remaining m) (clamped_notional s m),
    le_of_not_lt o (max_remaining m) (clamped_notional s m),
  )

  -- With amounts in a total order, and under a valid policy, the notional of a position size lies in the
  -- policy's order range and within the exposure that remains; the size records it rounded to cents, and
  -- buys it at the signal's price.
  pub compute_position_size_bounds :
      (s : Signal F) (m : RiskManager F) (p : PositionSize F)
      → check_invariants m.risk ≡ none
      → compute_position_size s m ≡ some p
      → let n = final_notional s m in
        (fl.le m.risk.min_order_notional_usdt n ≡ true)
        × (fl.le n m.risk.max_order_notional_usdt ≡ true)
        × (fl.le n (max_remaining m) ≡ true)
        × (p.notional_usdt ≡ fl.round n 2)
        × (p.quantity ≡ n /F s.price)
        × (fl.lt (whole 0) s.price ≡ true)
  unfolding compute_position_size
  compute_position_size_bounds s m p v h = ground (
    arith,
    final-le s m,
    clamped-le-max s m v,
    o.le_trans (final_notional s m) (clamped_notional s m) m.risk.max_order_notional_usdt,
    le_of_not_lt o (final_notional s m) m.risk.min_order_notional_usdt,
    o.lt-eq-not-le (whole 0) s.price,
  )
