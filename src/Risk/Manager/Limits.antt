-- ===== src/Risk/Manager/Limits.antt =====
-- When a signal is approved.
use bot_crypto.Prelude.{◌≡◌, Bool, true, false, not, ◌&&◌, arith, ltb, is_some, length}
use bot_crypto.Float.{Float, ◌≤F◌}
use bot_crypto.Signal.{Signal}
use bot_crypto.Risk.Manager.{
  RiskManager, RiskCheck, approved, blocked, check_signal, compute_position_size,
  daily_loss_reached, drawdown_pct,
}

module _ {F : Type 0} ⦃fl : Float F⦄ where
  abbrev pub is_approved : RiskCheck F → Bool
  is_approved (approved p) = true
  is_approved (blocked b) = false

  -- A signal is approved exactly if the kill switch is enabled and not active, the trades, the open
  -- positions and the losses in a row are below their limits, neither the daily loss nor the drawdown has
  -- reached its limit, and a position size exists.
  pub check_signal-approved :
      (s : Signal F) (m : RiskManager F)
      → is_approved (check_signal s m) ≡ (
          not m.kill_switch_active
          && m.risk.kill_switch_enabled
          && ltb m.trades_today m.risk.max_trades_per_day
          && ltb (length m.open_positions) m.risk.max_open_positions
          && ltb m.consecutive_losses m.risk.max_consecutive_losses
          && not (daily_loss_reached m)
          && not (m.risk.max_total_drawdown_pct ≤F drawdown_pct m)
          && is_some (compute_position_size s m))
  unfolding check_signal
  check_signal-approved s m = ground arith
