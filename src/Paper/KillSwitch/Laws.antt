-- ===== src/Paper/KillSwitch/Laws.antt =====
-- The kill switch latches, reports what it has done, and keeps its bookkeeping consistent.
use bot_crypto.Prelude.{
  ℕ, ◌+◌, ◌≡◌, refl, true, false, List, [], ◌∷◌, ◌++◌, arith, leb, is_some, is_empty, not, All,
  length, is_empty-append, ◌∙◌, ◌&&◌, ◌||◌,
}
use bot_crypto.Float.{Float, IsOrdered, whole, le_of_not_lt, le_of_lt, le_refl}
use bot_crypto.Paper.KillSwitch.{
  KillReason, Message, KillSwitch, KillEvent, activate, deactivate, check, raise_peak, record_trade,
  reset_daily, compute_drawdown, consecutive_loss, consecutive_message, daily_loss_of, Call,
  activate_call, deactivate_call, check_call, record_trade_call, reset_daily_call, apply, run,
  create,
}

-- An active switch has a reason, a time and an event; an idle one has neither reason nor time.
pub record IsConsistent {F : Type 0} (ks : KillSwitch F) : Type 0 where
  pub reason : is_some ks.trigger_reason ≡ ks.active
  pub time : is_some ks.triggered_at ≡ ks.active
  pub logged : (not ks.active || not (is_empty ks.events)) ≡ true

module _ {F : Type 0} ⦃fl : Float F⦄ where
  activate-IsConsistent :
      (r : KillReason) (m : Message F) (e now : F) (ks : KillSwitch F)
      → IsConsistent ks
      → IsConsistent (activate r m e now ks)
  unfolding activate
  activate-IsConsistent r m e now ks h = grind (arith, is_empty-append)

  apply-IsConsistent :
      (c : Call F) (ks : KillSwitch F) → IsConsistent ks → IsConsistent (apply c ks)
  unfolding apply deactivate check record_trade reset_daily
  apply-IsConsistent (activate_call r m e now) ks h = activate-IsConsistent r m e now ks h
  apply-IsConsistent deactivate_call ks h = ground arith
  apply-IsConsistent (check_call e now) ks h = grind (arith, activate-IsConsistent)
  apply-IsConsistent (record_trade_call p now) ks h = grind (arith, activate-IsConsistent)
  apply-IsConsistent (reset_daily_call e) ks h = ground arith

  run-IsConsistent_from :
      (cs : List (Call F)) (ks : KillSwitch F) → IsConsistent ks → IsConsistent (run cs ks)
  unfolding run
  run-IsConsistent_from [] ks h = h
  run-IsConsistent_from (c ∷ cs) ks h =
      run-IsConsistent_from cs (apply c ks) (apply-IsConsistent c ks h)

  -- After any calls on a new switch, it has a reason and a time exactly if it is active, and an active switch has
  -- recorded an event.
  pub run-IsConsistent :
      (max_drawdown max_daily_loss : F) (max_consecutive : ℕ) (cs : List (Call F))
      → IsConsistent (run cs (create max_drawdown max_daily_loss max_consecutive))
  run-IsConsistent max_drawdown max_daily_loss max_consecutive cs =
      run-IsConsistent_from cs (create max_drawdown max_daily_loss max_consecutive)
        (record { reason = refl; time = refl; logged = refl })

  -- Any call but `deactivate`.
  abbrev pub KeepsActive : Call F → Type 0
  KeepsActive deactivate_call = ⊥
  KeepsActive c = Unit

  -- What the activation has recorded.
  abbrev pub SameTrigger : KillSwitch F → KillSwitch F → Type 0
  SameTrigger a b =
      (a.active ≡ b.active)
      × (a.trigger_reason ≡ b.trigger_reason)
      × (a.triggered_at ≡ b.triggered_at)
      × (a.events ≡ b.events)

  apply-SameTrigger :
      (c : Call F) (ks : KillSwitch F)
      → KeepsActive c
      → ks.active ≡ true
      → SameTrigger (apply c ks) ks
  unfolding apply activate check record_trade reset_daily
  apply-SameTrigger (activate_call r m e now) ks k h = ground arith
  apply-SameTrigger deactivate_call ks k h = absurd k
  apply-SameTrigger (check_call e now) ks k h = ground arith
  apply-SameTrigger (record_trade_call p now) ks k h = ground arith
  apply-SameTrigger (reset_daily_call e) ks k h = ground arith

  -- A triggered switch stays triggered, with the reason, time and events of the first trigger,
  -- under any calls that do not deactivate it.
  pub run-SameTrigger :
      (cs : List (Call F)) (ks : KillSwitch F)
      → All KeepsActive cs
      → ks.active ≡ true
      → SameTrigger (run cs ks) ks
  unfolding run
  run-SameTrigger [] ks k h = (refl, refl, refl, refl)
  run-SameTrigger (c ∷ cs) ks k h =
      let (a, r, t, e) = apply-SameTrigger c ks k.0 h in
      let (a', r', t', e') = run-SameTrigger cs (apply c ks) k.1 (a ∙ h) in
      (a' ∙ a, r' ∙ r, t' ∙ t, e' ∙ e)

  -- `check` returns true exactly if the switch is active after it, and an idle switch is triggered
  -- exactly if one of the two limits is reached at the peak that includes this equity.
  pub check_lem :
      (equity now : F) (ks : KillSwitch F)
      → let peaked = raise_peak equity ks in
        ((check equity now ks).1 ≡ (check equity now ks).0.active)
        × ((check equity now ks).1 ≡ (
            ks.active
            || fl.le ks.max_drawdown (compute_drawdown equity peaked)
            || (fl.lt (whole 0) ks.daily_start_equity
                && fl.le ks.max_daily_loss (daily_loss_of equity peaked))))
  unfolding check activate
  check_lem equity now ks = (ground arith, ground arith)

  -- With equities in a total order, `check` of an idle switch never lowers the peak, and the new peak covers the equity just seen.
  pub check_peak :
      (o : IsOrdered fl) (equity now : F) (ks : KillSwitch F)
      → ks.active ≡ false
      → let after = (check equity now ks).0 in
        (fl.le ks.peak_equity after.peak_equity ≡ true) × (fl.le equity after.peak_equity ≡ true)
  unfolding check activate
  check_peak o equity now ks idle = ground (
    arith,
    le_refl o ks.peak_equity,
    le_of_lt o ks.peak_equity equity,
    le_refl o equity,
    le_of_not_lt o ks.peak_equity equity,
  )

  abbrev pub losing_trades : List (F × F) → List (Call F)
  losing_trades [] = []
  losing_trades ((pnl, now) ∷ ts) = record_trade_call pnl now ∷ losing_trades ts

  record_trade_loss :
      (pnl now : F) (ks : KillSwitch F)
      → fl.lt pnl (whole 0) ≡ true
      → ((record_trade pnl now ks).consecutive_losses ≡ ks.consecutive_losses + 1)
        × ((record_trade pnl now ks).max_consecutive ≡ ks.max_consecutive)
        × ((record_trade pnl now ks).active
            ≡ (ks.active || leb ks.max_consecutive (ks.consecutive_losses + 1)))
  unfolding record_trade activate
  record_trade_loss pnl now ks h = ground arith

  -- Where the switch is active exactly if its losses in a row have reached the limit, it is so after further losing
  -- trades as well.
  pub losing_trades_trigger :
      (ts : List (F × F)) (ks : KillSwitch F)
      → All (λ t. fl.lt t.0 (whole 0) ≡ true) ts
      → leb ks.max_consecutive ks.consecutive_losses ≡ ks.active
      → (run (losing_trades ts) ks).active
        ≡ leb ks.max_consecutive (ks.consecutive_losses + length ts)
  unfolding run apply
  losing_trades_trigger [] ks l h = ground arith
  losing_trades_trigger ((pnl, now) ∷ ts) ks l h =
      let after = record_trade pnl now ks in
      ground (arith, record_trade_loss pnl now ks l.0, losing_trades_trigger ts after l.1)

  -- The event of a loss streak carries the equity 0, whatever the session's equity is, and so the
  -- full drawdown from the peak.
  pub record_trade_event :
      (pnl now : F) (ks : KillSwitch F)
      → ks.active ≡ false
      → (record_trade pnl now ks).active ≡ true
      → (e : KillEvent F) × ((record_trade pnl now ks).events ≡ ks.events ++ e ∷ [])
        × (e.equity_at_kill ≡ whole 0)
        × (e.drawdown_at_kill ≡ compute_drawdown (whole 0) ks)
  unfolding record_trade activate compute_drawdown
  record_trade_event pnl now ks idle hit = (
    record {
      timestamp = now;
      reason = consecutive_loss;
      message = consecutive_message (ks.consecutive_losses + 1);
      equity_at_kill = whole 0;
      drawdown_at_kill = compute_drawdown (whole 0) ks;
    },
    ground arith,
    refl,
    refl,
  )
