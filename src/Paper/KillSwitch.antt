-- ===== src/Paper/KillSwitch.antt =====
-- The session's kill switch: src/trading_bot/paper/kill_switch.py. A message is kept as the parts
-- that the source formats; the clock's reading is an argument.
pub mod Laws
mod Tests
use bot_crypto.Prelude.{
  ℕ, suc, ◌+◌, String, Bool, true, false, Option, none, some, List, [], ◌∷◌, ◌++◌, leb,
  if◌then◌else◌,
}
use bot_crypto.Float.{Float, whole, ◌-F◌, ◌/F◌, ◌<F◌, ◌≤F◌}

pub data KillReason : Type 0 where
  manual drawdown daily_loss consecutive_loss system_error config_change : KillReason

pub data Message (F : Type 0) : Type 0 where
  text : String → Message F
  drawdown_message : F → F → Message F
  daily_loss_message : F → F → Message F
  consecutive_message : ℕ → Message F

pub record KillEvent (F : Type 0) : Type 0 where
  pub timestamp : F
  pub reason : KillReason
  pub message : Message F
  pub equity_at_kill : F
  pub drawdown_at_kill : F

pub record KillSwitch (F : Type 0) : Type 0 where
  pub max_drawdown : F
  pub max_daily_loss : F
  pub max_consecutive : ℕ
  pub active : Bool
  pub triggered_at : Option F
  pub trigger_reason : Option KillReason
  pub trigger_message : Message F
  pub peak_equity : F
  pub daily_start_equity : F
  pub consecutive_losses : ℕ
  pub events : List (KillEvent F)

module _ {F : Type 0} ⦃fl : Float F⦄ where
  -- `KillSwitch(max_drawdown_pct, max_daily_loss_pct, max_consecutive_losses)`
  abbrev pub create : F → F → ℕ → KillSwitch F
  create max_drawdown max_daily_loss max_consecutive = record {
    max_drawdown = max_drawdown;
    max_daily_loss = max_daily_loss;
    max_consecutive = max_consecutive;
    active = false;
    triggered_at = none;
    trigger_reason = none;
    trigger_message = text "";
    peak_equity = whole 0;
    daily_start_equity = whole 0;
    consecutive_losses = 0;
    events = [];
  }

  pub compute_drawdown : F → KillSwitch F → F
  compute_drawdown equity ks =
      if ks.peak_equity ≤F whole 0 then whole 0 else (ks.peak_equity -F equity) /F ks.peak_equity

  pub activate : KillReason → Message F → F → F → KillSwitch F → KillSwitch F
  activate reason message equity now ks = if ks.active then ks else record ks {
    active = true;
    triggered_at = some now;
    trigger_reason = some reason;
    trigger_message = message;
    events =
        ks.events
        ++ record {
          timestamp = now;
          reason = reason;
          message = message;
          equity_at_kill = equity;
          drawdown_at_kill = compute_drawdown equity ks;
        }
          ∷ [];
  }

  pub deactivate : KillSwitch F → KillSwitch F
  deactivate ks =
      if ks.active
      then record ks {
        active = false;
        triggered_at = none;
        trigger_reason = none;
        trigger_message = text "";
      }
      else ks

  -- `if equity > self._peak_equity: self._peak_equity = equity`
  pub raise_peak : F → KillSwitch F → KillSwitch F
  raise_peak equity ks = if ks.peak_equity <F equity then record ks { peak_equity = equity } else ks

  pub daily_loss_of : F → KillSwitch F → F
  daily_loss_of equity ks = (ks.daily_start_equity -F equity) /F ks.daily_start_equity

  -- The second half of `check`, on the daily loss.
  pub check_daily_loss : F → F → KillSwitch F → KillSwitch F × Bool
  check_daily_loss equity now ks =
      let loss = daily_loss_of equity ks in
      if whole 0 <F ks.daily_start_equity
      then (if ks.max_daily_loss ≤F loss
          then (activate daily_loss (daily_loss_message loss ks.max_daily_loss) equity now ks, true)
          else (ks, false))
      else (ks, false)

  -- `check` after the peak has been brought up to date.
  pub check_limits : F → F → KillSwitch F → KillSwitch F × Bool
  unfolding check_daily_loss
  check_limits equity now ks =
      let fall = compute_drawdown equity ks in
      if ks.max_drawdown ≤F fall
      then (activate drawdown (drawdown_message fall ks.max_drawdown) equity now ks, true)
      else check_daily_loss equity now ks

  pub check : F → F → KillSwitch F → KillSwitch F × Bool
  unfolding check_limits raise_peak
  check equity now ks =
      if ks.active then (ks, true) else check_limits equity now (raise_peak equity ks)

  -- The activation that `record_trade` makes has the default equity, 0.
  pub record_trade : F → F → KillSwitch F → KillSwitch F
  record_trade pnl now ks =
      let losses = ks.consecutive_losses + 1 in
      let counted = record ks { consecutive_losses = losses } in
      if pnl <F whole 0
      then (if leb ks.max_consecutive losses
          then activate consecutive_loss (consecutive_message losses) (whole 0) now counted
          else counted)
      else record ks { consecutive_losses = 0 }

  pub reset_daily : F → KillSwitch F → KillSwitch F
  reset_daily equity ks = record ks { daily_start_equity = equity; consecutive_losses = 0 }

-- The calls that change the object.
pub data Call (F : Type 0) : Type 0 where
  activate_call : KillReason → Message F → F → F → Call F
  deactivate_call : Call F
  check_call : F → F → Call F
  record_trade_call : F → F → Call F
  reset_daily_call : F → Call F

module _ {F : Type 0} ⦃fl : Float F⦄ where
  pub apply : Call F → KillSwitch F → KillSwitch F
  apply (activate_call r m e now) ks = activate r m e now ks
  apply deactivate_call ks = deactivate ks
  apply (check_call e now) ks = (check e now ks).0
  apply (record_trade_call p now) ks = record_trade p now ks
  apply (reset_daily_call e) ks = reset_daily e ks

  pub run : List (Call F) → KillSwitch F → KillSwitch F
  run [] ks = ks
  run (c ∷ cs) ks = run cs (apply c ks)
