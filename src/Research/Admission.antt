-- ===== src/Research/Admission.antt =====
-- The admission of signals: src/trading_bot/research/admission.py. last_cooldown_ts, which nothing reads, and the texts are
-- left out. The RSI of a signal, of which the rank is made, is an argument.
pub mod Limits
mod Tests
use bot_crypto.Prelude.{
  ℕ, ◌+◌, ◌/◌, String, Bool, true, false, ◌&&◌, Option, none, some, List, [], ◌∷◌, ◌++◌, ltb, leb,
  length, count, is_some, if◌then◌else◌,
}
use bot_crypto.Float.{Float, whole, ◌+F◌, ◌-F◌, ◌*F◌, ◌/F◌, ◌<F◌, ◌≤F◌, fabs}
use bot_crypto.Dict.{Dict, insert, erase, values, contains}
use bot_crypto.Risk.Policy.{Risk}
use bot_crypto.Paper.Adapter.{AlphaSignal, Direction, long, short}

pub data BlockedReason : Type 0 where
  kill_switch daily_trade_limit max_open position_already_open max_direction daily_loss_limit
        cooldown :
      BlockedReason

pub record AdmissionState (F : Type 0) : Type 0 where
  pub open_positions : Dict Direction
  pub daily_pnl : F
  pub consecutive_losses : ℕ
  pub trades_today : ℕ
  pub kill_switch_active : Bool

pub record BlockedEvent : Type 0 where
  pub signal_family : String
  pub symbol : String
  pub timestamp : ℕ
  pub direction : Direction
  pub reason : BlockedReason

pub record AdmissionController (F : Type 0) : Type 0 where
  pub risk : Risk F
  pub equity : F
  pub state : AdmissionState F
  pub blocked_events : List BlockedEvent

pub data AdmissionResult (F : Type 0) : Type 0 where
  admitted : F → AdmissionResult F
  denied : BlockedEvent → AdmissionResult F

-- `d == signal.direction`
abbrev pub same_direction : Direction → Direction → Bool
same_direction long long = true
same_direction short short = true
same_direction a b = false

-- `max(1, self._risk.max_open_positions // 2)`
pub max_per_direction : ℕ → ℕ
max_per_direction n = if ltb 1 (n / 2) then n / 2 else 1

module _ {F : Type 0} ⦃fl : Float F⦄ where
  pub create : Risk F → F → AdmissionController F
  create risk equity = record {
    risk = risk;
    equity = equity;
    state = record {
      open_positions = [];
      daily_pnl = whole 0;
      consecutive_losses = 0;
      trades_today = 0;
      kill_switch_active = false;
    };
    blocked_events = [];
  }

  pub daily_loss_reached : AdmissionController F → Bool
  daily_loss_reached c =
      c.state.daily_pnl <F whole 0
      && c.risk.max_daily_loss_pct ≤F fabs c.state.daily_pnl /F c.equity *F whole 100

  -- The first gate of check_signal that does not let the signal pass.
  pub gate : AlphaSignal F → AdmissionController F → Option BlockedReason
  gate s c =
      if c.state.kill_switch_active
      then some kill_switch
      else if leb c.risk.max_trades_per_day c.state.trades_today
      then some daily_trade_limit
      else if leb c.risk.max_open_positions (length c.state.open_positions)
      then some max_open
      else if contains s.symbol c.state.open_positions
      then some position_already_open
      else if leb (max_per_direction c.risk.max_open_positions)
          (count (λ d. same_direction d s.direction) (values c.state.open_positions))
      then some max_direction
      else if daily_loss_reached c
      then some daily_loss_limit
      else if leb c.risk.max_consecutive_losses c.state.consecutive_losses
      then some cooldown
      else none

  -- `risk_price` of the signal: the distance of its stop
  pub risk_price : AlphaSignal F → F
  risk_price s = elim s.direction [
    | long ↦ fabs (s.entry_reference -F s.structural_stop)
    | short ↦ fabs (s.structural_stop -F s.entry_reference)
  ]

  -- `_compute_rank`
  pub compute_rank : AlphaSignal F → Option F → F
  compute_rank s rsi =
      let known : F = elim rsi [ none ↦ fl.decimal 1 2 | some x ↦ x ] in
      if risk_price s ≤F whole 0 then whole 0 else known

  event_of : AlphaSignal F → BlockedReason → BlockedEvent
  event_of s reason = record {
    signal_family = s.family;
    symbol = s.symbol;
    timestamp = s.timestamp;
    direction = s.direction;
    reason = reason;
  }

  -- `_block`
  pub block :
      AlphaSignal F
      → BlockedReason
      → AdmissionController F
      → AdmissionController F × AdmissionResult F
  unfolding event_of
  block s reason c = (
    record c { blocked_events = c.blocked_events ++ event_of s reason ∷ [] },
    denied (event_of s reason),
  )

  answer :
      AlphaSignal F
      → Option F
      → AdmissionController F
      → Option BlockedReason
      → AdmissionController F × AdmissionResult F
  unfolding block
  answer s rsi c none = (c, admitted (compute_rank s rsi))
  answer s rsi c (some reason) = block s reason c

  pub check_signal :
      AlphaSignal F → Option F → AdmissionController F → AdmissionController F × AdmissionResult F
  unfolding answer
  check_signal s rsi c = answer s rsi c (gate s c)

  pub record_open : String → Direction → AdmissionController F → AdmissionController F
  record_open symbol direction c = record c {
    state = record c.state {
      open_positions = insert symbol direction c.state.open_positions;
      trades_today = c.state.trades_today + 1;
    };
  }

  pub record_close : String → F → AdmissionController F → AdmissionController F
  record_close symbol pnl c = record c {
    state = record c.state {
      open_positions = erase symbol c.state.open_positions;
      daily_pnl = c.state.daily_pnl +F pnl;
      consecutive_losses = if pnl <F whole 0 then c.state.consecutive_losses + 1 else 0;
    };
  }

  pub activate_kill_switch : AdmissionController F → AdmissionController F
  activate_kill_switch c = record c { state = record c.state { kill_switch_active = true } }

  pub reset_daily : AdmissionController F → AdmissionController F
  reset_daily c = record c { state = record c.state { daily_pnl = whole 0; trades_today = 0 } }

-- What a client does: it offers a signal and opens it if it is admitted, closes, stops, or begins a day.
pub data Act (F : Type 0) : Type 0 where
  offer_act : AlphaSignal F → Option F → Act F
  close_act : String → F → Act F
  stop_act : Act F
  day_act : Act F

module _ {F : Type 0} ⦃fl : Float F⦄ where
  open_if : AlphaSignal F → AdmissionController F × AdmissionResult F → AdmissionController F
  unfolding record_open
  open_if s (c, admitted rank) = record_open s.symbol s.direction c
  open_if s (c, denied event) = c

  pub act : Act F → AdmissionController F → AdmissionController F
  unfolding open_if check_signal record_close activate_kill_switch reset_daily
  act (offer_act s rsi) c = open_if s (check_signal s rsi c)
  act (close_act symbol pnl) c = record_close symbol pnl c
  act stop_act c = activate_kill_switch c
  act day_act c = reset_daily c

  pub run : List (Act F) → AdmissionController F → AdmissionController F
  run [] c = c
  run (a ∷ acts) c = run acts (act a c)
