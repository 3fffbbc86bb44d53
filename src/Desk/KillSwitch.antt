-- ===== src/Desk/KillSwitch.antt =====
-- The five-state kill switch: src/trading_bot/paper/kill_switch_v2.py over the enums and the table of
-- src/trading_bot/domain/enums/kill_switch.py. Times are numbers that the caller reads from the clock.
pub mod Laws
mod Tests
use bot_crypto.Prelude.{
  ℕ, String, Bool, true, false, not, ◌||◌, Option, none, some, List, [], ◌∷◌, ◌++◌, str_eq,
  if◌then◌else◌,
}

pub data KillSwitchState : Type 0 where
  normal no_new_risk protection_only read_only halted : KillSwitchState

pub data KillSwitchAction : Type 0 where
  user daily_loss policy_violation exchange_inconsistency : KillSwitchAction
  unknown_send data_corruption key_compromise manual : KillSwitchAction

-- `action.value`
action_value : KillSwitchAction → String
action_value user = "user"
action_value daily_loss = "daily_loss"
action_value policy_violation = "policy_violation"
action_value exchange_inconsistency = "exchange_inconsistency"
action_value unknown_send = "unknown_send"
action_value data_corruption = "data_corruption"
action_value key_compromise = "key_compromise"
action_value manual = "manual"

-- `KILL_SWITCH_ALLOWED_ACTIONS`
allowed_actions : KillSwitchState → List String
allowed_actions normal =
    "open_new_position" ∷ "modify_position" ∷ "close_position" ∷ "send_order" ∷ "cancel_order"
    ∷ "read_data" ∷ []
allowed_actions no_new_risk = "close_position" ∷ "cancel_order" ∷ "read_data" ∷ []
allowed_actions protection_only = "close_position" ∷ "read_data" ∷ []
allowed_actions read_only = "read_data" ∷ []
allowed_actions halted = []

abbrev member : String → List String → Bool
member a [] = false
member a (b ∷ l) = str_eq a b || member a l

pub is_action_allowed : KillSwitchState → String → Bool
unfolding allowed_actions
is_action_allowed state action = member action (allowed_actions state)

-- An entry of the history: the states before and after, the trigger and the time.
pub record Change : Type 0 where
  pub previous : KillSwitchState
  pub current : KillSwitchState
  pub action : KillSwitchAction
  pub at : ℕ

pub record KillSwitch : Type 0 where
  pub state : KillSwitchState
  pub history : List Change
  pub activated_at : Option ℕ
  pub activation_reason : Option String

abbrev pub initial : KillSwitch
initial = record { state = normal; history = []; activated_at = none; activation_reason = none }

pub escalate : KillSwitchState → KillSwitchState
escalate normal = no_new_risk
escalate no_new_risk = protection_only
escalate protection_only = read_only
escalate read_only = halted
escalate halted = halted

abbrev target_or : Option KillSwitchState → KillSwitchState → KillSwitchState
target_or (some target) s = target
target_or none s = escalate s

-- The clock is read twice, for `activated_at` and for the history.
pub activate : KillSwitchAction → Option KillSwitchState → String → ℕ → ℕ → KillSwitch → KillSwitch
unfolding action_value escalate
activate action target reason now later ks = record {
  state = target_or target ks.state;
  history =
      ks.history
      ++ record {
        previous = ks.state;
        current = target_or target ks.state;
        action = action;
        at = later;
      }
        ∷ [];
  activated_at = some now;
  activation_reason = some (if str_eq reason "" then action_value action else reason);
}

abbrev is_locked : KillSwitchState → Bool
is_locked read_only = true
is_locked halted = true
is_locked s = false

-- What `deactivate` and `reset` do to the object; they differ in the trigger that they log.
abbrev to_normal : KillSwitchAction → ℕ → KillSwitch → KillSwitch
to_normal action now ks = record {
  state = normal;
  history =
      ks.history
      ++ record { previous = ks.state; current = normal; action = action; at = now } ∷ [];
  activated_at = none;
  activation_reason = none;
}

pub deactivate : ℕ → KillSwitch → KillSwitch × Bool
deactivate now ks = if is_locked ks.state then (ks, false) else (to_normal user now ks, true)

pub reset : ℕ → KillSwitch → KillSwitch
reset now ks = to_normal manual now ks

pub is_active : KillSwitch → Bool
is_active ks = elim ks.state [ normal ↦ false | _ ↦ true ]

-- The calls that change the object.
pub data Call : Type 0 where
  activate_call : KillSwitchAction → Option KillSwitchState → String → ℕ → ℕ → Call
  deactivate_call : ℕ → Call
  reset_call : ℕ → Call

pub apply : Call → KillSwitch → KillSwitch
unfolding activate deactivate reset
apply (activate_call a t r now later) ks = activate a t r now later ks
apply (deactivate_call now) ks = (deactivate now ks).0
apply (reset_call now) ks = reset now ks

pub run : List Call → KillSwitch → KillSwitch
run [] ks = ks
run (c ∷ cs) ks = run cs (apply c ks)
