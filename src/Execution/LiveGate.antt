-- ===== src/Execution/LiveGate.antt =====
-- The live-trading gate: src/trading_bot/execution/live_gate.py. The messages of the results are left
-- out; a check that raises is `none`. The operating system and Python's operations on texts are the
-- record `Host`.
pub mod Verdict
mod Tests
use bot_crypto.Prelude.{
  ℕ, ◌-◌, String, Bool, true, false, not, ◌&&◌, ◌||◌, Option, none, some, List, [], ◌∷◌, ◌++◌, leb,
  str_eq, if◌then◌else◌, length, filter, count, is_empty,
}
use bot_crypto.Float.{Float, whole, ◌<F◌, ◌≤F◌}
use bot_crypto.Risk.Policy.{Risk}

pub data TradingMode : Type 0 where
  research backtest paper shadow_live live : TradingMode

pub data Severity : Type 0 where
  critical high medium : Severity

pub record GateResult : Type 0 where
  pub gate_id : String
  pub name : String
  pub passed : Bool
  pub severity : Severity
  pub details : List String

pub record GateReport : Type 0 where
  pub all_passed : Bool
  pub total_gates : ℕ
  pub passed_gates : ℕ
  pub failed_gates : ℕ
  pub critical_failures : List GateResult
  pub results : List GateResult

-- The settings that the gate reads.
pub record Settings (F : Type 0) : Type 0 where
  pub mode : TradingMode
  pub live_trading_enabled : Bool
  pub exchange_id : String
  pub database_url : String
  pub sandbox : Bool
  pub risk : Risk F

-- `file_exists`, `parent_exists` and `read_text` are none where the operating system raises, as it does for a path that
-- may not be searched; `sqlite_path` is the URL without "sqlite:///"; `contains t s`
-- is Python's `t in s`.
pub record Host : Type 0 where
  pub environ : String → Option String
  pub file_exists : String → Option Bool
  pub read_text : String → Option String
  pub parent_exists : String → Option Bool
  pub contains : String → String → Bool
  pub sqlite_path : String → String

abbrev is_live : TradingMode → Bool
is_live live = true
is_live m = false

abbrev may_trade_live : TradingMode → Bool
may_trade_live live = true
may_trade_live shadow_live = true
may_trade_live m = false

abbrev result : String → String → Bool → Severity → List String → GateResult
result gate_id name passed severity details = record {
  gate_id = gate_id;
  name = name;
  passed = passed;
  severity = severity;
  details = details;
}

-- `[text]` if the condition holds, as `issues.append` under an `if`
abbrev note_if : Bool → String → List String
note_if c text = if c then text ∷ [] else []

-- `not os.environ.get(var)`
pub unset : Host → String → Bool
unset h var = elim (h.environ var) [ none ↦ true | some v ↦ str_eq v "" ]

pub missing_vars : Host → List String
missing_vars h =
    note_if (unset h "EXCHANGE_API_KEY") "EXCHANGE_API_KEY"
    ++ note_if (unset h "EXCHANGE_API_SECRET") "EXCHANGE_API_SECRET"

pub check_api_keys : Host → GateResult
unfolding missing_vars
check_api_keys h =
    if is_empty (missing_vars h)
    then result "GATE-004" "API Keys" true critical []
    else result "GATE-004" "API Keys" false critical (missing_vars h)

-- Whether the text of .gitignore leaves .env out, if there is such a text.
pub gitignore_lacks : Host → Bool → Option Bool
gitignore_lacks h false = some false
gitignore_lacks h true = elim (h.read_text ".gitignore") [
  | none ↦ none
  | some content ↦ some (not (h.contains ".env" content))
]

-- The look at .gitignore, where there is a .env.
pub gitignore_covers_not : Host → Bool → Option Bool
unfolding gitignore_lacks
gitignore_covers_not h false = some false
gitignore_covers_not h true = elim (h.file_exists ".gitignore") [
  | none ↦ none
  | some b ↦ gitignore_lacks h b
]

-- Whether .env is missing from an existing .gitignore; none where the file system raises.
pub env_uncovered : Host → Option Bool
unfolding gitignore_covers_not
env_uncovered h = elim (h.file_exists ".env") [ none ↦ none | some b ↦ gitignore_covers_not h b ]

pub security_result : Bool → Bool → GateResult
security_result uncovered risk_live =
    let issues =
      note_if uncovered ".env exists but not in .gitignore"
      ++ note_if risk_live "risk.live_trading_enabled=True" in
    if is_empty issues
    then result "GATE-008" "Security" true high []
    else result "GATE-008" "Security" false high issues

module _ {F : Type 0} where
  pub check_mode_configuration : Settings F → GateResult
  check_mode_configuration s =
      if is_live s.mode && not s.live_trading_enabled
      then result "GATE-001" "Mode Configuration" false critical []
      else if s.live_trading_enabled && not (may_trade_live s.mode)
      then result "GATE-001" "Mode Configuration" false critical []
      else result "GATE-001" "Mode Configuration" true critical []

  pub check_kill_switch : Settings F → GateResult
  check_kill_switch s =
      if not s.risk.kill_switch_enabled
      then result "GATE-002" "Kill Switch" false critical []
      else result "GATE-002" "Kill Switch" true critical []

  pub check_sandbox_setting : Settings F → GateResult
  check_sandbox_setting s =
      if is_live s.mode && s.sandbox
      then result "GATE-005" "Sandbox Setting" false critical []
      else result "GATE-005" "Sandbox Setting" true high []

  -- The directory of the SQLite file exists, or the database is not SQLite or lies in memory; none where the file system
  -- raises.
  pub database_reachable : Settings F → Host → Option Bool
  database_reachable s h =
      if not (h.contains "sqlite" s.database_url)
        || str_eq (h.sqlite_path s.database_url) ":memory:"
      then some true
      else h.parent_exists (h.sqlite_path s.database_url)

  pub check_database : Settings F → Host → Option GateResult
  check_database s h = elim (database_reachable s h) [
    | none ↦ none
    | some reachable ↦ some (result "GATE-006" "Database" reachable high [])
  ]

  pub check_exchange_config : Settings F → GateResult
  check_exchange_config s =
      if str_eq s.exchange_id ""
      then result "GATE-007" "Exchange Config" false critical []
      else result "GATE-007" "Exchange Config" true critical []

  pub check_security : Settings F → Host → Option GateResult
  check_security s h = elim (env_uncovered h) [
    | none ↦ none
    | some uncovered ↦ some (security_result uncovered s.risk.live_trading_enabled)
  ]

  pub check_logging : Settings F → GateResult
  check_logging s = result "GATE-009" "Logging" true medium []

  pub policy_issues : ⦃fl : Float F⦄ → Risk F → List String
  policy_issues r =
      note_if (r.max_risk_per_trade_pct ≤F whole 0) "max_risk_per_trade_pct <= 0"
      ++ note_if (r.max_daily_loss_pct ≤F whole 0) "max_daily_loss_pct <= 0"
      ++ note_if (r.max_total_drawdown_pct ≤F whole 0) "max_total_drawdown_pct <= 0"
      ++ note_if (leb r.max_open_positions 0) "max_open_positions <= 0"
      ++ note_if (leb r.max_trades_per_day 0) "max_trades_per_day <= 0"

  pub check_risk_policy : ⦃fl : Float F⦄ → Settings F → GateResult
  check_risk_policy s =
      if is_empty (policy_issues s.risk)
      then result "GATE-003" "Risk Policy" true critical []
      else result "GATE-003" "Risk Policy" false critical (policy_issues s.risk)

  pub limit_warnings : ⦃fl : Float F⦄ → Risk F → List String
  limit_warnings r =
      note_if (whole 2 <F r.max_risk_per_trade_pct) "max_risk_per_trade_pct"
      ++ note_if (whole 5 <F r.max_daily_loss_pct) "max_daily_loss_pct"
      ++ note_if (whole 20 <F r.max_total_drawdown_pct) "max_total_drawdown_pct"

  pub check_risk_limits : ⦃fl : Float F⦄ → Settings F → GateResult
  check_risk_limits s =
      result "GATE-010" "Risk Limits" true
        (if is_empty (limit_warnings s.risk) then medium else high) (limit_warnings s.risk)

-- The `except` of the loop over the checks.
or_error : String → Option GateResult → GateResult
or_error name none = result "ERROR" name false critical []
or_error name (some r) = r

abbrev is_critical : Severity → Bool
is_critical critical = true
is_critical s = false

pub is_critical_failure : GateResult → Bool
is_critical_failure r = not r.passed && is_critical r.severity

abbrev pub has_passed : GateResult → Bool
has_passed r = r.passed

pub report_of : List GateResult → GateReport
unfolding is_critical_failure
report_of results = record {
  all_passed = is_empty (filter is_critical_failure results);
  total_gates = length results;
  passed_gates = count has_passed results;
  failed_gates = length results - count has_passed results;
  critical_failures = filter is_critical_failure results;
  results = results;
}

module _ {F : Type 0} ⦃fl : Float F⦄ where
  pub run_checks : Settings F → Host → List GateResult
  unfolding or_error
  run_checks s h =
      check_mode_configuration s
      ∷ check_kill_switch s
      ∷ check_risk_policy s
      ∷ check_api_keys h
      ∷ check_sandbox_setting s
      ∷ or_error "_check_database" (check_database s h)
      ∷ check_exchange_config s
      ∷ or_error "_check_security" (check_security s h)
      ∷ check_logging s
      ∷ check_risk_limits s
      ∷ []

  pub validate : Settings F → Host → GateReport
  validate s h = report_of (run_checks s h)
