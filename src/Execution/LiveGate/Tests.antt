-- ===== src/Execution/LiveGate/Tests.antt =====
-- The gate on a concrete configuration.
use bot_crypto.Prelude.{◌≡◌, refl, true, false, not, ◌&&◌, none, some, is_empty, is_some, str_eq}
use bot_crypto.Prelude.Int.{ℤ}
use bot_crypto.Float.{whole}
use bot_crypto.Float.Fixed.{fixed}
use bot_crypto.Risk.Policy.{Risk}
use bot_crypto.Execution.LiveGate.{
  Settings, Host, live, validate, run_checks, report_of, is_live, may_trade_live, missing_vars,
  env_uncovered, policy_issues, database_reachable, check_database, check_mode_configuration,
  check_kill_switch, check_risk_policy, check_api_keys, check_sandbox_setting,
  check_exchange_config, check_security, check_logging, check_risk_limits, security_result, unset,
  limit_warnings, gitignore_lacks, gitignore_covers_not,
}
use bot_crypto.Execution.LiveGate.Verdict.{validate-all_passed}

abbrev policy : Risk ℤ
policy = record {
  max_risk_per_trade_pct = whole 1;
  max_daily_loss_pct = whole 3;
  max_weekly_loss_pct = whole 6;
  max_daily_drawdown_pct = whole 5;
  max_total_drawdown_pct = whole 10;
  max_open_positions = 3;
  max_trades_per_day = 20;
  max_consecutive_losses = 3;
  consecutive_loss_cooldown_minutes = 60;
  max_asset_exposure_pct = whole 20;
  max_total_exposure_pct = whole 50;
  min_order_notional_usdt = whole 10;
  max_order_notional_usdt = whole 1000;
  default_stop_loss_pct = whole 1;
  default_take_profit_pct = whole 2;
  kill_switch_enabled = true;
  live_trading_enabled = true;
}

abbrev settings : Settings ℤ
settings = record {
  mode = live;
  live_trading_enabled = true;
  exchange_id = "binance";
  database_url = "sqlite:///gone/bot.db";
  sandbox = false;
  risk = policy;
}

-- The keys are set, and the directory of the database is missing.
abbrev host : Host
host = record {
  environ = λ var. some "secret";
  file_exists = λ path. some false;
  read_text = λ path. none;
  parent_exists = λ path. some false;
  contains = λ t s. true;
  sqlite_path = λ url. "gone/bot.db";
}

-- Two gates fail, and the report passes.
two_failed_gates :
    ((validate settings host).all_passed ≡ true) × ((validate settings host).failed_gates ≡ 2)
unfolding validate run_checks report_of check_mode_configuration check_kill_switch check_risk_policy
    check_api_keys check_sandbox_setting check_database check_exchange_config check_security
    check_logging check_risk_limits security_result policy_issues missing_vars gitignore_lacks
    gitignore_covers_not unset env_uncovered database_reachable limit_warnings
two_failed_gates = (refl, refl)

validate-all_passed_example : (validate settings host).all_passed ≡ (
    not (is_live settings.mode && not settings.live_trading_enabled)
    && not (settings.live_trading_enabled && not (may_trade_live settings.mode))
    && settings.risk.kill_switch_enabled
    && is_empty (policy_issues settings.risk)
    && is_empty (missing_vars host)
    && not (is_live settings.mode && settings.sandbox)
    && not (str_eq settings.exchange_id "")
    && is_some (database_reachable settings host)
    && is_some (env_uncovered host))
validate-all_passed_example = validate-all_passed settings host
