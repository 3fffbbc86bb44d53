-- ===== src/Execution/LiveGate/Verdict.antt =====
-- When the gate opens, and what its verdict does not depend on.
use bot_crypto.Prelude.{
  ◌+◌, ◌≤◌, String, ◌≡◌, refl, false, not, ◌&&◌, some, true, List, [], ◌∷◌, arith, length, count,
  filter, is_empty, is_some, str_eq, count-le-length,
}
use bot_crypto.Float.{Float}
use bot_crypto.Execution.LiveGate.{
  Settings, Host, GateResult, validate, run_checks, report_of, is_critical_failure, has_passed,
  check_mode_configuration, check_kill_switch, check_risk_policy, check_api_keys,
  check_sandbox_setting, check_database, check_exchange_config, check_security, check_logging,
  check_risk_limits, policy_issues, missing_vars, env_uncovered, security_result, is_live,
  may_trade_live, database_reachable,
}

count-critical_failures :
    (rs : List GateResult)
    → count has_passed rs + length (filter is_critical_failure rs) ≤ length rs
unfolding is_critical_failure
count-critical_failures [] = ground arith
count-critical_failures (r ∷ rs) = ground (arith, count-critical_failures rs)

module _ {F : Type 0} ⦃fl : Float F⦄ where
  -- The report's all_passed, which the code computes from the critical failures alone, is true exactly if the live mode and
  -- the live flag agree, the kill switch is enabled, the risk policy has no issue, no key of the exchange is missing, live
  -- mode is not in the sandbox, the exchange is named, and the file system raises in neither the check of the
  -- database nor that of .env and .gitignore. So it does not say that all gates passed: whether the database is
  -- reachable, .gitignore covers .env or the risk policy itself is flagged live does not matter.
  pub validate-all_passed :
      (s : Settings F) (h : Host)
      → (validate s h).all_passed ≡ (
          not (is_live s.mode && not s.live_trading_enabled)
          && not (s.live_trading_enabled && not (may_trade_live s.mode))
          && s.risk.kill_switch_enabled
          && is_empty (policy_issues s.risk)
          && is_empty (missing_vars h)
          && not (is_live s.mode && s.sandbox)
          && not (str_eq s.exchange_id "")
          && is_some (database_reachable s h)
          && is_some (env_uncovered h))
  unfolding validate run_checks report_of check_mode_configuration check_kill_switch
      check_risk_policy check_api_keys check_sandbox_setting check_database check_exchange_config
      check_security check_logging check_risk_limits security_result
  validate-all_passed s h = ground arith

  -- The report counts ten results, each as passed or as failed, and its critical failures are no more than its
  -- failures.
  pub validate-counts :
      (s : Settings F) (h : Host)
      → let report = validate s h in
        (report.total_gates ≡ 10)
        × (report.passed_gates + report.failed_gates ≡ 10)
        × (length report.critical_failures ≤ report.failed_gates)
  unfolding validate report_of run_checks
  validate-counts s h = (
    refl,
    omega (arith, count-le-length {0} has_passed (run_checks s h)),
    omega (arith, count-critical_failures (run_checks s h)),
  )

  -- A database whose directory is missing fails its gate, and the report's verdict is the one that it would be with any
  -- other database whose check does not raise.
  pub unreachable_database_passes :
      (s : Settings F) (h : Host) (other : String)
      → database_reachable s h ≡ some false
      → is_some (database_reachable (record s { database_url = other }) h) ≡ true
      → (validate s h).all_passed ≡ (validate (record s { database_url = other }) h).all_passed
  unreachable_database_passes s h other e k = ground (
    arith,
    validate-all_passed s h,
    validate-all_passed (record s { database_url = other }) h,
    e,
    k,
  )
