-- ===== src/Paper/Selector/Tests.antt =====
-- A selector on a directory with one strategy, and a strategy that was never validated.
use bot_crypto.Prelude.{String, ◌≡◌, refl, none, some, List, [], ◌∷◌}
use bot_crypto.Prelude.Int.{ℤ, pos}
use bot_crypto.Float.{whole}
use bot_crypto.Float.Fixed.{fixed}
use bot_crypto.Dict.{Dict}
use bot_crypto.Paper.Selector.{
  StrategyStatus, pending, ready, Identity, StrategyConfig, Saved, StrategySelector, Call,
  load_strategies, load_files, of_dict, register_strategy, store, to_dict, get_strategy, run,
  register, activate, deactivate, trade,
}
use bot_crypto.Paper.Selector.Restart.{forget, load-run}
use bot_crypto.Paper.Selector.Lifecycle.{Follows, run-Follows}

abbrev identity : String → Identity ℤ
identity id = record {
  strategy_id = id;
  name = "EMA";
  version = "1";
  source_experiment_id = "exp";
  symbols = "BTC/USDT" ∷ [];
  timeframe = "5m";
  risk_per_trade_pct = pos 25;
  max_exposure_pct = pos 2500;
  max_positions = 1;
  created_at = whole 10;
  confirmed_at = none;
}

abbrev config : String → StrategyStatus → StrategyConfig ℤ String
config id status = record {
  identity = identity id;
  status = status;
  entry_rules = "cross up";
  exit_rules = "cross down";
  last_trade_at = none;
  total_trades = 0;
  total_pnl = whole 0;
}

abbrev files : Dict (Saved ℤ)
files =
    (
      "ema",
      record { identity = identity "ema"; status = ready; total_trades = 3; total_pnl = whole 5 },
    )
    ∷ []

abbrev calls : List (Call ℤ String)
calls =
    register (config "new" pending)
    ∷ activate "ema"
    ∷ trade "ema" (whole 2) (whole 99)
    ∷ deactivate "new"
    ∷ []

load-run_example :
    let s = run calls (load_strategies "" files) in
    get_strategy "ema" (load_strategies "" s.files) ≡ forget "" (get_strategy "ema" s)
load-run_example = load-run "" files calls "ema" (refl, tt) (refl, tt)

abbrev registered : StrategySelector ℤ String
registered = register_strategy (config "new" pending) (load_strategies "" files)

is_registered : get_strategy "new" registered ≡ some (config "new" pending)
unfolding get_strategy register_strategy load_strategies load_files of_dict store to_dict
is_registered = refl

run-Follows_example :
    Follows "new"
      (activate "ema" ∷ activate "new" ∷ deactivate "new" ∷ activate "new" ∷ [])
      (config "new" pending)
      (run (activate "ema" ∷ activate "new" ∷ deactivate "new" ∷ activate "new" ∷ []) registered)
run-Follows_example =
    run-Follows (activate "ema" ∷ activate "new" ∷ deactivate "new" ∷ activate "new" ∷ []) "new"
      (config "new" pending) registered is_registered (tt, (tt, (tt, (tt, tt))))
