-- ===== src/Research/Registry/Tests.antt =====
-- The registry on one experiment.
use bot_crypto.Prelude.{ℕ, String, ◌≡◌, refl, none, some, List, [], ◌∷◌}
use bot_crypto.Research.Registry.{
  invalidated, Spec, ExperimentRecord, Registry, Hashes, create, new_record, get, Call,
  preregister_call, execute_call, consume_call, run, apply, preregister,
}
use bot_crypto.Research.Registry.Freeze.{Keeps, run-Keeps}

-- The rules are numbers here, and the results texts.
abbrev spec : Spec ℕ
spec = record {
  experiment_id = "E1";
  strategy_version = "v1";
  hypothesis = "momentum persists";
  rules = 1;
  parameters = 2;
  dataset_start = 0;
  dataset_end = 1000;
  code_hash = "c";
  config_hash = "f";
  data_hash = "d";
  parent_experiment = none;
}

abbrev own : Hashes
own = record { code_hash = "c"; config_hash = "f"; data_hash = "d" }

abbrev other : Hashes
other = record { code_hash = "c2"; config_hash = "f"; data_hash = "d" }

abbrev registered : Registry ℕ String
registered = record { experiments = ("E1", new_record spec 5) ∷ []; consumed_periods = [] }

abbrev calls : List (Call ℕ String)
calls =
    execute_call "E1" other "bad" "" 6
    ∷ preregister_call spec 7
    ∷ consume_call (record {
      experiment_id = "E1";
      symbol = "BTC/USDT";
      timeframe = "5m";
      start_ts = 100;
      end_ts = 200;
      consumed_at = 8;
    })
    ∷ []

registered_by_call : run (preregister_call spec 5 ∷ []) create ≡ registered
unfolding run apply preregister get
registered_by_call = refl

run-Keeps_example : Keeps "E1" (new_record spec 5) (run calls registered)
unfolding get
run-Keeps_example =
    run-Keeps calls "E1" (new_record spec 5) registered (new_record spec 5, refl, refl, refl)

abbrev invalid : ExperimentRecord ℕ String
invalid = record {
  spec = spec;
  created_at = 5;
  status = invalidated;
  executed_at = some 6;
  results = none;
  decision = "";
}

abbrev invalid_registry : Registry ℕ String
invalid_registry = record { experiments = ("E1", invalid) ∷ []; consumed_periods = [] }
