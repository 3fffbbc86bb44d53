-- ===== src/Research/Registry.antt =====
-- The experiment registry: src/trading_bot/research/registry.py. The two tables of its database are the fields of the
-- state: `experiments` by their primary key, `consumed_periods` in order of insertion. The SQL of each method is
-- translated with it. `J` is the type of the rules and parameters, `R` that of the results.
pub mod Freeze
pub mod Periods
mod Tests
use bot_crypto.Prelude.{
  ℕ, ◌+◌, String, Bool, true, false, not, ◌&&◌, ◌||◌, Option, none, some, List, [], ◌∷◌, ◌++◌, ltb,
  ◌==◌, str_eq, count, is_some, if◌then◌else◌,
}
use bot_crypto.Dict.{Dict, lookup, contains, insert}

pub data ExperimentStatus : Type 0 where
  preregistered running rejected candidate confirming confirmed invalidated : ExperimentStatus

-- The arguments of `preregister`, which the record keeps.
pub record Spec (J : Type 0) : Type 0 where
  pub experiment_id : String
  pub strategy_version : String
  pub hypothesis : String
  pub rules : J
  pub parameters : J
  pub dataset_start : ℕ
  pub dataset_end : ℕ
  pub code_hash : String
  pub config_hash : String
  pub data_hash : String
  pub parent_experiment : Option String

pub record ExperimentRecord (J R : Type 0) : Type 0 where
  pub spec : Spec J
  pub created_at : ℕ
  pub status : ExperimentStatus
  pub executed_at : Option ℕ
  pub results : Option R
  pub decision : String

pub record ConsumedPeriod : Type 0 where
  pub experiment_id : String
  pub symbol : String
  pub timeframe : String
  pub start_ts : ℕ
  pub end_ts : ℕ
  pub consumed_at : ℕ

pub record Registry (J R : Type 0) : Type 0 where
  pub experiments : Dict (ExperimentRecord J R)
  pub consumed_periods : List ConsumedPeriod

-- The messages of the ValueErrors.
pub data RegistryError : Type 0 where
  empty_id empty_code_hash already_exists not_found : RegistryError

pub data Result (A : Type 0) : Type 0 where
  ok : A → Result A
  err : RegistryError → Result A

-- The three hashes that an execution is checked by.
pub record Hashes : Type 0 where
  pub code_hash : String
  pub config_hash : String
  pub data_hash : String

-- The row's WHERE clause: a half-open overlap.
pub overlaps : String → String → ℕ → ℕ → ConsumedPeriod → Bool
overlaps symbol timeframe start_ts end_ts p =
    str_eq p.symbol symbol
    && str_eq p.timeframe timeframe
    && ltb p.start_ts end_ts
    && ltb start_ts p.end_ts

-- `executed_at or now`, an integer that is never null
abbrev or_now : Option ℕ → ℕ → ℕ
or_now none now = now
or_now (some t) now = if t == 0 then now else t

pub same_hashes : {J : Type 0} → Hashes → Spec J → Bool
same_hashes h s =
    str_eq s.code_hash h.code_hash
    && str_eq s.config_hash h.config_hash
    && str_eq s.data_hash h.data_hash

module _ {J R : Type 0} where
  abbrev pub create : Registry J R
  create = record { experiments = []; consumed_periods = [] }

  pub get : String → Registry J R → Option (ExperimentRecord J R)
  get id r = lookup id r.experiments

  -- The row that the INSERT makes, as `get` reads it back.
  abbrev pub new_record : Spec J → ℕ → ExperimentRecord J R
  new_record spec now = record {
    spec = spec;
    created_at = now;
    status = preregistered;
    executed_at = none;
    results = none;
    decision = "";
  }

  pub preregister : Spec J → ℕ → Registry J R → Registry J R × Result (ExperimentRecord J R)
  preregister spec now r =
      if str_eq spec.experiment_id ""
      then (r, err empty_id)
      else if str_eq spec.code_hash ""
      then (r, err empty_code_hash)
      else if is_some (get spec.experiment_id r)
      then (r, err already_exists)
      else (
        record r { experiments = insert spec.experiment_id (new_record spec now) r.experiments },
        ok (new_record spec now),
      )

  -- The row that the UPDATE leaves: without results their column becomes NULL.
  pub updated :
      ExperimentStatus
      → Option R
      → String
      → Option ℕ
      → ℕ
      → ExperimentRecord J R
      → ExperimentRecord J R
  updated status results decision executed_at now rec = record {
    spec = rec.spec;
    created_at = rec.created_at;
    status = status;
    executed_at = some (or_now executed_at now);
    results = results;
    decision = decision;
  }

  pub update_status :
      String
      → ExperimentStatus
      → Option R
      → String
      → Option ℕ
      → ℕ
      → Registry J R
      → Registry J R × Result (ExperimentRecord J R)
  update_status id status results decision executed_at now r = elim (get id r) [
    | none ↦ (r, err not_found)
    | some rec ↦
        let rec' = updated status results decision executed_at now rec in
        (record r { experiments = insert id rec' r.experiments }, ok rec')
  ]

  pub verify_hash : String → Hashes → ℕ → Registry J R → Registry J R × Bool
  verify_hash id h now r = elim (get id r) [
    | none ↦ (r, false)
    | some rec ↦
        if same_hashes h rec.spec
        then (r, true)
        else ((update_status id invalidated none "INVALIDATED_HASH_CHANGED" none now r).0, false)
  ]

  pub accept :
      String
      → R
      → String
      → ℕ
      → Registry J R × Bool
      → Registry J R × Result (Option (ExperimentRecord J R))
  accept id results decision now (r, false) = (r, ok (get id r))
  accept id results decision now (r, true) =
      let note = if str_eq decision "" then "executed_with_verified_hashes" else decision in
      let (r', out) = update_status id running (some results) note none now r in
      (r', elim out [ ok rec ↦ ok (some rec) | err e ↦ err e ])

  -- On a mismatch it returns `get`, which may be None.
  pub execute_and_verify :
      String
      → Hashes
      → R
      → String
      → ℕ
      → Registry J R
      → Registry J R × Result (Option (ExperimentRecord J R))
  unfolding accept
  execute_and_verify id h results decision now r =
      accept id results decision now (verify_hash id h now r)

  pub record_consumed_period : ConsumedPeriod → Registry J R → Registry J R
  record_consumed_period p r = record r { consumed_periods = r.consumed_periods ++ p ∷ [] }

  pub is_consumed : String → String → ℕ → ℕ → Registry J R → Bool
  is_consumed symbol timeframe start_ts end_ts r =
      ltb 0 (count (overlaps symbol timeframe start_ts end_ts) r.consumed_periods)

-- The calls that change the registry, each with its time.
pub data Call (J R : Type 0) : Type 0 where
  preregister_call : Spec J → ℕ → Call J R
  status_call : String → ExperimentStatus → Option R → String → Option ℕ → ℕ → Call J R
  verify_call : String → Hashes → ℕ → Call J R
  execute_call : String → Hashes → R → String → ℕ → Call J R
  consume_call : ConsumedPeriod → Call J R

module _ {J R : Type 0} where
  pub apply : Call J R → Registry J R → Registry J R
  apply (preregister_call spec now) r = (preregister spec now r).0
  apply (status_call id status results decision executed_at now) r =
      (update_status id status results decision executed_at now r).0
  apply (verify_call id h now) r = (verify_hash id h now r).0
  apply (execute_call id h results decision now) r =
      (execute_and_verify id h results decision now r).0
  apply (consume_call p) r = record_consumed_period p r

  pub run : List (Call J R) → Registry J R → Registry J R
  run [] r = r
  run (c ∷ cs) r = run cs (apply c r)
