-- ===== src/Paper/Selector.antt =====
-- The strategies of a paper session: src/trading_bot/paper/strategy_selector.py. The files of the directory are a
-- dictionary from a strategy's id to what `to_dict` writes, as each file is named after its id. `J` is the type of
-- the rules. A time that the source reads from the clock is an argument.
pub mod Steps
pub mod Lifecycle
pub mod Restart
mod Tests
use bot_crypto.Prelude.{
  ℕ, ◌+◌, String, Bool, true, false, ◌||◌, Option, none, some, List, [], ◌∷◌, filter, if◌then◌else◌,
}
use bot_crypto.Float.{Float, whole, ◌+F◌}
use bot_crypto.Dict.{Dict, lookup, insert, values}

pub data StrategyStatus : Type 0 where
  pending ready active suspended deprecated : StrategyStatus

-- The fields that never change once a strategy is registered, and are written to disk.
pub record Identity (F : Type 0) : Type 0 where
  pub strategy_id : String
  pub name : String
  pub version : String
  pub source_experiment_id : String
  pub symbols : List String
  pub timeframe : String
  pub risk_per_trade_pct : F
  pub max_exposure_pct : F
  pub max_positions : ℕ
  pub created_at : F
  pub confirmed_at : Option F

pub record StrategyConfig (F J : Type 0) : Type 0 where
  pub identity : Identity F
  pub status : StrategyStatus
  pub entry_rules : J
  pub exit_rules : J
  pub last_trade_at : Option F
  pub total_trades : ℕ
  pub total_pnl : F

-- What `to_dict` writes.
pub record Saved (F : Type 0) : Type 0 where
  pub identity : Identity F
  pub status : StrategyStatus
  pub total_trades : ℕ
  pub total_pnl : F

pub record StrategySelector (F J : Type 0) : Type 0 where
  pub strategies : Dict (StrategyConfig F J)
  pub files : Dict (Saved F)

abbrev pub may_activate : StrategyStatus → Bool
may_activate ready = true
may_activate suspended = true
may_activate _ = false

abbrev pub is_active : StrategyStatus → Bool
is_active active = true
is_active _ = false

module _ {F J : Type 0} where
  pub to_dict : StrategyConfig F J → Saved F
  to_dict c = record {
    identity = c.identity;
    status = c.status;
    total_trades = c.total_trades;
    total_pnl = c.total_pnl;
  }

  -- `StrategyConfig(**data)`: what the file lacks has its default, `no_rules` for the empty dictionary.
  pub of_dict : J → Saved F → StrategyConfig F J
  of_dict no_rules d = record {
    identity = d.identity;
    status = d.status;
    entry_rules = no_rules;
    exit_rules = no_rules;
    last_trade_at = none;
    total_trades = d.total_trades;
    total_pnl = d.total_pnl;
  }

  -- The assignment to the dictionary, with `_save_strategy`.
  pub store : String → StrategyConfig F J → StrategySelector F J → StrategySelector F J
  store id c s = record {
    strategies = insert id c s.strategies;
    files = insert c.identity.strategy_id (to_dict c) s.files;
  }

  pub load_files : J → Dict (Saved F) → Dict (StrategyConfig F J) → Dict (StrategyConfig F J)
  load_files no_rules [] d = d
  load_files no_rules ((key, saved) ∷ files) d =
      load_files no_rules files (insert saved.identity.strategy_id (of_dict no_rules saved) d)

  -- A selector on a directory: `__init__` with `_load_strategies`, which meets the files in the order of the list.
  pub load_strategies : J → Dict (Saved F) → StrategySelector F J
  load_strategies no_rules files = record {
    strategies = load_files no_rules files [];
    files = files;
  }

  pub register_strategy : StrategyConfig F J → StrategySelector F J → StrategySelector F J
  register_strategy c s = store c.identity.strategy_id c s

  -- The copy drops `last_trade_at`.
  pub with_status : StrategyStatus → StrategyConfig F J → StrategyConfig F J
  with_status status c = record c { status = status; last_trade_at = none }

  pub activate_strategy : String → StrategySelector F J → StrategySelector F J × Bool
  activate_strategy id s = elim (lookup id s.strategies) [
    | none ↦ (s, false)
    | some c ↦
        if may_activate c.status then (store id (with_status active c) s, true) else (s, false)
  ]

  pub deactivate_strategy : String → StrategySelector F J → StrategySelector F J × Bool
  deactivate_strategy id s = elim (lookup id s.strategies) [
    | none ↦ (s, false)
    | some c ↦ (store id (with_status suspended c) s, true)
  ]

  pub get_active_strategies : StrategySelector F J → List (StrategyConfig F J)
  get_active_strategies s = filter (λ c. is_active c.status) (values s.strategies)

  pub get_strategy : String → StrategySelector F J → Option (StrategyConfig F J)
  get_strategy id s = lookup id s.strategies

module _ {F J : Type 0} ⦃fl : Float F⦄ where
  abbrev pub with_trade : F → F → StrategyConfig F J → StrategyConfig F J
  with_trade pnl now c = record c {
    last_trade_at = some now;
    total_trades = c.total_trades + 1;
    total_pnl = c.total_pnl +F pnl;
  }

  pub update_trade_stats : String → F → F → StrategySelector F J → StrategySelector F J
  update_trade_stats id pnl now s = elim (lookup id s.strategies) [
    | none ↦ s
    | some c ↦ store id (with_trade pnl now c) s
  ]

-- The calls that change the selector.
pub data Call (F J : Type 0) : Type 0 where
  register : StrategyConfig F J → Call F J
  activate : String → Call F J
  deactivate : String → Call F J
  trade : String → F → F → Call F J

module _ {F J : Type 0} ⦃fl : Float F⦄ where
  pub apply : Call F J → StrategySelector F J → StrategySelector F J
  apply (register c) s = register_strategy c s
  apply (activate id) s = (activate_strategy id s).0
  apply (deactivate id) s = (deactivate_strategy id s).0
  apply (trade id pnl now) s = update_trade_stats id pnl now s

  pub run : List (Call F J) → StrategySelector F J → StrategySelector F J
  run [] s = s
  run (c ∷ cs) s = run cs (apply c s)
