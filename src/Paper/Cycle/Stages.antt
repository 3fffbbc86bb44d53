-- ===== src/Paper/Cycle/Stages.antt =====
-- The counters of a cycle, its rejections, and what it is given.
use bot_crypto.Prelude.{ℕ, String, Option, List, [], ◌∷◌, ◌++◌}
use bot_crypto.Dict.{Dict}
use bot_crypto.Market.Candles.{Ohlcv}
use bot_crypto.Research.Router.{AssetContext, Entry, RouterGates, NoTradeReason}
use bot_crypto.Risk.Manager.{Block}
use bot_crypto.Paper.Adapter.{AlphaSignal}

-- The reason of a rejection; the stage stands first in its name where the source gives the stage.
pub data Reason : Type 0 where
  context_error : Reason
  router_no_trade : Option NoTradeReason → Reason
  strategy_family_not_found : Option String → Reason
  strategy_error : Reason
  strategy_no_alpha : Option String → Reason
  risk_candidate_without_alpha : Reason
  idempotency_duplicate : String → Reason
  adapter_error : Reason
  risk_rejected : Block → Reason
  broker_no_fill : Reason

pub record Rejection : Type 0 where
  pub symbol : String
  pub reason : Reason

pub record CycleStageCounts : Type 0 where
  pub contexts_built : ℕ
  pub context_errors : ℕ
  pub router_invocations : ℕ
  pub router_no_trades : ℕ
  pub router_errors : ℕ
  pub strategy_invocations : ℕ
  pub signals_generated : ℕ
  pub strategy_errors : ℕ
  pub adapter_errors : ℕ
  pub duplicate_intents : ℕ
  pub risk_accepted : ℕ
  pub risk_rejections : ℕ
  pub risk_errors : ℕ
  pub orders_created : ℕ
  pub broker_errors : ℕ
  pub rejections : List Rejection

abbrev pub no_counts : CycleStageCounts
no_counts = record {
  contexts_built = 0;
  context_errors = 0;
  router_invocations = 0;
  router_no_trades = 0;
  router_errors = 0;
  strategy_invocations = 0;
  signals_generated = 0;
  strategy_errors = 0;
  adapter_errors = 0;
  duplicate_intents = 0;
  risk_accepted = 0;
  risk_rejections = 0;
  risk_errors = 0;
  orders_created = 0;
  broker_errors = 0;
  rejections = [];
}

-- `_reject`
abbrev pub reject : String → Reason → CycleStageCounts → CycleStageCounts
reject symbol reason c = record c {
  rejections = c.rejections ++ record { symbol = symbol; reason = reason } ∷ [];
}

-- What the engine is built with and calls: `build_context` gives none for an exception, and so does a family.
pub record Engine (F : Type 0) : Type 0 where
  -- `symbol.split("/")[0]`, and the pair that `f"{asset}/USDT"` is; Python's `sorted` on texts
  pub asset_of : String → String
  pub usdt_pair : String → String
  pub sorted : List String → List String
  pub intent_cloid : String → String → String → ℕ → String
  pub build_context : String → List (Ohlcv F) → ℕ → Option AssetContext
  pub gates : RouterGates F
  pub strategy_map : Dict (Entry F)
  pub families : Dict (List (Ohlcv F) → Option (List (AlphaSignal F)))

-- One pair of `history` with its decision timestamp, 0 where there is none.
pub record Request (F : Type 0) : Type 0 where
  pub symbol : String
  pub bars : List (Ohlcv F)
  pub timestamp : ℕ

-- `(symbol, alpha, decision_ts)` surviving routing
pub record Routed (F : Type 0) : Type 0 where
  pub symbol : String
  pub alpha : AlphaSignal F
  pub timestamp : ℕ
