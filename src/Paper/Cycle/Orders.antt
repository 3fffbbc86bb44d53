-- ===== src/Paper/Cycle/Orders.antt =====
-- The later stages: the candidates, their consolidation, and the path of each through risk to the broker.
pub mod Executions
pub mod Fills
pub mod Once
pub mod Halt
pub mod Future
pub mod Sums
mod Tests
use bot_crypto.Prelude.{
  ℕ, ◌+◌, String, Bool, true, false, ◌&&◌, Option, none, some, List, [], ◌∷◌, map, str_eq,
  if◌then◌else◌,
}
use bot_crypto.Float.{Float, whole}
use bot_crypto.Dict.{Dict, insert}
use bot_crypto.Signal.{Signal}
use bot_crypto.Market.Candles.{Ohlcv}
use bot_crypto.Execution.Idempotency.{IdempotencyGuard, is_duplicate, register}
use bot_crypto.Risk.Manager.{RiskManager, PositionSize, RiskCheck, approved, blocked, check_signal}
use bot_crypto.Paper.Broker.{PaperBroker, Execution, closed, opened, skipped, execute_signal}
use bot_crypto.Paper.Adapter.{
  AlphaSignal, Adapted, adapted, adapter_error, signal_error, alpha_signal_to_signal,
}
use bot_crypto.Paper.Candidates.{TradeCandidate, build_portfolio}
use bot_crypto.Paper.Cycle.Stages.{
  CycleStageCounts, no_counts, Reason, risk_candidate_without_alpha, idempotency_duplicate,
  risk_rejected, broker_no_fill, reject, Engine, Routed,
}
use bot_crypto.Paper.Cycle.Stages as Stages
use bot_crypto.Paper.Cycle.Routing.{RoutingState, direction_text, route_all, requests}

-- What a cycle changes.
pub record CycleState (F : Type 0) : Type 0 where
  pub counts : CycleStageCounts
  pub guard : IdempotencyGuard
  pub broker : PaperBroker F

-- `x or "unknown"`
abbrev or_unknown : String → String
or_unknown s = if str_eq s "" then "unknown" else s

module _ {F : Type 0} where
  abbrev drop_order : String → Reason → CycleState F → CycleState F
  drop_order symbol reason s = record s { counts = reject symbol reason s.counts }

  -- The signal with the values that risk approved. Of the new metadata the notional is a number.
  unfoldable pub approved_signal : Signal F → PositionSize F → Signal F
  approved_signal base size = record base {
    stop_loss_pct = some size.stop_loss_pct;
    take_profit_pct = some size.take_profit_pct;
    metadata = insert "notional_usdt" size.notional_usdt base.metadata;
  }

  pub is_alpha_of : String → TradeCandidate F → Routed F → Bool
  is_alpha_of symbol c r =
      str_eq r.symbol symbol
      && str_eq r.alpha.family c.family
      && str_eq (direction_text r.alpha.direction) c.direction

  -- `next(..., None)`
  pub find_alpha : String → TradeCandidate F → List (Routed F) → Option (AlphaSignal F)
  find_alpha symbol c [] = none
  find_alpha symbol c (r ∷ rs) =
      if is_alpha_of symbol c r then some r.alpha else find_alpha symbol c rs

  filled : String → CycleState F → PaperBroker F → CycleState F
  filled cloid s b = record {
    counts = record s.counts { orders_created = s.counts.orders_created + 1 };
    guard = register cloid "" s.guard;
    broker = b;
  }

  settle : String → String → CycleState F → PaperBroker F × Execution F → CycleState F
  unfolding filled
  settle symbol cloid s (b, skipped) = drop_order symbol broker_no_fill (record s { broker = b })
  settle symbol cloid s (b, closed trade) = filled cloid s b
  settle symbol cloid s (b, opened position) = filled cloid s b

module _ {F : Type 0} ⦃fl : Float F⦄ where
  pub candidate_of : Engine F → Routed F → TradeCandidate F
  candidate_of e r = record {
    asset = e.asset_of r.symbol;
    strategy_id = or_unknown r.alpha.family;
    family = r.alpha.family;
    direction = direction_text r.alpha.direction;
    timestamp = r.alpha.timestamp;
    score = whole 0;
    entry_reference = r.alpha.entry_reference;
    structural_stop = r.alpha.structural_stop;
    correlation_group = some (e.asset_of r.symbol);
  }

  judge : F → String → String → Signal F → CycleState F → RiskCheck F → CycleState F
  unfolding settle
  judge now symbol cloid base s (blocked block) =
      drop_order symbol (risk_rejected block)
        (record s { counts = record s.counts { risk_rejections = s.counts.risk_rejections + 1 } })
  judge now symbol cloid base s (approved size) =
      settle symbol cloid
        (record s { counts = record s.counts { risk_accepted = s.counts.risk_accepted + 1 } })
        (execute_signal (approved_signal base size) now s.broker)

  -- The adapter's result.
  adapt : RiskManager F → F → String → String → CycleState F → Adapted F → CycleState F
  unfolding judge
  adapt m now symbol cloid s adapter_error =
      drop_order symbol Stages.adapter_error
        (record s { counts = record s.counts { adapter_errors = s.counts.adapter_errors + 1 } })
  adapt m now symbol cloid s signal_error =
      drop_order symbol Stages.adapter_error
        (record s { counts = record s.counts { adapter_errors = s.counts.adapter_errors + 1 } })
  adapt m now symbol cloid s (adapted base) = judge now symbol cloid base s (check_signal base m)

  order : RiskManager F → F → String → String → AlphaSignal F → CycleState F → CycleState F
  unfolding adapt
  order m now symbol cloid a s =
      if is_duplicate cloid s.guard
      then drop_order symbol (idempotency_duplicate cloid) (record s {
        counts = record s.counts { duplicate_intents = s.counts.duplicate_intents + 1 };
      })
      else adapt m now symbol cloid s (alpha_signal_to_signal a)

  order_found :
      Engine F
      → RiskManager F
      → F
      → String
      → TradeCandidate F
      → CycleState F
      → Option (AlphaSignal F)
      → CycleState F
  unfolding order
  order_found e m now symbol c s none =
      drop_order symbol risk_candidate_without_alpha
        (record s { counts = record s.counts { risk_errors = s.counts.risk_errors + 1 } })
  order_found e m now symbol c s (some a) =
      order m now symbol (e.intent_cloid symbol c.strategy_id c.direction a.timestamp) a s

  -- One round of the last loop.
  pub process :
      Engine F
      → RiskManager F
      → F
      → List (Routed F)
      → TradeCandidate F
      → CycleState F
      → CycleState F
  unfolding order_found
  process e m now routed c s =
      order_found e m now (e.usdt_pair c.asset) c s (find_alpha (e.usdt_pair c.asset) c routed)

  pub process_all :
      Engine F
      → RiskManager F
      → F
      → List (Routed F)
      → List (TradeCandidate F)
      → CycleState F
      → CycleState F
  process_all e m now routed [] s = s
  process_all e m now routed (c ∷ cs) s = process_all e m now routed cs (process e m now routed c s)

  -- `build_portfolio` with its default limits
  pub consolidate : Engine F → List (Routed F) → List (TradeCandidate F)
  unfolding candidate_of
  consolidate e routed = (build_portfolio 1 3 (map (candidate_of e) routed)).candidates

  after_routing :
      Engine F
      → RiskManager F
      → F
      → IdempotencyGuard
      → PaperBroker F
      → RoutingState F
      → CycleState F
  after_routing e m now guard broker r =
      process_all e m now r.routed (consolidate e r.routed)
        (record { counts = r.counts; guard = guard; broker = broker })

  pub run_cycle_sync :
      Engine F
      → RiskManager F
      → F
      → Dict (List (Ohlcv F))
      → Dict ℕ
      → IdempotencyGuard
      → PaperBroker F
      → CycleState F
  unfolding after_routing
  run_cycle_sync e m now history timestamps guard broker =
      after_routing e m now guard broker
        (route_all e (requests e history timestamps) (record { counts = no_counts; routed = [] }))
