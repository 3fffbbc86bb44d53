-- ===== src/Paper/Cycle/Orders/Sums.antt =====
-- The counters of a whole cycle.
use bot_crypto.Prelude.{
  ℕ, suc, ◌+◌, ◌≤◌, String, ◌≡◌, subst, Option, none, some, List, [], ◌∷◌, arith, length, map, Bool,
  count, Bool-cases, inl, inr,
}
use bot_crypto.Float.{Float}
use bot_crypto.Dict.{Dict, keys}
use bot_crypto.Signal.{Signal}
use bot_crypto.Market.Candles.{Ohlcv}
use bot_crypto.Execution.Idempotency.{IdempotencyGuard, is_duplicate}
use bot_crypto.Risk.Manager.{RiskManager, RiskCheck, approved, blocked, check_signal}
use bot_crypto.Paper.Broker.{PaperBroker, Execution, closed, opened, skipped, execute_signal}
use bot_crypto.Paper.Adapter.{
  AlphaSignal, Adapted, adapted, adapter_error, signal_error, alpha_signal_to_signal,
}
use bot_crypto.Paper.Candidates.{TradeCandidate}
use bot_crypto.Paper.Cycle.Stages.{CycleStageCounts, no_counts, Engine, Routed}
use bot_crypto.Paper.Cycle.Routing.{route_all, requests}
use bot_crypto.Paper.Cycle.Routing.Sums.{routing-IsTallied}
use bot_crypto.Paper.Cycle.Orders.{
  CycleState, approved_signal, settle, filled, judge, adapt, order, order_found, process,
  process_all, consolidate, after_routing, run_cycle_sync, find_alpha,
}
use bot_crypto.Paper.Cycle.Routing.Requests.{count-requests, length-requests}

-- The counters after `symbols` symbols and `candidates` candidates: a context or an error for each symbol, a router call
-- for each context; NO_TRADE decisions and family calls at most as many as router calls, and with the strategy errors
-- at least as many; one outcome for each candidate; and at least `slack` more candidates that risk accepted than orders.
pub record IsSettled (slack symbols candidates : ℕ) (c : CycleStageCounts) : Type 0 where
  pub contexts : c.contexts_built + c.context_errors ≡ symbols
  pub routed : c.router_invocations ≡ c.contexts_built
  pub decided : c.router_no_trades + c.strategy_invocations ≤ c.router_invocations
  pub explained :
      c.router_invocations ≤ c.router_no_trades + c.strategy_invocations + c.strategy_errors
  pub settled :
      c.adapter_errors + c.duplicate_intents + c.risk_accepted + c.risk_rejections + c.risk_errors
      ≡ candidates
  pub orders : c.orders_created + slack ≤ c.risk_accepted

module _ {F : Type 0} ⦃fl : Float F⦄ where
  settle-IsSettled :
      (n k : ℕ) (symbol cloid : String) (s : CycleState F) (r : PaperBroker F × Execution F)
      → IsSettled 1 n k s.counts
      → IsSettled 0 n k (settle symbol cloid s r).counts
  unfolding settle filled
  settle-IsSettled n k symbol cloid s (b, skipped) h = record {
    contexts = h.contexts;
    routed = h.routed;
    decided = h.decided;
    explained = h.explained;
    settled = h.settled;
    orders = omega (arith, h.orders);
  }
  settle-IsSettled n k symbol cloid s (b, closed trade) h = record {
    contexts = h.contexts;
    routed = h.routed;
    decided = h.decided;
    explained = h.explained;
    settled = h.settled;
    orders = omega (arith, h.orders);
  }
  settle-IsSettled n k symbol cloid s (b, opened position) h = record {
    contexts = h.contexts;
    routed = h.routed;
    decided = h.decided;
    explained = h.explained;
    settled = h.settled;
    orders = omega (arith, h.orders);
  }

  judge-IsSettled :
      (n k : ℕ) (now : F) (symbol cloid : String) (base : Signal F) (s : CycleState F)
      (r : RiskCheck F)
      → IsSettled 0 n k s.counts
      → IsSettled 0 n (suc k) (judge now symbol cloid base s r).counts
  unfolding judge
  judge-IsSettled n k now symbol cloid base s (blocked block) h = record {
    contexts = h.contexts;
    routed = h.routed;
    decided = h.decided;
    explained = h.explained;
    settled = omega (arith, h.settled);
    orders = h.orders;
  }
  judge-IsSettled n k now symbol cloid base s (approved size) h =
      settle-IsSettled n (suc k) symbol cloid
        (record s { counts = record s.counts { risk_accepted = s.counts.risk_accepted + 1 } })
        (execute_signal (approved_signal base size) now s.broker)
        (record {
          contexts = h.contexts;
          routed = h.routed;
          decided = h.decided;
          explained = h.explained;
          settled = omega (arith, h.settled);
          orders = omega (arith, h.orders);
        })

  adapt-IsSettled :
      (n k : ℕ) (m : RiskManager F) (now : F) (symbol cloid : String) (s : CycleState F)
      (r : Adapted F)
      → IsSettled 0 n k s.counts
      → IsSettled 0 n (suc k) (adapt m now symbol cloid s r).counts
  unfolding adapt
  adapt-IsSettled n k m now symbol cloid s adapter_error h = record {
    contexts = h.contexts;
    routed = h.routed;
    decided = h.decided;
    explained = h.explained;
    settled = omega (arith, h.settled);
    orders = h.orders;
  }
  adapt-IsSettled n k m now symbol cloid s signal_error h = record {
    contexts = h.contexts;
    routed = h.routed;
    decided = h.decided;
    explained = h.explained;
    settled = omega (arith, h.settled);
    orders = h.orders;
  }
  adapt-IsSettled n k m now symbol cloid s (adapted base) h =
      judge-IsSettled n k now symbol cloid base s (check_signal base m) h

  order-IsSettled :
      (n k : ℕ) (m : RiskManager F) (now : F) (symbol cloid : String) (a : AlphaSignal F)
      (s : CycleState F)
      → IsSettled 0 n k s.counts
      → IsSettled 0 n (suc k) (order m now symbol cloid a s).counts
  unfolding order
  order-IsSettled n k m now symbol cloid a s h = elim (Bool-cases (is_duplicate cloid s.guard)) [
    | inl old ↦ rw old (record {
      contexts = h.contexts;
      routed = h.routed;
      decided = h.decided;
      explained = h.explained;
      settled = omega (arith, h.settled);
      orders = h.orders;
    })
    | inr new ↦ rw new (adapt-IsSettled n k m now symbol cloid s (alpha_signal_to_signal a) h)
  ]

  order_found-IsSettled :
      (n k : ℕ) (e : Engine F) (m : RiskManager F) (now : F) (symbol : String)
      (c : TradeCandidate F) (s : CycleState F) (o : Option (AlphaSignal F))
      → IsSettled 0 n k s.counts
      → IsSettled 0 n (suc k) (order_found e m now symbol c s o).counts
  unfolding order_found
  order_found-IsSettled n k e m now symbol c s none h = record {
    contexts = h.contexts;
    routed = h.routed;
    decided = h.decided;
    explained = h.explained;
    settled = omega (arith, h.settled);
    orders = h.orders;
  }
  order_found-IsSettled n k e m now symbol c s (some a) h =
      order-IsSettled n k m now symbol (e.intent_cloid symbol c.strategy_id c.direction a.timestamp)
        a s h

  process_all-IsSettled :
      (n k : ℕ) (e : Engine F) (m : RiskManager F) (now : F) (routed : List (Routed F))
      (cs : List (TradeCandidate F)) (s : CycleState F)
      → IsSettled 0 n k s.counts
      → IsSettled 0 n (length cs + k) (process_all e m now routed cs s).counts
  unfolding process_all process
  process_all-IsSettled n k e m now routed [] s h =
      subst (λ j. IsSettled 0 n j s.counts) (omega arith) h
  process_all-IsSettled n k e m now routed (c ∷ cs) s h =
      subst
        (λ j. IsSettled 0 n j (process_all e m now routed cs (process e m now routed c s)).counts)
        (omega arith)
        (process_all-IsSettled n (suc k) e m now routed cs (process e m now routed c s) (
          order_found-IsSettled n k e m now (e.usdt_pair c.asset) c s
            (find_alpha (e.usdt_pair c.asset) c routed) h))

  -- The counters of a cycle add up, where `sorted` keeps the number of times that each text occurs: each symbol of the
  -- history is requested as often as it is a key, and the contexts and the context errors are together as many as the
  -- symbols of the history; each context is one router call; the NO_TRADE decisions and the calls of a family together
  -- are no more than the router calls, and with the strategy errors no fewer; each consolidated candidate has one outcome
  -- (adapter error, duplicate, risk accepted, risk rejected or risk error); and the orders are no more than the
  -- candidates that risk accepted.
  pub run_cycle-IsSettled :
      (e : Engine F) (m : RiskManager F) (now : F) (history : Dict (List (Ohlcv F)))
      (timestamps : Dict ℕ) (guard : IdempotencyGuard) (broker : PaperBroker F)
      → ((test : String → Bool) (ks : List String) → count test (e.sorted ks) ≡ count test ks)
      → ((test : String → Bool)
          → count test (map (λ r. r.symbol) (requests e history timestamps))
            ≡ count test (keys history))
        × IsSettled 0
            (length history)
            (length (
              consolidate e
                (route_all e
                  (requests e history timestamps)
                  (record { counts = no_counts; routed = [] })).routed))
            (run_cycle_sync e m now history timestamps guard broker).counts
  unfolding run_cycle_sync after_routing
  run_cycle-IsSettled e m now history timestamps guard broker sorts =
      let rs = requests e history timestamps in
      let r = route_all e rs (record { counts = no_counts; routed = [] }) in
      let h = routing-IsTallied e rs in
      (
        count-requests e history timestamps sorts,
        subst
            (λ n.
              IsSettled 0 n (length (consolidate e r.routed))
                (run_cycle_sync e m now history timestamps guard broker).counts)
            (length-requests e history timestamps sorts)
            (subst
              (λ j.
                IsSettled 0 (length rs) j
                  (run_cycle_sync e m now history timestamps guard broker).counts)
              (omega arith)
              (process_all-IsSettled (length rs) 0 e m now r.routed (consolidate e r.routed)
                (record { counts = r.counts; guard = guard; broker = broker })
                (record {
                  contexts = h.contexts;
                  routed = h.routed;
                  decided = omega (arith, h.decided);
                  explained = omega (arith, h.explained);
                  settled = h.later;
                  orders = omega (arith, h.orders);
                }))),
      )
