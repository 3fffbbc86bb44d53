-- ===== src/Paper/Cycle/Orders/Fills.antt =====
-- The executions of a cycle as steps of a relation.
use bot_crypto.Prelude.{
  ℕ, suc, ◌+◌, ◌≤◌, String, ◌≡◌, refl, subst, false, Option, none, some, List, [], ◌∷◌, inl, inr,
  arith, length, map, Bool-cases,
}
use bot_crypto.Float.{Float}
use bot_crypto.Dict.{Dict}
use bot_crypto.Signal.{Signal}
use bot_crypto.Market.Candles.{Ohlcv}
use bot_crypto.Execution.Idempotency.{IdempotencyGuard, is_duplicate, register}
use bot_crypto.Risk.Manager.{RiskManager, PositionSize, RiskCheck, approved, blocked, check_signal}
use bot_crypto.Paper.Broker.{PaperBroker, Execution, closed, opened, skipped, execute_signal}
use bot_crypto.Paper.Broker.Signals.{execute_signal-unfilled}
use bot_crypto.Paper.Adapter.{
  AlphaSignal, Adapted, adapted, adapter_error, signal_error, alpha_signal_to_signal,
}
use bot_crypto.Paper.Candidates.{TradeCandidate}
use bot_crypto.Paper.Candidates.Limits.{build_portfolio_lem}
use bot_crypto.Paper.Cycle.Stages.{no_counts, Engine, Routed}
use bot_crypto.Paper.Cycle.Routing.{route_all, requests}
use bot_crypto.Paper.Cycle.Routing.Sums.{routing-IsTallied}
use bot_crypto.Paper.Cycle.Orders.{
  CycleState, approved_signal, settle, filled, judge, adapt, order, order_found, process,
  process_all, consolidate, after_routing, run_cycle_sync, find_alpha, candidate_of,
}
use bot_crypto.Paper.Cycle.Orders.Executions.{Executes, execute_signal-Executes}

module _ {F : Type 0} ⦃fl : Float F⦄ (m : RiskManager F) (now : F) where
  -- From one guard and broker to others by executions, each of a signal that risk approved, with the size that it
  -- approved, and under an identity that was not registered before and then is. The identities are listed in order.
  pub data Fills
      : List String
        → IdempotencyGuard
        → PaperBroker F
        → IdempotencyGuard
        → PaperBroker F
        → Type 0 where
    done : {g : IdempotencyGuard} {b : PaperBroker F} → Fills [] g b g b
    fill :
        {cs : List String} {g g' : IdempotencyGuard} {b b' : PaperBroker F} (cloid : String)
        (s : Signal F) (size : PositionSize F)
        → is_duplicate cloid g ≡ false
        → check_signal s m ≡ approved size
        → Executes s size now b (execute_signal (approved_signal s size) now b).0
        → Fills cs (register cloid "" g) (execute_signal (approved_signal s size) now b).0 g' b'
        → Fills (cloid ∷ cs) g b g' b'

  -- What one candidate does: nothing to the guard, the broker and the number of orders, or one execution.
  data Step (s t : CycleState F) : Type 0 where
    kept :
        t.guard ≡ s.guard
        → t.broker ≡ s.broker
        → t.counts.orders_created ≡ s.counts.orders_created
        → Step s t
    executed :
        (cloid : String) (base : Signal F) (size : PositionSize F)
        → is_duplicate cloid s.guard ≡ false
        → check_signal base m ≡ approved size
        → Executes base size now s.broker
            (execute_signal (approved_signal base size) now s.broker).0
        → t.guard ≡ register cloid "" s.guard
        → t.broker ≡ (execute_signal (approved_signal base size) now s.broker).0
        → t.counts.orders_created ≡ suc s.counts.orders_created
        → Step s t

  settle-Step :
      (symbol cloid : String) (base : Signal F) (size : PositionSize F) (s : CycleState F)
      (r : PaperBroker F × Execution F)
      → execute_signal (approved_signal base size) now s.broker ≡ r
      → is_duplicate cloid s.guard ≡ false
      → check_signal base m ≡ approved size
      → Step s (
          settle symbol cloid
            (record s { counts = record s.counts { risk_accepted = s.counts.risk_accepted + 1 } })
            r)
  unfolding settle filled
  settle-Step symbol cloid base size s (b, skipped) e d c =
      kept refl
        (ground (arith, e, execute_signal-unfilled (approved_signal base size) now s.broker)) refl
  settle-Step symbol cloid base size s (b, closed trade) e d c =
      executed cloid base size d c
        (execute_signal-Executes base size now s.broker (ground (arith, e))) refl
        (ground (arith, e)) (omega arith)
  settle-Step symbol cloid base size s (b, opened position) e d c =
      executed cloid base size d c
        (execute_signal-Executes base size now s.broker (ground (arith, e))) refl
        (ground (arith, e)) (omega arith)

  judge-Step :
      (symbol cloid : String) (base : Signal F) (s : CycleState F) (r : RiskCheck F)
      → check_signal base m ≡ r
      → is_duplicate cloid s.guard ≡ false
      → Step s (judge now symbol cloid base s r)
  unfolding judge
  judge-Step symbol cloid base s (blocked block) e d = kept refl refl refl
  judge-Step symbol cloid base s (approved size) e d =
      settle-Step symbol cloid base size s (execute_signal (approved_signal base size) now s.broker)
        refl d e

  adapt-Step :
      (symbol cloid : String) (s : CycleState F) (r : Adapted F)
      → is_duplicate cloid s.guard ≡ false
      → Step s (adapt m now symbol cloid s r)
  unfolding adapt
  adapt-Step symbol cloid s adapter_error d = kept refl refl refl
  adapt-Step symbol cloid s signal_error d = kept refl refl refl
  adapt-Step symbol cloid s (adapted base) d =
      judge-Step symbol cloid base s (check_signal base m) refl d

  order-Step :
      (symbol cloid : String) (a : AlphaSignal F) (s : CycleState F)
      → Step s (order m now symbol cloid a s)
  unfolding order
  order-Step symbol cloid a s = elim (Bool-cases (is_duplicate cloid s.guard)) [
    | inl old ↦ rw old (kept refl refl refl)
    | inr new ↦ rw new (adapt-Step symbol cloid s (alpha_signal_to_signal a) new)
  ]

  order_found-Step :
      (e : Engine F) (symbol : String) (c : TradeCandidate F) (s : CycleState F)
      (o : Option (AlphaSignal F))
      → Step s (order_found e m now symbol c s o)
  unfolding order_found
  order_found-Step e symbol c s none = kept refl refl refl
  order_found-Step e symbol c s (some a) =
      order-Step symbol (e.intent_cloid symbol c.strategy_id c.direction a.timestamp) a s

  process-Step :
      (e : Engine F) (routed : List (Routed F)) (c : TradeCandidate F) (s : CycleState F)
      → Step s (process e m now routed c s)
  unfolding process
  process-Step e routed c s =
      order_found-Step e (e.usdt_pair c.asset) c s (find_alpha (e.usdt_pair c.asset) c routed)

  -- The identities executed between two states, as many as orders were counted, and at most `n`.
  abbrev Executed : ℕ → CycleState F → CycleState F → Type 0
  Executed n s t =
      (cs : List String) × Fills cs s.guard s.broker t.guard t.broker
      × (length cs + s.counts.orders_created ≡ t.counts.orders_created)
      × (length cs ≤ n)

  Step-then : (n : ℕ) (s t u : CycleState F) → Step s t → Executed n t u → Executed (suc n) s u
  Step-then n s t u (kept g b o) (cs, f, total, bound) = (
    cs,
    subst (λ x. Fills cs x s.broker u.guard u.broker) g
        (subst (λ x. Fills cs t.guard x u.guard u.broker) b f),
    omega (arith, total, o),
    omega (arith, bound),
  )
  Step-then n s t u (executed cloid base size d c x g b o) (cs, f, total, bound) = (
    cloid ∷ cs,
    fill cloid base size d c x (
        subst
          (λ y.
            Fills cs y (execute_signal (approved_signal base size) now s.broker).0 u.guard u.broker)
          g (subst (λ y. Fills cs t.guard y u.guard u.broker) b f)),
    omega (arith, total, o),
    omega (arith, bound),
  )

  process_all-Executed :
      (e : Engine F) (routed : List (Routed F)) (cs : List (TradeCandidate F)) (s : CycleState F)
      → Executed (length cs) s (process_all e m now routed cs s)
  unfolding process_all
  process_all-Executed e routed [] s = ([], done, omega arith, omega arith)
  process_all-Executed e routed (c ∷ cs) s =
      Step-then (length cs) s (process e m now routed c s)
        (process_all e m now routed cs (process e m now routed c s)) (process-Step e routed c s)
        (process_all-Executed e routed cs (process e m now routed c s))

  -- Whatever the contexts, the strategies and the market are, a cycle takes the guard and the broker it was given to those
  -- that it leaves by executions alone, each of a signal that the risk manager approves and under an intent identity
  -- that was not registered before. An execution on a symbol without a position opens one on the signal's side, with the
  -- approved notional, stop and profit target (1% of the equity for a notional that is not positive, and 1% or 2% for a
  -- stop or target of zero); an execution against a position of the other side closes that position whole, whatever size was approved. The executions
  -- are as many as orders_created counts, and at most 3.
  pub run_cycle-Fills :
      (e : Engine F) (history : Dict (List (Ohlcv F))) (timestamps : Dict ℕ)
      (guard : IdempotencyGuard) (broker : PaperBroker F)
      → (cloids : List String) × Fills cloids guard broker
          (run_cycle_sync e m now history timestamps guard broker).guard
          (run_cycle_sync e m now history timestamps guard broker).broker
        × (length cloids
            ≡ (run_cycle_sync e m now history timestamps guard broker).counts.orders_created)
        × (length cloids ≤ 3)
  unfolding run_cycle_sync after_routing consolidate
  run_cycle-Fills e history timestamps guard broker =
      let r =
        route_all e (requests e history timestamps) (record { counts = no_counts; routed = [] }) in
      let (cs, f, total, bound) =
        process_all-Executed e r.routed (consolidate e r.routed)
          (record { counts = r.counts; guard = guard; broker = broker }) in
      (
        cs,
        f,
        omega (arith, total, (routing-IsTallied e (requests e history timestamps)).orders),
        omega (arith, bound, (build_portfolio_lem 1 3 (map (candidate_of e) r.routed)).0),
      )
