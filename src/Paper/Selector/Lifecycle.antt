-- ===== src/Paper/Selector/Lifecycle.antt =====
-- The states that a strategy goes through.
use bot_crypto.Prelude.{
  String, ◌≡◌, refl, sym, subst, ◌∙◌, All, true, false, none, some, List, [], ◌∷◌, arith, str_eq,
  eq_iff, if◌then◌else◌, inl, inr, Option-cases, Bool-cases,
}
use bot_crypto.Float.{Float}
use bot_crypto.Dict.{insert, lookup-insert}
use bot_crypto.Paper.Selector.{
  active, suspended, StrategyConfig, StrategySelector, Call, store, register_strategy, may_activate,
  with_status, activate_strategy, deactivate_strategy, update_trade_stats, with_trade, get_strategy,
  apply, run, register, activate, deactivate, trade,
}
use bot_crypto.Paper.Selector.Steps.{
  Step, Steps, activation, refusal, suspend, activate_other, deactivate_other, traded, registered,
  done, next,
}

module _ {F J : Type 0} where
  -- The call registers no configuration under this id.
  abbrev pub Leaves : String → Call F J → Type 0
  Leaves id (register c) = str_eq c.identity.strategy_id id ≡ false
  Leaves id (activate _) = Unit
  Leaves id (deactivate _) = Unit
  Leaves id (trade _ _ _) = Unit

  -- The strategy has an entry of this identity, whose status is the one that the calls lead to.
  pub record Follows (id : String) (cs : List (Call F J)) (c : StrategyConfig F J)
      (s : StrategySelector F J) : Type 0 where
    pub now : StrategyConfig F J
    pub present : get_strategy id s ≡ some now
    pub same : now.identity ≡ c.identity
    pub steps : Steps id cs c.status now.status

  -- One call: the strategy keeps its identity, and its status takes the call's step.
  record Moves (id : String) (call : Call F J) (c : StrategyConfig F J) (s : StrategySelector F J)
      : Type 0 where
    now : StrategyConfig F J
    present : get_strategy id s ≡ some now
    same : now.identity ≡ c.identity
    moved : Step id call c.status now.status

  stays :
      (id : String) (call : Call F J) (c : StrategyConfig F J) (s : StrategySelector F J)
      → get_strategy id s ≡ some c
      → Step id call c.status c.status
      → Moves id call c s
  stays id call c s h r = record { now = c; present = h; same = refl; moved = r }

  store_other :
      (key id : String) (call : Call F J) (d c : StrategyConfig F J) (s : StrategySelector F J)
      → get_strategy id s ≡ some c
      → str_eq key id ≡ false
      → Step id call c.status c.status
      → Moves id call c (store key d s)
  unfolding store get_strategy
  store_other key id call d c s h e r =
      stays id call c (store key d s) (ground (arith, lookup-insert key id d s.strategies)) r

  store_same :
      (key id : String) (call : Call F J) (d c : StrategyConfig F J) (s : StrategySelector F J)
      → str_eq key id ≡ true
      → d.identity ≡ c.identity
      → Step id call c.status d.status
      → Moves id call c (store key d s)
  unfolding store get_strategy
  store_same key id call d c s e same moved = record {
    now = d;
    present = ground (arith, lookup-insert key id d s.strategies);
    same = same;
    moved = moved;
  }

  same_key :
      (key id : String) (c : StrategyConfig F J) (s : StrategySelector F J)
      → get_strategy id s ≡ some c
      → str_eq key id ≡ true
      → (key ≡ id) × (get_strategy key s ≡ some c)
  same_key key id c s h q =
      let e = (eq_iff key id).0 q in (e, subst (λ x. get_strategy x s ≡ some c) (sym e) h)

  activate-eq :
      (key : String) (s : StrategySelector F J)
      → (activate_strategy key s).0 ≡ elim (get_strategy key s) [
        | none ↦ s
        | some d ↦ if may_activate d.status then store key (with_status active d) s else s
      ]
  unfolding activate_strategy get_strategy
  activate-eq key s = ground arith

  activate-Moves :
      (key id : String) (c : StrategyConfig F J) (s : StrategySelector F J)
      → get_strategy id s ≡ some c
      → Moves id (activate key) c (activate_strategy key s).0
  unfolding with_status
  activate-Moves key id c s h = elim (Bool-cases (str_eq key id)) [
    | inl q ↦
        let (e, k) = same_key key id c s h q in
        elim (Bool-cases (may_activate c.status)) [
          | inl may ↦ subst (Moves id (activate key) c) (sym (ground (arith, activate-eq key s))) (
              store_same key id (activate key) (with_status active c) c s q refl
                (activation key id c.status e may))
          | inr not_now ↦
              subst (Moves id (activate key) c) (sym (ground (arith, activate-eq key s)))
                (stays id (activate key) c s h (refusal key id c.status e not_now))
        ]
    | inr q ↦ elim (Option-cases (get_strategy key s)) [
      | inl e ↦
          subst (Moves id (activate key) c) (sym (ground (arith, activate-eq key s)))
            (stays id (activate key) c s h (activate_other key c.status q))
      | inr (d, e) ↦ elim (Bool-cases (may_activate d.status)) [
        | inl may ↦ subst (Moves id (activate key) c) (sym (ground (arith, activate-eq key s))) (
            store_other key id (activate key) (with_status active d) c s h q
              (activate_other key c.status q))
        | inr not_now ↦
            subst (Moves id (activate key) c) (sym (ground (arith, activate-eq key s)))
              (stays id (activate key) c s h (activate_other key c.status q))
      ]
    ]
  ]

  deactivate-eq :
      (key : String) (s : StrategySelector F J)
      → (deactivate_strategy key s).0
        ≡ elim (get_strategy key s) [ none ↦ s | some d ↦ store key (with_status suspended d) s ]
  unfolding deactivate_strategy get_strategy
  deactivate-eq key s = ground arith

  deactivate-Moves :
      (key id : String) (c : StrategyConfig F J) (s : StrategySelector F J)
      → get_strategy id s ≡ some c
      → Moves id (deactivate key) c (deactivate_strategy key s).0
  unfolding with_status
  deactivate-Moves key id c s h = elim (Bool-cases (str_eq key id)) [
    | inl q ↦
        let (e, k) = same_key key id c s h q in
        subst (Moves id (deactivate key) c) (sym (ground (arith, deactivate-eq key s))) (
          store_same key id (deactivate key) (with_status suspended c) c s q refl
            (suspend key c.status e))
    | inr q ↦ elim (Option-cases (get_strategy key s)) [
      | inl e ↦
          subst (Moves id (deactivate key) c) (sym (ground (arith, deactivate-eq key s)))
            (stays id (deactivate key) c s h (deactivate_other key c.status q))
      | inr (d, e) ↦
          subst (Moves id (deactivate key) c) (sym (ground (arith, deactivate-eq key s))) (
            store_other key id (deactivate key) (with_status suspended d) c s h q
              (deactivate_other key c.status q))
    ]
  ]

  -- A strategy of any status, also one that was never validated or is out of use, is active after a deactivation and
  -- an activation, and both calls report success.
  pub deactivate_then_activate :
      (id : String) (c : StrategyConfig F J) (s : StrategySelector F J)
      → get_strategy id s ≡ some c
      → ((deactivate_strategy id s).1 ≡ true)
        × ((activate_strategy id (deactivate_strategy id s).0).1 ≡ true)
        × (get_strategy id (activate_strategy id (deactivate_strategy id s).0).0
            ≡ some (with_status active c))
  unfolding deactivate_strategy activate_strategy get_strategy with_status store
  deactivate_then_activate id c s h =
      let d = with_status suspended c in
      ground (
        arith,
        lookup-insert id id d s.strategies,
        lookup-insert id id (with_status active d) (insert id d s.strategies),
        eq_iff id id,
      )

module _ {F J : Type 0} ⦃fl : Float F⦄ where
  trade-eq :
      (key : String) (pnl now : F) (s : StrategySelector F J)
      → update_trade_stats key pnl now s
        ≡ elim (get_strategy key s) [ none ↦ s | some d ↦ store key (with_trade pnl now d) s ]
  unfolding update_trade_stats get_strategy
  trade-eq key pnl now s = ground arith

  trade-Moves :
      (key id : String) (pnl now : F) (c : StrategyConfig F J) (s : StrategySelector F J)
      → get_strategy id s ≡ some c
      → Moves id (trade key pnl now) c (update_trade_stats key pnl now s)
  trade-Moves key id pnl now c s h = elim (Bool-cases (str_eq key id)) [
    | inl q ↦
        let (e, k) = same_key key id c s h q in
        subst (Moves id (trade key pnl now) c) (sym (ground (arith, trade-eq key pnl now s))) (
          store_same key id (trade key pnl now) (with_trade pnl now c) c s q refl
            (traded key pnl now c.status))
    | inr q ↦ elim (Option-cases (get_strategy key s)) [
      | inl e ↦
          subst (Moves id (trade key pnl now) c) (sym (ground (arith, trade-eq key pnl now s)))
            (stays id (trade key pnl now) c s h (traded key pnl now c.status))
      | inr (d, e) ↦
          subst (Moves id (trade key pnl now) c) (sym (ground (arith, trade-eq key pnl now s))) (
            store_other key id (trade key pnl now) (with_trade pnl now d) c s h q
              (traded key pnl now c.status))
    ]
  ]

  apply-Moves :
      (call : Call F J) (id : String) (c : StrategyConfig F J) (s : StrategySelector F J)
      → get_strategy id s ≡ some c
      → Leaves id call
      → Moves id call c (apply call s)
  unfolding apply register_strategy
  apply-Moves (register d) id c s h l =
      store_other d.identity.strategy_id id (register d) d c s h l (registered d c.status)
  apply-Moves (activate key) id c s h l = activate-Moves key id c s h
  apply-Moves (deactivate key) id c s h l = deactivate-Moves key id c s h
  apply-Moves (trade key pnl now) id c s h l = trade-Moves key id pnl now c s h

  -- Whatever calls follow that register no other configuration under its id, a strategy stays with its identity, and
  -- its status takes one step for each call, in their order: an activation of it makes it active if it is ready or
  -- suspended, and leaves its status otherwise; a deactivation of it makes it suspended; every other call leaves it.
  pub run-Follows :
      (cs : List (Call F J)) (id : String) (c : StrategyConfig F J) (s : StrategySelector F J)
      → get_strategy id s ≡ some c
      → All (Leaves id) cs
      → Follows id cs c (run cs s)
  unfolding run
  run-Follows [] id c s h l = record { now = c; present = h; same = refl; steps = done c.status }
  run-Follows (call ∷ cs) id c s h l =
      let m = apply-Moves call id c s h l.0 in
      let f = run-Follows cs id m.now (apply call s) m.present l.1 in
      record {
        now = f.now;
        present = f.present;
        same = f.same ∙ m.same;
        steps = next call cs c.status m.now.status f.now.status m.moved f.steps;
      }
