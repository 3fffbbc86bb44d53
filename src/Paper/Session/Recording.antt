-- ===== src/Paper/Session/Recording.antt =====
-- What the risk manager is told of the closed trades.
use bot_crypto.Prelude.{◌+◌, ◌≡◌, ap, List, [], ◌∷◌, ◌++◌, String, arith, length, length-append}
use bot_crypto.Float.{Float}
use bot_crypto.Execution.Idempotency.{IdempotencyGuard}
use bot_crypto.Risk.Manager.{RiskManager, record_trade_result}
use bot_crypto.Paper.Broker.{PaperBroker, ClosedTrade, execute_signal, reconcile_session}
use bot_crypto.Paper.Broker.Ledger.{
  Grows, Grows-refl, Grows-trans, execute_signal-Grows, reconcile_session-Grows,
}
use bot_crypto.Paper.Cycle.Stages.{Engine}
use bot_crypto.Paper.Cycle.Orders.{approved_signal}
use bot_crypto.Paper.Cycle.Orders.Fills.{Fills, done, fill, run_cycle-Fills}
use bot_crypto.Paper.Session.{
  Desk, SessionInput, sync_risk_equity, record_closed_trades, run_valid, run_decision_cycle,
  close_session,
}
use bot_crypto.Paper.Session.History.{decisions, prices}

module _ {F : Type 0} ⦃fl : Float F⦄ where
  Fills-Grows :
      (m : RiskManager F) (now : F) (cs : List String) (g g' : IdempotencyGuard)
      (b b' : PaperBroker F)
      → Fills m now cs g b g' b'
      → Grows b b'
  Fills-Grows m now [] g g' b b' done = Grows-refl b
  Fills-Grows m now (_ ∷ cs) g g' b b' (fill c s size d k x f) =
      Grows-trans b (execute_signal (approved_signal s size) now b).0 b'
        (execute_signal-Grows (approved_signal s size) now b) (Fills-Grows m now cs _ g' _ b' f)

  run_decision_cycle-Grows :
      (e : Engine F) (i : SessionInput F) (d : Desk F)
      → Grows d.broker (run_decision_cycle e i d).broker
  unfolding run_decision_cycle
  run_decision_cycle-Grows e i d =
      let h = decisions i.reader i.started_at_ms i.snapshots in
      let m = sync_risk_equity d.broker d.manager in
      let (cs, f, n, bound) =
        run_cycle-Fills m i.order_time e h.history h.timestamps d.guard d.broker in
      Fills-Grows m i.order_time cs d.guard _ d.broker (run_decision_cycle e i d).broker f

  trades_today-record :
      (ts : List (ClosedTrade F)) (m : RiskManager F)
      → (record_closed_trades ts m).trades_today ≡ m.trades_today + length ts
  unfolding record_closed_trades record_trade_result
  trades_today-record [] m = omega arith
  trades_today-record (t ∷ ts) m =
      omega (arith, trades_today-record ts (record_trade_result t.pnl m))

  -- A session keeps every trade that the broker had closed before and adds its own. The risk manager, after the broker's
  -- equity was copied into it, is told of all of them again, the earlier ones with those of the session, and
  -- counts them all as trades of today.
  pub run_valid-records :
      (e : Engine F) (i : SessionInput F) (d : Desk F)
      → (new : List (ClosedTrade F)) × ((run_valid e i d).0.broker.closed_trades
          ≡ d.broker.closed_trades ++ new)
        × ((run_valid e i d).0.manager
            ≡ record_closed_trades
                (d.broker.closed_trades ++ new)
                (sync_risk_equity d.broker d.manager))
        × ((run_valid e i d).0.manager.trades_today
            ≡ d.manager.trades_today + length d.broker.closed_trades + length new)
  unfolding run_valid close_session reconcile_session sync_risk_equity
  run_valid-records e i d =
      let c = run_decision_cycle e i d in
      let b = (reconcile_session (prices i.snapshots) i.exit_time c.broker).0 in
      let (new, h) =
        Grows-trans d.broker c.broker b (run_decision_cycle-Grows e i d)
          (reconcile_session-Grows (prices i.snapshots) i.exit_time c.broker) in
      (
        new,
        h,
        ap (λ ts. record_closed_trades ts (sync_risk_equity d.broker d.manager)) h,
        omega (
          arith,
          trades_today-record b.closed_trades (sync_risk_equity d.broker d.manager),
          ap length h,
          length-append d.broker.closed_trades new,
        ),
      )
