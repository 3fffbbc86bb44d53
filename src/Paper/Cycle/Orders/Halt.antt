-- ===== src/Paper/Cycle/Orders/Halt.antt =====
-- A cycle under the risk manager's kill switch.
use bot_crypto.Prelude.{ℕ, ◌≡◌, refl, true, List, [], ◌∷◌, String, arith, length}
use bot_crypto.Float.{Float}
use bot_crypto.Dict.{Dict}
use bot_crypto.Signal.{Signal}
use bot_crypto.Market.Candles.{Ohlcv}
use bot_crypto.Execution.Idempotency.{IdempotencyGuard}
use bot_crypto.Risk.Manager.{RiskManager, blocked, kill_switch, check_signal}
use bot_crypto.Paper.Broker.{PaperBroker}
use bot_crypto.Paper.Cycle.Stages.{Engine}
use bot_crypto.Paper.Cycle.Orders.{run_cycle_sync}
use bot_crypto.Paper.Cycle.Orders.Fills.{Fills, done, fill, run_cycle-Fills}

module _ {F : Type 0} ⦃fl : Float F⦄ where
  check_signal-halted :
      (s : Signal F) (m : RiskManager F)
      → m.kill_switch_active ≡ true
      → check_signal s m ≡ blocked kill_switch
  unfolding check_signal
  check_signal-halted s m h = ground (arith, h)

  Fills-halted :
      (m : RiskManager F) (now : F) (cs : List String) (g g' : IdempotencyGuard)
      (b b' : PaperBroker F)
      → m.kill_switch_active ≡ true
      → Fills m now cs g b g' b'
      → (g' ≡ g) × (b' ≡ b) × (length cs ≡ 0)
  Fills-halted m now [] g g' b b' h done = (refl, refl, refl)
  Fills-halted m now (_ ∷ cs) g g' b b' h (fill c s size d k x f) =
      ground (arith, k, check_signal-halted s m h)

  -- While the risk manager's kill switch is active, a cycle creates no order and leaves the guard and the broker, with its
  -- equity, positions and trades, as they were, whatever the contexts, the strategies and the market are.
  pub run_cycle-halted :
      (e : Engine F) (m : RiskManager F) (now : F) (history : Dict (List (Ohlcv F)))
      (timestamps : Dict ℕ) (guard : IdempotencyGuard) (broker : PaperBroker F)
      → m.kill_switch_active ≡ true
      → ((run_cycle_sync e m now history timestamps guard broker).guard ≡ guard)
        × ((run_cycle_sync e m now history timestamps guard broker).broker ≡ broker)
        × ((run_cycle_sync e m now history timestamps guard broker).counts.orders_created ≡ 0)
  run_cycle-halted e m now history timestamps guard broker h =
      let (cs, f, n, bound) = run_cycle-Fills m now e history timestamps guard broker in
      let s = run_cycle_sync e m now history timestamps guard broker in
      let (g, b, none_left) = Fills-halted m now cs guard s.guard broker s.broker h f in
      (g, b, omega (arith, n, none_left))
