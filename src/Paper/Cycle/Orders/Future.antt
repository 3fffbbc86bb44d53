-- ===== src/Paper/Cycle/Orders/Future.antt =====
-- A cycle does not look ahead.
use bot_crypto.Prelude.{ℕ, ◌≡◌, ap, List, []}
use bot_crypto.Float.{Float}
use bot_crypto.Dict.{Dict}
use bot_crypto.Market.Candles.{Ohlcv}
use bot_crypto.Execution.Idempotency.{IdempotencyGuard}
use bot_crypto.Risk.Manager.{RiskManager}
use bot_crypto.Paper.Broker.{PaperBroker}
use bot_crypto.Paper.Cycle.Stages.{Engine, no_counts}
use bot_crypto.Paper.Cycle.Routing.PointInTime.{known_history, route_all-known_history}
use bot_crypto.Paper.Cycle.Orders.{run_cycle_sync, after_routing}

module _ {F : Type 0} ⦃fl : Float F⦄ where
  -- A cycle is the same, in its counters, its guard and its broker, on a history and on that history without the bars
  -- after each symbol's decision timestamp, whatever the registry and the families compute from the bars they get.
  pub run_cycle-known_history :
      (e : Engine F) (m : RiskManager F) (now : F) (history : Dict (List (Ohlcv F)))
      (timestamps : Dict ℕ) (guard : IdempotencyGuard) (broker : PaperBroker F)
      → run_cycle_sync e m now (known_history timestamps history) timestamps guard broker
        ≡ run_cycle_sync e m now history timestamps guard broker
  unfolding run_cycle_sync
  run_cycle-known_history e m now history timestamps guard broker =
      ap (λ r. after_routing e m now guard broker r)
        (route_all-known_history e timestamps history (record { counts = no_counts; routed = [] }))
