-- ===== src/Paper/Cycle/Orders/Tests.antt =====
-- Two cycles over one symbol with data and one without.
use bot_crypto.Prelude.{
  ℕ, ◌≤◌, String, ◌≡◌, refl, true, false, none, some, List, [], ◌∷◌, length, map, count, Bool, All,
  str_eq, if◌then◌else◌,
}
use bot_crypto.Prelude.Int.{ℤ}
use bot_crypto.Float.{whole}
use bot_crypto.Float.Fixed.{fixed}
use bot_crypto.Dict.{Dict, keys}
use bot_crypto.Market.Candles.{Ohlcv}
use bot_crypto.Research.Router.{
  AssetContext, Entry, RouterGates, route, is_stale, data_quality, current_regime, passes, score_of,
  scan, decide, no_trade,
}
use bot_crypto.Research.Router as Router
use bot_crypto.Risk.Policy.{Risk}
use bot_crypto.Risk.Manager.{
  RiskManager, check_signal, sized, compute_position_size, final_notional, clamped_notional,
  max_remaining, current_exposure, risk_amount, drawdown_pct, daily_loss_reached,
}
use bot_crypto.Execution.Idempotency.{initial, member, add, is_duplicate, register}
use bot_crypto.Paper.Broker.{PaperBroker, execute_signal, meet, open_new}
use bot_crypto.Paper.Adapter.{
  AlphaSignal, long, stop_of, derived_stop_pct, signal_of, as_adapted, alpha_signal_to_signal,
}
use bot_crypto.Signal.{checked}
use bot_crypto.Paper.Candidates.{
  build_portfolio, ranked, rank_in, consider_all, consider, reject, accept, is_seen, same_key,
  group_of, count_of,
}
use bot_crypto.Paper.Cycle.Stages.{Engine, no_counts}
use bot_crypto.Paper.Cycle.Routing.{
  requests, route_all, route_symbol, consult, follow, generate, keep_alphas, keep_matching,
  as_routed, trim_to_pit, is_wanted, is_no_trade, request,
}
use bot_crypto.Paper.Cycle.Orders.{
  run_cycle_sync, after_routing, consolidate, candidate_of, process_all, process, order_found,
  order, adapt, judge, settle, filled, approved_signal, find_alpha, is_alpha_of,
}
use bot_crypto.Paper.Cycle.Orders.Fills.{Fills, run_cycle-Fills}
use bot_crypto.Paper.Cycle.Routing.PointInTime.{known_history}
use bot_crypto.Paper.Cycle.Orders.Future.{run_cycle-known_history}
use bot_crypto.Paper.Cycle.Orders.Halt.{run_cycle-halted}
use bot_crypto.Paper.Cycle.Orders.Once.{Input, AreOnce, Executes, run_cycles, executed_once}
use bot_crypto.Paper.Cycle.Orders.Sums.{IsSettled, run_cycle-IsSettled}

abbrev context : AssetContext
context = record {
  asset = "BTC";
  timestamp = 1_000_000;
  market_regime = some "TREND_UP";
  bars_in_window = some 90;
  window_end_ts = 900_000;
}

abbrev alpha : AlphaSignal ℤ
alpha = record {
  family = "momentum";
  symbol = "BTC/USDT";
  timestamp = 1_000_000;
  direction = long;
  entry_reference = whole 20;
  structural_stop = whole 10;
  timeframe = "5m";
  metadata = [];
  effective_stop = none;
}

abbrev asset_of : String → String
asset_of s = if str_eq s "BTC/USDT" then "BTC" else s

abbrev usdt_pair : String → String
usdt_pair s = if str_eq s "BTC" then "BTC/USDT" else s

-- Both families and the registry look at the bars only for whether there are any.
abbrev engine : Engine ℤ
engine = record {
  asset_of = asset_of;
  usdt_pair = usdt_pair;
  sorted = λ symbols. symbols;
  intent_cloid = λ symbol strategy direction ts. symbol;
  build_context = λ asset bars ts. elim bars [ [] ↦ none | (b ∷ bs) ↦ some context ];
  gates = record {
    require_confirmed = true;
    require_regime_match = true;
    min_data_quality = whole 0;
    require_fresh_context = true;
  };
  strategy_map =
      (
        "trend",
        record {
          family = some "momentum";
          regimes = [];
          direction = "LONG";
          enabled = true;
          status = "CONFIRMED";
          priority = none;
        },
      )
      ∷ [];
  families = ("momentum", λ bars. some (alpha ∷ [])) ∷ [];
}

abbrev bar : Ohlcv ℤ
bar = record {
  symbol = "BTC/USDT";
  timestamp = 900_000;
  open_price = whole 20;
  high = whole 20;
  low = whole 20;
  close = whole 20;
  volume = whole 1;
}

abbrev history : Dict (List (Ohlcv ℤ))
history = ("BTC/USDT", bar ∷ []) ∷ ("ETH/USDT", []) ∷ []

abbrev timestamps : Dict ℕ
timestamps = ("BTC/USDT", 1_000_000) ∷ []

abbrev policy : Risk ℤ
policy = record {
  max_risk_per_trade_pct = whole 1;
  max_daily_loss_pct = whole 3;
  max_weekly_loss_pct = whole 6;
  max_daily_drawdown_pct = whole 5;
  max_total_drawdown_pct = whole 10;
  max_open_positions = 3;
  max_trades_per_day = 20;
  max_consecutive_losses = 3;
  consecutive_loss_cooldown_minutes = 60;
  max_asset_exposure_pct = whole 20;
  max_total_exposure_pct = whole 50;
  min_order_notional_usdt = whole 10;
  max_order_notional_usdt = whole 1000;
  default_stop_loss_pct = whole 1;
  default_take_profit_pct = whole 2;
  kill_switch_enabled = true;
  live_trading_enabled = false;
}

abbrev manager : RiskManager ℤ
manager = record {
  risk = policy;
  equity = whole 2000;
  open_positions = [];
  daily_pnl = whole 0;
  weekly_pnl = whole 0;
  trades_today = 0;
  consecutive_losses = 0;
  peak_equity = whole 2000;
  kill_switch_active = false;
}

abbrev broker : PaperBroker ℤ
broker = record {
  equity = whole 2000;
  initial_equity = whole 2000;
  slippage_bps = whole 0;
  commission_bps = whole 0;
  positions = [];
  closed_trades = [];
  fills_opened = 0;
  fills_closed = 0;
  risk_events = [];
}

one_order :
    (run_cycle_sync engine manager
      (whole 1)
      history
      timestamps
      initial
      broker).counts.orders_created
    ≡ 1
unfolding run_cycle_sync after_routing consolidate candidate_of process_all process order_found
    order adapt judge settle filled approved_signal find_alpha is_alpha_of requests request
    route_all route_symbol consult follow generate keep_alphas keep_matching as_routed trim_to_pit
    is_wanted is_no_trade route is_stale data_quality current_regime passes score_of scan
    Router.consider decide no_trade check_signal sized compute_position_size final_notional
    clamped_notional max_remaining current_exposure risk_amount drawdown_pct daily_loss_reached
    member add is_duplicate register stop_of derived_stop_pct signal_of as_adapted
    alpha_signal_to_signal checked count_of same_key is_seen group_of reject accept consider
    consider_all rank_in ranked build_portfolio execute_signal meet open_new
one_order = refl

run_cycle-Fills_example :
    (cloids : List String) × Fills manager
      (whole 1)
      cloids
      initial
      broker
      (run_cycle_sync engine manager (whole 1) history timestamps initial broker).guard
      (run_cycle_sync engine manager (whole 1) history timestamps initial broker).broker
    × (length cloids
        ≡ (run_cycle_sync engine manager
            (whole 1)
            history
            timestamps
            initial
            broker).counts.orders_created)
    × (length cloids ≤ 3)
run_cycle-Fills_example = run_cycle-Fills manager (whole 1) engine history timestamps initial broker

run_cycle-IsSettled_example :
    ((test : String → Bool)
      → count test (map (λ r. r.symbol) (requests engine history timestamps))
        ≡ count test (keys history))
    × IsSettled 0
        (length history)
        (length (
          consolidate engine
            (route_all engine
              (requests engine history timestamps)
              (record { counts = no_counts; routed = [] })).routed))
        (run_cycle_sync engine manager (whole 1) history timestamps initial broker).counts
run_cycle-IsSettled_example =
    run_cycle-IsSettled engine manager (whole 1) history timestamps initial broker (λ test ks. refl)

abbrev stopped : RiskManager ℤ
stopped = record manager { kill_switch_active = true }

run_cycle-halted_example :
    ((run_cycle_sync engine stopped (whole 1) history timestamps initial broker).guard ≡ initial)
    × ((run_cycle_sync engine stopped (whole 1) history timestamps initial broker).broker ≡ broker)
    × ((run_cycle_sync engine stopped
          (whole 1)
          history
          timestamps
          initial
          broker).counts.orders_created
        ≡ 0)
run_cycle-halted_example =
    run_cycle-halted engine stopped (whole 1) history timestamps initial broker refl

abbrev inputs : List (Input ℤ)
inputs =
    record {
      manager = manager;
      now = whole 1;
      history = history;
      timestamps = timestamps;
      broker = broker;
    }
    ∷ record {
      manager = manager;
      now = whole 2;
      history = history;
      timestamps = timestamps;
      broker = broker;
    }
    ∷ []

executed_once_example :
    (cs : List String) × Executes engine inputs cs initial (run_cycles engine inputs initial).0
    × (length cs ≡ (run_cycles engine inputs initial).1)
    × AreOnce cs
    × All (λ c. is_duplicate c initial ≡ false) cs
    × All (λ c. is_duplicate c (run_cycles engine inputs initial).0 ≡ true) cs
executed_once_example = executed_once engine inputs initial

-- The second bar is after the decision.
abbrev later : Dict (List (Ohlcv ℤ))
later = ("BTC/USDT", bar ∷ record bar { timestamp = 1_100_000; close = whole 50 } ∷ []) ∷ []

run_cycle-known_history_example :
    run_cycle_sync engine manager
      (whole 1)
      (known_history timestamps later)
      timestamps
      initial
      broker
    ≡ run_cycle_sync engine manager (whole 1) later timestamps initial broker
run_cycle-known_history_example =
    run_cycle-known_history engine manager (whole 1) later timestamps initial broker
