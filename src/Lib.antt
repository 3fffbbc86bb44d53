-- ===== src/Lib.antt =====
-- A verification library for the trading bot of this repository, a Python program that scans crypto markets, sizes
-- and gates its orders, and trades on paper or in a backtest.
--
-- A strategy produces a signal. The risk manager approves it with a position size, or blocks it; the paper broker
-- opens or closes a position for it, and sweeps its positions against prices and candles; the session's kill switch
-- watches the equity and the results. Before a live session the gate checks the settings, the idempotency guard
-- refuses to send an order twice, and the desk has its own kill switch and an event store with a hash chain. Data
-- comes in under a quota and is validated against a timeframe. The backtest engine replays candles through a
-- strategy, at the costs of its commission and slippage models. The research tools register an experiment before it
-- runs, recompute the results of its backtest and gate them; the router chooses a strategy for an asset, and the
-- selector keeps those of the paper session, on symbols that pass the scanner's filters. The orchestrator runs paper
-- sessions; each feeds the bars of the active symbols to a cycle, which routes a strategy for each, adapts and ranks
-- its alpha signals, and takes each candidate through the risk manager to the broker. The journal records trades
-- and blocked signals. The files and the code that they model:
--
--   Market/Quota        src/trading_bot/market_data/quota.py: FixedWindowQuota. A provider's deque is the list of
--                       its granted times, oldest first; `check` and `consume` take the time of the clock.
--   Market/Timeframe    src/trading_bot/market_data/timeframe.py: infer_timeframe_from_candles and
--                       validate_timeframe, over the timestamps of the candles.
--   Market/Candles      src/trading_bot/market_data/candle_filter.py and htf_pit.py: the removal of unfinished
--                       candles and the state of a higher timeframe at an instant.
--   Signal              src/trading_bot/strategies/types.py: Signal.
--   Risk/Policy         src/trading_bot/config/risk.py: Risk with its bounds and invariants.
--   Risk/Manager        src/trading_bot/risk/manager.py: RiskManager. A position is the notional it carries, if any.
--   Paper/Broker        src/trading_bot/paper/broker.py: PaperBroker, in Types (positions and exits) and Orders
--                       (execute_signal, _close_position, check_positions, check_positions_ohlc,
--                       reconcile_session). Both loops over the positions are `sweep` with a rule for the exit.
--   Paper/KillSwitch    src/trading_bot/paper/kill_switch.py: KillSwitch.
--   Paper/Portfolio     src/trading_bot/paper/portfolio_manager.py: PortfolioManager.
--   Paper/Recovery      src/trading_bot/paper/startup_recovery.py: recover_startup_positions.
--   Paper/Selector      src/trading_bot/paper/strategy_selector.py: StrategySelector. The files of its directory
--                       are a dictionary from a strategy's id to what to_dict writes.
--   Paper/Candidates    src/trading_bot/paper/candidate_portfolio.py: build_portfolio.
--   Paper/Adapter       src/trading_bot/paper/signal_adapter.py: alpha_signal_to_signal, on the AlphaSignal of
--                       src/trading_bot/research/types.py.
--   Paper/Cycle         src/trading_bot/paper/paper_cycle.py: PaperCycleEngine.run_cycle_sync, in Stages (the
--                       counters and what the engine is built with), Routing (contexts, router, families) and Orders
--                       (candidates, risk, broker), and RouteOnlyEngine. It joins the router, the adapter, the
--                       candidates, the idempotency guard, the risk manager and the broker.
--   Paper/Session       src/trading_bot/paper/harness.py: PaperSessionRunner.run_session with a broker and the
--                       trading engine.
--   Paper/Orchestrator  src/trading_bot/paper/paper_orchestrator.py: PaperOrchestrator.run.
--   Execution/CostModel  src/trading_bot/execution/cost_model.py: ExecutionCostModel, compute_costs and planned_net_rr.
--   Execution/LiveGate  src/trading_bot/execution/live_gate.py: LiveTradingGate. The operating system is a record.
--   Execution/Idempotency  src/trading_bot/execution/idempotency.py: IdempotencyGuard.
--   Desk/KillSwitch     src/trading_bot/paper/kill_switch_v2.py and domain/enums/kill_switch.py.
--   Desk/EventStore     src/trading_bot/storage/event_store.py and domain/events/{journal,hashing}.py. The digest of
--                       an event is a parameter.
--   Backtest/Engine     src/trading_bot/backtesting/engine.py and types.py: the loop of `run` with both fills. The
--                       strategy, the commission and the slippage are parameters.
--   Backtest/Costs      src/trading_bot/backtesting/commissions.py and slippage.py, with the engine's use of them.
--   Research/Router     src/trading_bot/research/strategy_router.py and router_gates.py: StrategyRouter.route.
--   Research/Registry   src/trading_bot/research/registry.py: ExperimentRegistry. Its two tables are a dictionary and
--                       a list; each method is translated with its SQL.
--   Research/Accounting  src/trading_bot/research/canonical_accounting.py, over the trades of the backtest engine.
--   Research/Gates      src/trading_bot/research/gates.py, with evidence.py (the classes) and market_provenance.py
--                       (assert_operational), over the results of the accounting.
--   Research/Admission  src/trading_bot/research/admission.py: AdmissionController.
--   Research/Integrity  src/trading_bot/research/data_integrity.py: DataIntegrityChecker.
--   Structure           src/trading_bot/market_structure/detector.py, with the TechnicalZone of
--                       src/trading_bot/trade_journal/types.py: the zones of a list of candles. The mean
--                       is a parameter.
--   Observability/Journal  src/trading_bot/observability/journal.py: record_open, record_close and record_blocked.
--                       Formats has the texts of the ids, over the decimal numbers of Prelude/Decimal.
--   Scanner/Filters     src/trading_bot/scanner/filters.py: the filters of volume, spread and range.
--   Prelude, Float, Dict  numbers, lists and texts; an interface of floating-point numbers; Python's dictionaries
--                       as association lists in insertion order.
--
-- An object is a record, and a method that changes it a function to the new record and the result. Each stateful
-- component has a type `Call` of the calls that change it, and `run` makes a list of them. An exception is a value:
-- an error, or `none` where its kind does not matter. Every function is total by structural recursion, but the
-- loop of the orchestrator, which has no bound of its own: it runs on fuel, and one more than the sessions it can
-- still run is enough.
--
-- The numbers of the code are floats. The models take any type with the operations of `Float`, and a theorem that
-- needs laws of them takes these as a hypothesis: IsOrdered (a total order, so no NaN), IsComparable (the
-- comparisons agree), IsExact and IsUnrounded (sums and products that do not round) and IsSigned (what rounding
-- keeps of signs). Float/Fixed and Float/Integers have instances that run, with four decimals and with none.
-- Division is total here and raises in Python on zero: no modelled code divides by a value that it has not tested,
-- but the fill price and the slippage factor in the paper broker. The quota's clock counts in whole ticks.
--
-- Not modelled: log lines and the texts of messages, which no code reads back; the metrics that the backtest engine
-- itself reports; threads, as the lock of the quota makes its calls atomic; failures of files, but in the live gate,
-- and of databases;
-- and the parts that are input and output: the command line, the exchange adapters, the stores on disk, the reports
-- and the charts. The ranking of the scanner, the indicators and the statistics of the research tools have no
-- models yet. In the cycle the agents of the assets, the families of strategies and the hash of an intent are
-- parameters, and the exceptions of the modelled router, risk manager and broker have no place.
pub mod Prelude
pub mod Float
pub mod Dict
pub mod Signal
pub mod Market
pub mod Risk
pub mod Paper
pub mod Execution
pub mod Desk
pub mod Backtest
pub mod Research
pub mod Observability
pub mod Scanner
pub mod Structure
