-- ===== src/Lib.antt =====
-- The session and execution core of the mintzy trading plugin. A trading session runs in a worker
-- process. Its engine places orders, books each confirmed fill in a signed session ledger, and at
-- the end of the day builds a plan that flattens what the session itself holds and nothing that
-- was bought by hand. The session's documents and control flags live in Redis, and the session
-- manager of each gunicorn process keeps a registry of the workers that it started. This
-- development models that core as executable definitions and proves what makes it correct.
--
-- The parts, and the files that model them:
--
-- * RedisKeys models utils/redis_keys.py: one function for each key builder, under its name.
-- * Symbols models utils/session_symbols.py: normalize_symbol, the allow-list of a session and
--   the filter of broker positions.
-- * Ledger and ExitPlan model utils/session_ledger.py: the fill arithmetic and the ledger update,
--   then the end-of-day plan (build_eod_exit_plan, whose loop bodies are legacy_row, ledger_row
--   and broker_row). A leading underscore of a Python name is dropped.
-- * EodExit models utils/eod_exit.py: the guard against a second exit, the decision on an empty
--   plan and the clearing of the books. Its callers are a step relation after
--   auto_trader_exposure_expansion/eod_exit.py.
-- * RateLimiter and OrderBatcher model two classes of
--   auto_trader_exposure_expansion/order_execution.py, which the _org package repeats.
-- * PaperEngine models the paper engine of auto_trader_exposure_expansion/fills.py.
-- * ClosePosition models _close_position of
--   auto_trader_exposure_expansion_org/position_maintenance.py.
-- * Registry models session_worker/registry.py: the local registry of workers and the pid and
--   meta keys (Worker is WorkerProcess of worker_process.py), with the reconciliation and the
--   forced end in Registry/Termination.
-- * Lifecycle models session_worker/lifecycle.py: prepare_for_live_start, ensure_worker_stopped
--   and the stops; Lifecycle/Start models start_session, cut into admission, parse_entries and
--   launch; Lifecycle/SymbolExit models exit_symbol_for_session and stop_all_sessions, and
--   Lifecycle/SymbolExit/Served the part of the monitor loop in session_worker/trader_worker.py
--   that serves the exit of a symbol.
-- * StopJobs models session_worker/stop_jobs.py, and StopJobs/Simulation the two simulation stops
--   of lifecycle.py.
-- * Machine is the interface to the operating system, the clock and the JSON of the session
--   manager.
-- * Pyramid models the capital pyramid of auto_trader_exposure_expansion: Pyramid/Ranks the
--   tables of constants.py, Pyramid/Document, Pyramid/Merge and Pyramid/Entries
--   pyramid_config.py, Pyramid/Lookup leverage.py, Pyramid/Cash broker_cash.py,
--   Pyramid/Unrealized the profits and exits that it asks for, Pyramid/Simulator the trader's
--   attributes, and Pyramid/Apply and Pyramid/Stop pyramid.py, whose function is cut at its early
--   returns.
-- * Decimals is the interface to the literals, the rounding and the conversions of Python's
--   numbers; Mongo, in Pyramid/Merge, and Broker, in Pyramid/Simulator, are those to the database
--   and the broker.
-- * OrderFill models auto_trader_exposure_expansion_org/order_fill.py: the order book and the
--   quantity of an exit, OrderFill/Fills what a fill does (with _finalize_symbol_exit_fill of
--   exit_finalization.py), and OrderFill/Reconcile a round of _reconcile_pending_orders.
-- * Executor models ParallelOrderExecutor of
--   auto_trader_exposure_expansion_org/order_execution.py: the outcome of one order, and the
--   moves of submit_orders and of its workers on the two queues.
-- * Exposure models auto_trader_exposure_expansion_org/exposure_risk.py: leverage, exposure and
--   its cap, and in Exposure/FreeCash the free cash. Analysis models analysis.py there.
-- * Cycle models the trading cycle in trader.py of that package: Cycle the stop loss and the
--   queueing of an order, Cycle/Trade the body of the loop over the signals with its scenarios,
--   and Cycle/Results the processing of the executor's results.
-- * LiveExit models the exits of that package: LiveExit the broker's positions as
--   session_broker.py reads them, LiveExit/Target the position and the order of a single exit,
--   LiveExit/Single exit_single_position of eod_exit.py, and LiveExit/EndOfDay the end-of-day
--   exit there, which uses the plan of ExitPlan, the guard of EodExit and the state of Cycle.
-- * Redis and Number are interfaces: the Redis client with the JSON functions, and Python's
--   floats. Base holds texts, dictionaries, sets and integers; Examples holds the concrete
--   inputs.
--
-- The parts meet as in the program: a fill goes to the paper book and to the ledger, the plan
-- reads the ledger, the allow-list and the broker's positions, the allow-list reads Redis through
-- the key builders, and the guard runs the plan at most once at a time. The manager's starts and
-- stops go through the registry, and what the worker hands over goes into the stop job. In the
-- live package the cycle sends its orders to the executor and makes the accepted ones pending,
-- the reconciler turns pending orders into fills, and an exit marks its symbol, which the next
-- cycle then leaves alone.
--
-- Conventions. Texts are lists of code points, and upper, lower and strip act on ASCII. A Python
-- int that can be negative is an integer with constructors pos and negsuc; a quantity that the
-- code has tested to be positive is a natural number. The end-of-day plan only copies prices, so
-- it is generic in them; the engines compute with abstract floats. Times are ticks of a clock
-- whose readings are arguments. A set is the ascending list that sorted gives. A loop is a
-- recursion on a list, but for the wait on a pid, whose rounds are bounded by the milliseconds of
-- its timeout: each round sleeps half a second, so that the deadline comes first. State that
-- Python mutates is passed along, and a section under a lock is one step.
--
-- Not modelled: the health monitor of the session manager, the body of the worker process but for
-- the exit of a symbol, the HTTP routes, the start-up of the trading loops and their waits for
-- candles and predictions, the paper package's own cycle, the documents of an exit, the risk
-- exits on ticks, the broker, feed and database clients, and everything that only logs or writes
-- files.
pub mod Analysis
pub mod Base
pub mod ClosePosition
pub mod Cycle
pub mod Decimals
pub mod EodExit
pub mod Examples
pub mod Executor
pub mod ExitPlan
pub mod Exposure
pub mod Ledger
pub mod Lifecycle
pub mod LiveExit
pub mod Machine
pub mod Number
pub mod OrderBatcher
pub mod OrderFill
pub mod PaperEngine
pub mod Pyramid
pub mod RateLimiter
pub mod Redis
pub mod RedisKeys
pub mod Registry
pub mod StopJobs
pub mod Symbols
