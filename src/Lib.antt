-- ===== src/Lib.antt =====
-- Theta-plus: the feature and signal engines, the execution service, the paper book and the replay
-- of backend/, the Python server that reads NIFTY option data, decides on research signals, and may
-- place orders with a broker.
--
-- The parts and how they interact:
--   * Each cycle computes features of the market: `build_features` (backend/engines/feature_engine.py)
--     from a snapshot, its bars and its history. `evaluate` (backend/engines/signal_engine.py) turns
--     them, the configuration and the memory of the last signals into a decision, and
--     `SignalMemory.apply` (backend/engines/signal_memory.py) records it.
--   * `ExecutionService.attempt_entry` (backend/execution/service.py) takes a decision, asks the gate
--     (backend/execution/gate.py), which asks the risk engine (risk_engine.py) and looks at the last
--     reconciliation (reconciliation.py), and sends an order through the adapter of the broker.
--   * The paper book (backend/paper/paper_engine.py) follows the same decisions with hypothetical
--     positions, and the outcome engine (backend/replay/outcome_engine.py) judges recorded ones on the
--     prices that came later.
--
-- The files:
--   * Base: names of the libraries, lists, texts, dictionaries, Python's integers and floats,
--     exceptions (Base/Raises), and methods that change a state and may raise (Base/Effects).
--   * Clock, Config, Market: backend/lib/dates.py, backend/lib/config.py, and the features of
--     backend/models/feature_models.py and market_models.py.
--   * Engine/StateMachine, Engine/Rules, Engine/Score, Engine/Memory: the files of the same names in
--     backend/engines (rule_engine.py has Rules/Ce, Rules/Pe and their common Rules/Parts).
--   * Engine/Health, Engine/Signal: signal_engine.py. `Evaluate.verdict` is the chain of branches of
--     `evaluate`, in the order of the source; Filters and Reasons are its tests and its texts.
--   * Engine/Session: runs of `evaluate_and_apply`, one tick after the other.
--   * Execution/Models, Risk, Instruments, Gate, Reconciliation: the files of backend/models and
--     backend/execution with these names. `Gate.demand` is the step of `can_execute_order` that
--     records a check and returns early. Execution/Positions holds the net quantities by contract.
--   * Execution/Instruments/Mapping: `validate_instrument_map` of instruments.py. Mapping has its tables
--     and its report, Rows the loop, Status the report on the file that the environment names.
--   * Execution/Service: service.py. State holds the fields of the service, Orders the persistence and
--     the lifecycle of an order, Entry and Submit the way of `attempt_entry` to the adapter, Startup the
--     constructor, the kill switch, the loss lock, the exit check and `startup_reconcile`. Each
--     method is a function from the state to a result or an exception and the state after it.
--   * Features: Chain (atm_engine.py, pcr_engine.py), Oi, Bars (vwap_engine.py, price_engine.py) and Build
--     (feature_engine.py) model backend/engines; Health models backend/data/validators.py.
--   * Paper: backend/paper/paper_engine.py. Engine holds the book, its entry and `_replace`, Update the
--     exits and `on_tick`, Summary the totals. Each method is a function from the book to its result
--     and the book after it; Runs are sequences of their calls.
--   * Replay: backend/replay. Outcome holds the observations of a leg and the walk of `evaluate_outcome`,
--     Build the function `build_outcomes` (outcome_engine.py); Feed is `ReplayFeed`, Session the loop of
--     `replay_signals` with its reset at each new date (replay_engine.py), Metrics `compute_metrics`
--     (metrics.py) and Run `run_replay` (backtest_engine.py).
--   * Chart: backend/chart/markers.py. Alerts: backend/alerts, the messages (formatter.py) and the
--     dispatch of the service (service.py).
--   * Collector: personal-trading-phase1/app. RateGate holds the scripts that Redis runs and the loop of
--     `acquire` (rate_gate.py), Policy the functions of policy.py.
--   * Pipeline: backend/pipeline.py. Tick holds one iteration: the features, the signal engine, the paper
--     book, the execution service, and the freshness gate `refresh_data_health` over what is shown.
--   * Examples: test data, and the theorems applied to it.
--
-- What stands outside: floats and their formatting are the parameters `Float` and `Format`, of
-- which no law is assumed but, in Replay/Excursions, the order of floats. The adapter, the disk
-- behind the journal and the hash function are fields of `Setting`, of which nothing is assumed
-- either: they may answer or raise anything, at any time, and depend on a world that the service
-- does not see. The document of a save is a value: what `model_dump` and `json.dumps` raise is part
-- of the write, and a restart is taken to read back what was written, since pydantic and json are
-- not part of the program. `sent` is no field of the program: it records what was handed to the
-- adapter, and the journal at that moment; `confirmed` in Alerts records the alerts whose send
-- returned. The functions `uuid5`, `sha256`, `mean`, `median` and `randint` of the standard library
-- are arguments, and so are the moments that Redis tells its scripts. The ids that `uuid4` gives
-- are arguments; runs of the paper book take them to be new.
--
-- Bounds: every loop is a recursion on a list but for `windows`, whose fuel is the number of days,
-- of which each window takes one at least. Timestamps are natural numbers of microseconds on the
-- wall clock of India, with days as `toordinal` numbers them; a cooldown that would end after the
-- year 9999 raises OverflowError. Every call is atomic: the lock sees to it between entries, while
-- the program may run another method of the service at an `await` of a call, which is left out.
--
-- Not modelled: the texts that only explain (details, messages) and the wall-clock stamps of execution
-- records, the status panel, the validators of the configuration (their effect is in the types), the
-- loading of files, and the parts of the repository around these: the data providers, what
-- the pipeline does besides its iteration (log, dashboard, markers, alerts, sheets), the reports and CSV
-- texts of the metrics, research, sheets,
-- storage, the HTTP routers, live-app, the rest of personal-trading-phase1 and the frontend.
pub mod Base
pub mod Clock
pub mod Config
pub mod Market
pub mod Engine
pub mod Execution
pub mod Paper
pub mod Replay
pub mod Features
pub mod Alerts
pub mod Chart
pub mod Collector
pub mod Pipeline
pub mod Examples
