-- ===== src/Lib.antt =====
-- Deterministic market replay: a limit order book, an event loop, simulated execution and accounting.
--
-- The program replays historical market events (book updates and trades) against strategies. A
-- market event first updates the historical order book; a strategy then sees it and emits intents;
-- an intent becomes an order that reaches the exchange after a latency, as an internal event of the
-- loop; at its arrival it takes visible depth or rests behind a queue, and later trades fill it; the
-- fills go to a portfolio. The model follows these calls with explicit states: a function that
-- throws returns an error value, and one that changes an object returns the changed one.
--
-- The files and the code they are about, with paths from the root of the repository:
--   Base                 numbers, integers, lists, results with errors, text; shared by all
--   Types                include/replay/types.hpp, src/types.cpp: Decimal holds decimal prices, Names
--                        the names and plain numbers; Digits, Format, RoundTrip and Numbers are proofs
--   Market               the events of include/replay/market_feed.hpp, src/market_feed.cpp
--   Feed                 the CSV parser of src/market_feed.cpp: Lines splits and trims, Canonical is the
--                        canonical text of an event; Normalized, Accepted, Places, Located, Splits,
--                        Rows and RoundTrip are proofs
--   OrderBook            include/replay/order_book.hpp, src/order_book.cpp: PriceMap is std::map with
--                        its comparison, State the canonical text; Find and Apply are about
--                        updates, Best about the queries, Checks about the self-checks
--   Order                include/replay/order.hpp, src/order.cpp; Lifecycle is its status
--                        machine, Name its names and its canonical text
--   Fill                 include/replay/fill.hpp
--   Portfolio            include/replay/portfolio.hpp, src/portfolio.cpp: Lots holds the checked
--                        arithmetic and the matching of lots, Mark the mark to market; Matching,
--                        Balance, Settle, Invariant, Sums, Accounts and Equity are proofs
--   Strategy             the intents of include/replay/strategy.hpp
--   Execution            include/replay/execution_simulator.hpp, src/execution_simulator.cpp: Fee is
--                        the fee model; Rounding, Walk, Market and Outcome are proofs
--   EventLoop            include/replay/event_loop.hpp, src/event_loop.cpp, and the simulation clock:
--                        Scheduler is the clock and the scheduler, Trace the canonical trace; Timely,
--                        Steps, Refusals, Run, Ends and Traced are proofs, and Keeps is about
--                        invariants of a run
--   Latency              include/replay/latency_execution.hpp, src/latency_execution.cpp: Queue is
--                        the queue fraction, State the submission of orders and cancels, Arrival a
--                        limit order against the depth, Trade a trade against the resting orders;
--                        Accepted, Passive, Matched, Traded, Growth and Changes are proofs
--   Runner               the strategy interface and run_latency_aware_strategy; Plain is run_strategy
--                        of src/strategy.cpp; Budget, Timers, Answers and
--                        Collects are proofs
--   QueueImbalance       strategies/queue_imbalance_strategy.hpp and .cpp; Volume and Signal are proofs
--   Replay               include/replay/replay_engine.hpp, src/replay_engine.cpp: the merge of the
--                        feeds; Config is the configuration and the strategies, Engine the handlers of
--                        ReplayEngine::run, Outcome its setting, metrics and result; Script is the
--                        text of scripted intents, with the proofs Pieces, Reads and RoundTrip,
--                        Settings that of a configuration, with the proof States, and Hash the text of
--                        a hash, with the proof Hex; Merge, Budget,
--                        Ends, Accounted, Metrics, Returned, Complete and Inputs are proofs
--   Tests                data, tests and examples
--
-- Conventions. An int64_t is an integer whose range is tested where the code tests it, and a
-- uint64_t a number; the counters of orders, fills and internal events wrap at 2^64. An __int128 is
-- an integer without bounds: its values there are sums and products of a few int64_t and stay
-- within it. A std::map is a list sorted by its comparison, and a std::priority_queue a list in the
-- order in which it is popped; std::stable_sort is an insertion sort that keeps the order of equal
-- elements. The vectors that hold the state of an execution are lists, with the indexes of the code.
-- After an exception only the exception is left, which stands for its message. A stream is the list
-- of its lines.
--
-- Fuel. Only EventLoop::run takes fuel, one for each event and one for the end. The handlers may
-- schedule events, so that what is enough depends on them: a budget in their state pays for each.
-- The number of historical events, of scheduled events and the budget are enough together.
-- For ReplayEngine::run three for each event (itself, an order and its cancel) and two for each
-- scripted intent are enough.
--
-- Parameters. A strategy is a record of three functions on a state of its own, each of which returns
-- the intents it emits; std::function handlers are functions on a state and on the loop. The numbers
-- of type double are a type with the three operations that the queue imbalance strategy uses, and
-- nothing is assumed of them; what std::stod reads and what load_replay_config does with it are
-- parameters in the same way.
--
-- Not modelled: the canonical texts of configurations, fills, lots and intents; the artifacts of a replay and the files; the Python bindings, the command line and
-- the benchmarks. The non-const access to the clock of the loop is not offered to handlers.
pub mod Base
pub mod Types
pub mod Market
pub mod OrderBook
pub mod Order
pub mod Fill
pub mod Portfolio
pub mod Strategy
pub mod Execution
pub mod EventLoop
pub mod Latency
pub mod Runner
pub mod QueueImbalance
pub mod Feed
pub mod Replay
pub mod Tests
