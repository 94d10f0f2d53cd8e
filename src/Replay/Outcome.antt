-- ===== src/Replay/Outcome.antt =====
-- The rest of `ReplayEngine::run` of src/replay_engine.cpp: its setting, its metrics and its result.
-- The hashes and the artifacts of the result are texts and stand apart.
use cpp_market_replay_engine.Feed.{parse_book_updates_csv, parse_trades_csv}
use cpp_market_replay_engine.Base.Text.{Text}
use cpp_market_replay_engine.Base.{
  length, Result, err, ok, ◌>>=◌, ℕ, ◌+◌, ◌-◌, Option, none, some, List, [], ◌∷◌,
}
use cpp_market_replay_engine.Types.{TimestampNs, OrderStatus}
use cpp_market_replay_engine.Market.{MarketEvent, MarketEventType, event_type, event_key}
use cpp_market_replay_engine.OrderBook.{OrderBook, empty_book}
use cpp_market_replay_engine.Order.{Order}
use cpp_market_replay_engine.Fill.{Fill}
use cpp_market_replay_engine.Portfolio.{Portfolio, make_portfolio}
use cpp_market_replay_engine.Portfolio.Mark.{PortfolioMark, mark_to_market}
use cpp_market_replay_engine.Execution.Fee.{make_fee_model}
use cpp_market_replay_engine.EventLoop.{EventTraceEntry, make_event_loop, Running, run}
use cpp_market_replay_engine.Latency.State.{make_execution}
use cpp_market_replay_engine.QueueImbalance.{Doubles}
use cpp_market_replay_engine.Replay.{merge_events}
use cpp_market_replay_engine.Replay.Config.{ReplayConfig, make_strategy}
use cpp_market_replay_engine.Replay.Engine.{ReplayMetrics, Replaying, replay_handlers}

abbrev pub empty_metrics : ReplayMetrics
empty_metrics = record {
  market_events_processed = 0;
  book_updates_processed = 0;
  trades_processed = 0;
  internal_events_processed = 0;
  strategy_intents = 0;
  orders_submitted = 0;
  orders_filled = 0;
  orders_partially_filled = 0;
  orders_canceled = 0;
  orders_rejected = 0;
  fills = 0;
}

-- The loop over the events before the run.
abbrev pub count_event_type : MarketEventType → ReplayMetrics → ReplayMetrics
count_event_type MarketEventType.book_updates m = record m {
  book_updates_processed = m.book_updates_processed + 1;
}
count_event_type MarketEventType.trades m = record m { trades_processed = m.trades_processed + 1 }

unfoldable pub count_market_events : List MarketEvent → ReplayMetrics → ReplayMetrics
count_market_events [] m = m
count_market_events (e ∷ events) m = count_market_events events (count_event_type (event_type e) m)

abbrev pub count_status : OrderStatus → ReplayMetrics → ReplayMetrics
count_status OrderStatus.filled m = record m { orders_filled = m.orders_filled + 1 }
count_status OrderStatus.partially_filled m = record m {
  orders_partially_filled = m.orders_partially_filled + 1;
}
count_status OrderStatus.canceled m = record m { orders_canceled = m.orders_canceled + 1 }
count_status OrderStatus.rejected m = record m { orders_rejected = m.orders_rejected + 1 }
count_status _ m = m

unfoldable pub count_order_statuses : List Order → ReplayMetrics → ReplayMetrics
count_order_statuses [] m = m
count_order_statuses (o ∷ orders) m = count_order_statuses orders (count_status o.status m)

abbrev pub start_timestamp : List MarketEvent → TimestampNs
start_timestamp [] = 0
start_timestamp (e ∷ events) = (event_key e).timestamp_ns

-- `final_portfolio_mark` hands on what `mark_to_market` returns.
abbrev pub final_portfolio_mark : Portfolio → OrderBook → Result (Option PortfolioMark)
final_portfolio_mark portfolio book = mark_to_market portfolio book

pub record ReplayRunResult (D : Type 0) : Type 0 where
  pub config : ReplayConfig D
  pub trace : List EventTraceEntry
  pub final_time_ns : TimestampNs
  pub processed_event_count : ℕ
  pub final_book : OrderBook
  pub portfolio : Portfolio
  pub final_mark : Option PortfolioMark
  pub final_orders : List Order
  pub fills : List Fill
  pub metrics : ReplayMetrics
  pub start_timestamp_ns : TimestampNs
  pub end_timestamp_ns : TimestampNs

module _ {D : Type 0} (doubles : Doubles D) where
  -- What a run starts from.
  unfoldable pub start_replay : ReplayConfig D → List MarketEvent → Result (Running (Replaying D))
  start_replay config events = do
    fee_model ← make_fee_model config.fee_rate_ppm
    execution ← make_execution (record {
      order_latency = config.order_latency;
      fee_model = fee_model;
      queue_fraction_ppm = config.queue_fraction_ppm;
      cancel_latency = record { count = 0 };
    })
    strategy ← make_strategy doubles config
    ok (record {
      loop = make_event_loop events;
      book = empty_book;
      trace = [];
      state = record {
        strategy = strategy;
        execution = execution;
        strategy_intents = 0;
        portfolio = make_portfolio config.initial_cash;
        applied_fill_count = 0;
      };
    })

  -- The metrics after the run.
  unfoldable pub final_metrics : List MarketEvent → Running (Replaying D) → ReplayMetrics
  final_metrics events r =
      let counted = count_market_events events empty_metrics in
      let orders = r.state.execution.orders in
      count_order_statuses orders (record counted {
        market_events_processed = length events;
        internal_events_processed = length r.trace - length events;
        strategy_intents = r.state.strategy_intents;
        orders_submitted = length orders;
        fills = length r.state.execution.fills;
      })

  unfoldable pub finish_replay :
      ReplayConfig D → List MarketEvent → Running (Replaying D) → Result (ReplayRunResult D)
  finish_replay config events r = do
    mark ← final_portfolio_mark r.state.portfolio r.book
    ok (record {
      config = config;
      trace = r.trace;
      final_time_ns = r.loop.clock.now;
      processed_event_count = length r.trace;
      final_book = r.book;
      portfolio = r.state.portfolio;
      final_mark = mark;
      final_orders = r.state.execution.orders;
      fills = r.state.execution.fills;
      metrics = final_metrics events r;
      start_timestamp_ns = start_timestamp events;
      end_timestamp_ns = r.loop.clock.now;
    })

  abbrev pub finish_run :
      ReplayConfig D
      → List MarketEvent
      → Option (Result (Running (Replaying D)))
      → Option (Result (ReplayRunResult D))
  finish_run config events none = none
  finish_run config events (some (err e)) = some (err e)
  finish_run config events (some (ok r)) = some (finish_replay config events r)

  -- The run over a merged history.
  unfoldable pub replay_events :
      ℕ → ReplayConfig D → List MarketEvent → Option (Result (ReplayRunResult D))
  replay_events fuel config events = elim (start_replay config events) [
    | err e ↦ some (err e)
    | ok r ↦
        finish_run config events (run (replay_handlers doubles config.cancel_after_arrival) fuel r)
  ]

  -- `ReplayEngine::run`, from the events of the two feeds on.
  unfoldable pub replay_feeds :
      ℕ → ReplayConfig D → List MarketEvent → List MarketEvent → Option (Result (ReplayRunResult D))
  replay_feeds fuel config book_updates trades = elim (merge_events book_updates trades) [
    | err e ↦ some (err e)
    | ok events ↦ replay_events fuel config events
  ]

  -- `ReplayEngine::run` on the lines of the two files: the book updates are read first.
  unfoldable pub replay_inputs :
      ℕ → ReplayConfig D → List Text → List Text → Option (Result (ReplayRunResult D))
  replay_inputs fuel config book_lines trade_lines =
      elim (parse_book_updates_csv book_lines config.book_updates_path config.feed_parser) [
        | err e ↦ some (err e)
        | ok book_updates ↦
            elim (parse_trades_csv trade_lines config.trades_path config.feed_parser) [
              | err e ↦ some (err e)
              | ok trades ↦ replay_feeds fuel config book_updates trades
            ]
      ]
