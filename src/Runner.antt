-- ===== src/Runner.antt =====
-- The strategy interface of include/replay/strategy.hpp and `run_latency_aware_strategy` of
-- src/latency_execution.cpp. A strategy is a parameter: a state with three handlers, each of which
-- returns the new state and the intents that it has emitted, in their order.
pub mod Budget
pub mod Plain
pub mod Timers
pub mod Answers
pub mod Collects
use cpp_market_replay_engine.Base.{
  Result, ok, err, ◌>>=◌, ◌>>◌, ℕ, true, Option, some, List, [], ◌∷◌,
}
use cpp_market_replay_engine.Types.{TimestampNs}
use cpp_market_replay_engine.Market.{BookUpdateEvent, TradeEvent, MarketEvent}
use cpp_market_replay_engine.OrderBook.{OrderBook, empty_book}
use cpp_market_replay_engine.Strategy.{OrderIntent}
use cpp_market_replay_engine.EventLoop.{EventLoop, make_event_loop, EventLoopHandlers, Running, run}
use cpp_market_replay_engine.EventLoop.Scheduler.{
  InternalEventType, InternalEvent, ScheduledInternalEvent, next,
}
use cpp_market_replay_engine.Latency.{process_order_arrival, process_cancel_arrival, process_trade}
use cpp_market_replay_engine.Latency.State.{
  LatencyExecutionConfig, LatencyAwareExecution, make_execution, submit_order_intent,
}

-- `Strategy`
pub record Strategy (T : Type 0) : Type 0 where
  pub on_book : BookUpdateEvent → OrderBook → T → Result (T × List OrderIntent)
  pub on_trade : TradeEvent → OrderBook → T → Result (T × List OrderIntent)
  pub on_timer : TimestampNs → InternalEvent → OrderBook → T → Result (T × List OrderIntent)

-- `LatencyIntentSink::emit`, for each intent.
unfoldable pub emit_all :
    List OrderIntent
    → LatencyAwareExecution
    → EventLoop
    → Result (LatencyAwareExecution × EventLoop)
emit_all [] x loop = ok (x, loop)
emit_all (intent ∷ intents) x loop = do
  (_, submitted, scheduled) ← submit_order_intent x intent x.config.order_latency loop
  emit_all intents submitted scheduled

-- What the handlers of a run share.
pub record Session (T : Type 0) : Type 0 where
  pub strategy_state : T
  pub execution : LatencyAwareExecution

module _ {T : Type 0} (strategy : Strategy T) where
  -- A handler's call of the strategy, and what it emits.
  unfoldable pub respond :
      Result (T × List OrderIntent)
      → LatencyAwareExecution
      → EventLoop
      → Result (EventLoop × Session T)
  respond answer x loop = do
    (state, intents) ← answer
    (execution, next) ← emit_all intents x loop
    ok (next, record { strategy_state = state; execution = execution })

  unfoldable pub on_market_event :
      MarketEvent → OrderBook → EventLoop → Session T → Result (EventLoop × Session T)
  on_market_event (MarketEvent.book_update e) book loop s =
      respond (strategy.on_book e book s.strategy_state) s.execution loop
  on_market_event (MarketEvent.trade e) book loop s = do
    execution ← process_trade s.execution e
    respond (strategy.on_trade e book s.strategy_state) execution loop

  abbrev pub on_event_type :
      InternalEventType
      → ScheduledInternalEvent
      → OrderBook
      → EventLoop
      → Session T
      → Result (EventLoop × Session T)
  on_event_type InternalEventType.order_arrival event book loop s = do
    (_, execution) ← process_order_arrival s.execution event book
    ok (loop, record s { execution = execution })
  on_event_type InternalEventType.cancel_arrival event book loop s = do
    execution ← process_cancel_arrival s.execution event
    ok (loop, record s { execution = execution })
  on_event_type InternalEventType.timer event book loop s =
      respond (strategy.on_timer event.timestamp_ns event.event book s.strategy_state) s.execution
        loop
  on_event_type InternalEventType.user event book loop s = ok (loop, s)

  unfoldable pub on_internal_event :
      ScheduledInternalEvent → OrderBook → EventLoop → Session T → Result (EventLoop × Session T)
  on_internal_event event book loop s = on_event_type event.event.event_type event book loop s

  abbrev pub session_handlers : EventLoopHandlers (Session T)
  session_handlers = record {
    updates_book = true;
    on_market = on_market_event;
    on_internal = on_internal_event;
  }

  unfoldable pub run_latency_aware_strategy :
      ℕ → List MarketEvent → T → LatencyExecutionConfig → Option (Result (Running (Session T)))
  run_latency_aware_strategy fuel historical_events state config = elim (make_execution config) [
    | err e ↦ some (err e)
    | ok execution ↦ run session_handlers fuel (record {
      loop = make_event_loop historical_events;
      book = empty_book;
      trace = [];
      state = record { strategy_state = state; execution = execution };
    })
  ]
