-- ===== src/Replay/Engine.antt =====
-- `ReplayEngine::run` of src/replay_engine.cpp: the handlers, what they share, and the result, from
-- the events of the two feeds on.
use cpp_market_replay_engine.Base.{
  if◌then◌else◌, drop, Result, ok, ◌>>=◌, ℕ, ◌+◌, Bool, true, not, ◌&&◌, ◌||◌, Option, none, some,
  List, [], ◌∷◌,
}
use cpp_market_replay_engine.Types.{OrderStatus, same_status, LatencyNs}
use cpp_market_replay_engine.Market.{MarketEvent}
use cpp_market_replay_engine.OrderBook.{OrderBook}
use cpp_market_replay_engine.Order.{Order}
use cpp_market_replay_engine.Fill.{Fill}
use cpp_market_replay_engine.Portfolio.{Portfolio, apply_fill}
use cpp_market_replay_engine.Strategy.{OrderIntent}
use cpp_market_replay_engine.Execution.{is_market}
use cpp_market_replay_engine.EventLoop.{EventLoop, EventLoopHandlers}
use cpp_market_replay_engine.EventLoop.Scheduler.{InternalEventType, ScheduledInternalEvent, next}
use cpp_market_replay_engine.Latency.{process_order_arrival, process_cancel_arrival, process_trade}
use cpp_market_replay_engine.Latency.State.{
  LatencyAwareExecution, submit_order_intent, request_cancel,
}
use cpp_market_replay_engine.QueueImbalance.{Doubles}
use cpp_market_replay_engine.Replay.Config.{ReplayStrategy, replay_strategy}

pub record ReplayMetrics : Type 0 where
  pub market_events_processed : ℕ
  pub book_updates_processed : ℕ
  pub trades_processed : ℕ
  pub internal_events_processed : ℕ
  pub strategy_intents : ℕ
  pub orders_submitted : ℕ
  pub orders_filled : ℕ
  pub orders_partially_filled : ℕ
  pub orders_canceled : ℕ
  pub orders_rejected : ℕ
  pub fills : ℕ

-- What the handlers of a run share.
pub record Replaying (D : Type 0) : Type 0 where
  pub strategy : ReplayStrategy D
  pub execution : LatencyAwareExecution
  pub strategy_intents : ℕ
  pub portfolio : Portfolio
  pub applied_fill_count : ℕ

-- `CountingExecutionIntentSink::emit`, for each intent.
unfoldable pub emit_counted :
    List OrderIntent
    → LatencyAwareExecution
    → EventLoop
    → ℕ
    → Result (LatencyAwareExecution × EventLoop × ℕ)
emit_counted [] x loop count = ok (x, loop, count)
emit_counted (intent ∷ intents) x loop count = do
  (_, submitted, scheduled) ← submit_order_intent x intent x.config.order_latency loop
  emit_counted intents submitted scheduled (count + 1)

-- The loop of `apply_new_fills`, over the fills from the count on.
unfoldable pub apply_from : List Fill → ℕ → Portfolio → Result (ℕ × Portfolio)
apply_from [] count p = ok (count, p)
apply_from (fill ∷ fills) count p = do next ← apply_fill p fill; apply_from fills (count + 1) next

unfoldable pub apply_new_fills : LatencyAwareExecution → ℕ → Portfolio → Result (ℕ × Portfolio)
apply_new_fills x applied_fill_count p =
    apply_from (drop applied_fill_count x.fills) applied_fill_count p

unfoldable pub is_active_resting_order : Order → Bool
is_active_resting_order order =
    not (is_market order.order_type)
    && (same_status order.status OrderStatus.acknowledged
        || same_status order.status OrderStatus.partially_filled)

-- `if (config_.cancel_after_arrival.has_value() && is_active_resting_order(result.order))`
unfoldable pub cancel_after :
    Option LatencyNs → Order → LatencyAwareExecution → EventLoop → Result EventLoop
cancel_after none order x loop = ok loop
cancel_after (some latency) order x loop =
    if is_active_resting_order order
    then (request_cancel x order.order_id latency loop >>= λ (_, scheduled). ok scheduled)
    else ok loop

module _ {D : Type 0} (doubles : Doubles D) (cancel_latency : Option LatencyNs) where
  -- A handler's call of the strategy, and what it emits.
  unfoldable pub answer :
      Result (ReplayStrategy D × List OrderIntent)
      → EventLoop
      → Replaying D
      → Result (EventLoop × Replaying D)
  answer response loop s = do
    (strategy, intents) ← response
    (execution, next, count) ← emit_counted intents s.execution loop s.strategy_intents
    ok (next, record s { strategy = strategy; execution = execution; strategy_intents = count })

  -- A call of `apply_new_fills` with an execution that has changed.
  unfoldable pub settle_fills : LatencyAwareExecution → Replaying D → Result (Replaying D)
  settle_fills x s = do
    (count, portfolio) ← apply_new_fills x s.applied_fill_count s.portfolio
    ok (record s { execution = x; portfolio = portfolio; applied_fill_count = count })

  unfoldable pub replay_market :
      MarketEvent → OrderBook → EventLoop → Replaying D → Result (EventLoop × Replaying D)
  replay_market (MarketEvent.book_update e) book loop s =
      answer ((replay_strategy doubles).on_book e book s.strategy) loop s
  replay_market (MarketEvent.trade e) book loop s = do
    execution ← process_trade s.execution e
    settled ← settle_fills execution s
    answer ((replay_strategy doubles).on_trade e book settled.strategy) loop settled

  unfoldable pub replay_arrival :
      ScheduledInternalEvent
      → OrderBook
      → EventLoop
      → Replaying D
      → Result (EventLoop × Replaying D)
  replay_arrival event book loop s = do
    (result, execution) ← process_order_arrival s.execution event book
    settled ← settle_fills execution s
    next ← cancel_after cancel_latency result.order execution loop
    ok (next, settled)

  abbrev pub replay_internal_type :
      InternalEventType
      → ScheduledInternalEvent
      → OrderBook
      → EventLoop
      → Replaying D
      → Result (EventLoop × Replaying D)
  replay_internal_type InternalEventType.order_arrival event book loop s =
      replay_arrival event book loop s
  replay_internal_type InternalEventType.cancel_arrival event book loop s = do
    execution ← process_cancel_arrival s.execution event
    ok (loop, record s { execution = execution })
  replay_internal_type InternalEventType.timer event book loop s =
      answer ((replay_strategy doubles).on_timer event.timestamp_ns event.event book s.strategy)
        loop s
  replay_internal_type InternalEventType.user event book loop s = ok (loop, s)

  unfoldable pub replay_internal :
      ScheduledInternalEvent
      → OrderBook
      → EventLoop
      → Replaying D
      → Result (EventLoop × Replaying D)
  replay_internal event book loop s = replay_internal_type event.event.event_type event book loop s

  abbrev pub replay_handlers : EventLoopHandlers (Replaying D)
  replay_handlers = record {
    updates_book = true;
    on_market = replay_market;
    on_internal = replay_internal;
  }
