-- ===== src/Latency/State.antt =====
-- The state of `LatencyAwareExecution` (include/replay/latency_execution.hpp,
-- src/latency_execution.cpp), and what sends an order or a cancel towards the exchange.
use cpp_market_replay_engine.Base.{
  ◌==◌, if◌then◌else◌, ℤ, not_resting, not_active, Result, ok, err, ◌>>=◌, ◌>>◌, throw_if, not,
  some, List, [], ◌∷◌, ◌++◌,
}
use cpp_market_replay_engine.Base.Text.{Text, codes, decimal}
use cpp_market_replay_engine.Types.{OrderId, OrderStatus, LatencyNs}
use cpp_market_replay_engine.Order.{Order, transition_to}
use cpp_market_replay_engine.Fill.{Fill}
use cpp_market_replay_engine.Strategy.{OrderIntent}
use cpp_market_replay_engine.Execution.{
  Simulator, make_simulator, checked_add_latency, create_order_from_intent, ExecutionResult,
}
use cpp_market_replay_engine.Execution.Fee.{FeeModel}
use cpp_market_replay_engine.EventLoop.{EventLoop, schedule_internal}
use cpp_market_replay_engine.EventLoop.Scheduler.{InternalEventType, ScheduledInternalEvent}
use cpp_market_replay_engine.Latency.Queue.{QueueFraction, make_queue_fraction}
use cpp_market_replay_engine.Latency.Trade.{ActiveLimitOrder, is_active_resting_status, find_order}

abbrev pub order_arrival_label : OrderId → Text
order_arrival_label id = codes "order_id=" ++ decimal id

abbrev pub cancel_arrival_label : OrderId → Text
cancel_arrival_label id = codes "cancel_order_id=" ++ decimal id

pub record LatencyExecutionConfig : Type 0 where
  pub order_latency : LatencyNs
  pub fee_model : FeeModel
  pub queue_fraction_ppm : ℤ
  pub cancel_latency : LatencyNs

pub record OrderSubmissionRecord : Type 0 where
  pub order : Order
  pub arrival_event : ScheduledInternalEvent

pub record LatencyAwareExecution : Type 0 where
  pub config : LatencyExecutionConfig
  pub queue_fraction : QueueFraction
  pub execution_simulator : Simulator
  pub orders : List Order
  pub submissions : List OrderSubmissionRecord
  pub executions : List ExecutionResult
  pub fills : List Fill
  pub active_limit_orders : List ActiveLimitOrder

-- The constructor.
unfoldable pub make_execution : LatencyExecutionConfig → Result LatencyAwareExecution
make_execution config = do
  fraction ← make_queue_fraction config.queue_fraction_ppm
  ok (record {
    config = config;
    queue_fraction = fraction;
    execution_simulator = make_simulator config.fee_model;
    orders = [];
    submissions = [];
    executions = [];
    fills = [];
    active_limit_orders = [];
  })

unfoldable pub submit_order_intent :
    LatencyAwareExecution
    → OrderIntent
    → LatencyNs
    → EventLoop
    → Result (OrderSubmissionRecord × LatencyAwareExecution × EventLoop)
submit_order_intent x intent latency loop = do
  (created, simulator) ← create_order_from_intent x.execution_simulator intent latency
  order ← transition_to created OrderStatus.pending
  (arrival, scheduled) ← schedule_internal loop order.exchange_arrival_timestamp_ns (record {
    event_type = InternalEventType.order_arrival;
    label = order_arrival_label order.order_id;
    order_id = some order.order_id;
  })
  let submission : OrderSubmissionRecord = record { order = order; arrival_event = arrival }
  ok (
    submission,
    record x {
      execution_simulator = simulator;
      orders = x.orders ++ order ∷ [];
      submissions = x.submissions ++ submission ∷ [];
    },
    scheduled,
  )

-- `find_active_limit_order_index` and the `erase` at the index.
unfoldable pub deactivate_active_limit_order :
    OrderId → List ActiveLimitOrder → Result (List ActiveLimitOrder)
deactivate_active_limit_order id [] = err not_active
deactivate_active_limit_order id (active ∷ rest) =
    let others = deactivate_active_limit_order id rest in
    if active.order_id == id then ok rest else (others >>= λ kept. ok (active ∷ kept))

unfoldable pub request_cancel :
    LatencyAwareExecution
    → OrderId
    → LatencyNs
    → EventLoop
    → Result (ScheduledInternalEvent × EventLoop)
request_cancel x id cancel_latency loop = do
  (_, order) ← find_order id x.orders
  throw_if (not (is_active_resting_status order.status)) not_resting
  _ ← deactivate_active_limit_order id x.active_limit_orders
  timestamp_ns ← checked_add_latency loop.clock.now cancel_latency
  schedule_internal loop timestamp_ns (record {
    event_type = InternalEventType.cancel_arrival;
    label = cancel_arrival_label id;
    order_id = some id;
  })
