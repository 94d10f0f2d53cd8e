-- ===== src/Latency.antt =====
-- include/replay/latency_execution.hpp and src/latency_execution.cpp: orders that reach the exchange
-- after a latency, rest there behind a queue, and are filled by trades. The indexes into the orders
-- are those of the source. A call that throws returns the exception only: what it had changed before
-- that is not part of the model.
pub mod Queue
pub mod Trade
pub mod Arrival
pub mod State
pub mod Accepted
pub mod Passive
pub mod Matched
pub mod Traded
pub mod Growth
pub mod Changes
use cpp_market_replay_engine.Latency.State.{LatencyAwareExecution, deactivate_active_limit_order}
use cpp_market_replay_engine.Base.{
  ◌==◌, if◌then◌else◌, set, pos, eqb_ℤ, not_order_arrival, not_cancel_arrival, not_pending,
  arrival_mismatch, not_limit_order, not_resting, Result, ok, err, ◌>>=◌, ◌>>◌, throw_if, Bool,
  true, false, not, ◌||◌, Option, none, some, List, [], ◌∷◌, ◌++◌,
}
use cpp_market_replay_engine.Types.{
  OrderId, Quantity, Side, OrderStatus, is_buy, same_status, validate_price_ticks,
  validate_quantity,
}
use cpp_market_replay_engine.Market.{TradeEvent}
use cpp_market_replay_engine.OrderBook.{OrderBook, bid_quantity_at, ask_quantity_at}
use cpp_market_replay_engine.Order.{Order, remaining_quantity, transition_to}
use cpp_market_replay_engine.Execution.{
  opposite_depth, ExecutionResult, is_nil, is_market, execute_order,
}
use cpp_market_replay_engine.EventLoop.Scheduler.{InternalEventType, ScheduledInternalEvent}
use cpp_market_replay_engine.Latency.Queue.{initial_queue_ahead}
use cpp_market_replay_engine.Latency.Trade.{
  ActiveLimitOrder, is_active_resting_status, find_order, Matching, match_all, keep_open,
}
use cpp_market_replay_engine.Latency.Arrival.{limit_price, Crossing, cross_depth}

abbrev pub is_some : Option Side → Bool
is_some none = false
is_some (some side) = true

abbrev pub value_or_zero : Option Quantity → Quantity
value_or_zero none = pos 0
value_or_zero (some quantity) = quantity

unfoldable pub visible_quantity_at_limit : Order → OrderBook → Result Quantity
visible_quantity_at_limit order book = do
  price_ticks ← limit_price order.limit_price_ticks
  visible ←
      if is_buy order.side
      then bid_quantity_at book price_ticks
      else ask_quantity_at book price_ticks
  ok (value_or_zero visible)

unfoldable pub rest_limit_order :
    LatencyAwareExecution → Order → Quantity → Result LatencyAwareExecution
rest_limit_order x order queue_ahead = do
  throw_if (not (is_active_resting_status order.status)) not_resting
  price_ticks ← limit_price order.limit_price_ticks
  validate_quantity queue_ahead
  ok (record x {
    active_limit_orders =
        x.active_limit_orders
        ++ record {
          order_id = order.order_id;
          side = order.side;
          limit_price_ticks = price_ticks;
          queue_ahead = queue_ahead;
          arrival_timestamp_ns = order.exchange_arrival_timestamp_ns;
        }
          ∷ [];
  })

-- The end of `process_limit_order_arrival`, for what the depth has left of the order.
unfoldable pub settle_arrival :
    LatencyAwareExecution → OrderBook → Crossing → Result (ExecutionResult × LatencyAwareExecution)
settle_arrival x book c =
    if eqb_ℤ (remaining_quantity c.order) (pos 0)
    then (transition_to c.order OrderStatus.filled >>= λ filled.
        ok (record { order = filled; fills = c.fills }, x))
    else do
      queue_ahead ←
          if c.filled_at_limit
          then ok (pos 0)
          else (visible_quantity_at_limit c.order book >>= initial_queue_ahead x.queue_fraction)
      order ←
          if is_nil c.fills then ok c.order else transition_to c.order OrderStatus.partially_filled
      rested ← rest_limit_order x order queue_ahead
      ok (record { order = order; fills = c.fills }, rested)

unfoldable pub process_limit_order_arrival :
    LatencyAwareExecution → Order → OrderBook → Result (ExecutionResult × LatencyAwareExecution)
process_limit_order_arrival x order book = do
  throw_if (is_market order.order_type) not_limit_order
  throw_if (not (same_status order.status OrderStatus.pending)) not_pending
  acknowledged ← transition_to order OrderStatus.acknowledged
  crossed ←
      cross_depth
        (record {
          simulator = x.execution_simulator;
          order = acknowledged;
          fills = [];
          filled_at_limit = false;
        })
        (opposite_depth acknowledged book)
  settle_arrival (record x { execution_simulator = crossed.simulator }) book crossed

-- The order id of an internal event of the expected type.
abbrev pub arrival_order_id : InternalEventType → Option OrderId → Result OrderId
arrival_order_id InternalEventType.order_arrival (some id) = ok id
arrival_order_id _ _ = err not_order_arrival

abbrev pub cancel_order_id : InternalEventType → Option OrderId → Result OrderId
cancel_order_id InternalEventType.cancel_arrival (some id) = ok id
cancel_order_id _ _ = err not_cancel_arrival

-- `process_limit_order_arrival` or `ExecutionSimulator::execute_order`.
unfoldable pub execute_arrival :
    LatencyAwareExecution → Order → OrderBook → Result (ExecutionResult × LatencyAwareExecution)
execute_arrival x order book =
    if not (is_market order.order_type)
    then process_limit_order_arrival x order book
    else (execute_order x.execution_simulator order book >>= λ (result, simulator).
        ok (result, record x { execution_simulator = simulator }))

unfoldable pub process_order_arrival :
    LatencyAwareExecution
    → ScheduledInternalEvent
    → OrderBook
    → Result (ExecutionResult × LatencyAwareExecution)
process_order_arrival x event book = do
  id ← arrival_order_id event.event.event_type event.event.order_id
  (index, order) ← find_order id x.orders
  throw_if (not (same_status order.status OrderStatus.pending)) not_pending
  throw_if (not (event.timestamp_ns == order.exchange_arrival_timestamp_ns)) arrival_mismatch
  (result, y) ← execute_arrival x order book
  ok (
    result,
    record y {
      orders = set y.orders index result.order;
      fills = y.fills ++ result.fills;
      executions = y.executions ++ result ∷ [];
    },
  )

unfoldable pub process_cancel_arrival :
    LatencyAwareExecution → ScheduledInternalEvent → Result LatencyAwareExecution
process_cancel_arrival x event = do
  id ← cancel_order_id event.event.event_type event.event.order_id
  (index, order) ← find_order id x.orders
  throw_if (not (is_active_resting_status order.status)) not_resting
  kept ← deactivate_active_limit_order id x.active_limit_orders
  canceled ← transition_to order OrderStatus.canceled
  ok (record x { orders = set x.orders index canceled; active_limit_orders = kept })

-- The end of `process_trade`.
abbrev pub finish_trade :
    LatencyAwareExecution → Matching → List ActiveLimitOrder → Result LatencyAwareExecution
finish_trade x m kept = ok (record x {
  execution_simulator = m.simulator;
  orders = m.orders;
  fills = m.fills;
  active_limit_orders = kept;
})

unfoldable pub process_trade : LatencyAwareExecution → TradeEvent → Result LatencyAwareExecution
process_trade x trade = do
  validate_quantity trade.quantity
  validate_price_ticks trade.price_ticks
  if eqb_ℤ trade.quantity (pos 0) || not (is_some trade.aggressor_side) then ok x else do
    (matched, m) ← match_all trade x.active_limit_orders (record {
      simulator = x.execution_simulator;
      orders = x.orders;
      fills = x.fills;
      remaining_trade_quantity = trade.quantity;
    })
    kept ← keep_open m.orders matched
    finish_trade x m kept
