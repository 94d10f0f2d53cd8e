-- ===== src/Tests/Resting.antt =====
-- Tests of resting orders: trades and cancels.
use cpp_market_replay_engine.Tests.Events.{execution}
use cpp_market_replay_engine.Base.{
  pos, ◌+ℤ◌, ◌-ℤ◌, ◌*ℤ◌, quot, not_resting, ok, err, ℕ, ◌≡◌, refl, some, [], ◌∷◌, arith,
}
use cpp_market_replay_engine.Execution.Fee.{
  checked_notional, checked_fee_numerator, checked_fee_from_128, calculate_fee,
}
use cpp_market_replay_engine.Types.{
  Side, OrderType, OrderStatus, validate_price_ticks, validate_quantity,
}
use cpp_market_replay_engine.EventLoop.Scheduler.{InternalEventType, ScheduledInternalEvent}
use cpp_market_replay_engine.Tests.Data.{trade_at}
use cpp_market_replay_engine.Execution.{make_simulator, create_fill}
use cpp_market_replay_engine.Latency.State.{LatencyAwareExecution}
use cpp_market_replay_engine.Order.{Order, remaining_quantity, transition_to, record_fill_quantity}
use cpp_market_replay_engine.Latency.{process_cancel_arrival, process_trade}
use cpp_market_replay_engine.Latency.Trade.{
  ActiveLimitOrder, find_order, after_passive_fill, fill_order, fill_passive, consume_queue,
  match_active, match_all, keep_open,
}
use cpp_market_replay_engine.Latency.Traded.{IsSound, IsTraded, process_trade-IsTraded}

-- A buy order for four that rests at 100 behind a queue of three.
abbrev resting_order : Order
resting_order = record {
  order_id = 1;
  side = Side.buy;
  order_type = OrderType.limit;
  original_quantity = pos 4;
  filled_quantity = pos 0;
  decision_timestamp_ns = 10;
  submit_timestamp_ns = 10;
  exchange_arrival_timestamp_ns = 15;
  limit_price_ticks = some (pos 100);
  status = OrderStatus.acknowledged;
  status_history = OrderStatus.new ∷ OrderStatus.pending ∷ OrderStatus.acknowledged ∷ [];
}

abbrev queued : ℕ → ActiveLimitOrder
queued ahead = record {
  order_id = 1;
  side = Side.buy;
  limit_price_ticks = pos 100;
  queue_ahead = pos ahead;
  arrival_timestamp_ns = 15;
}

abbrev resting : LatencyAwareExecution
resting = record execution { orders = resting_order ∷ []; active_limit_orders = queued 3 ∷ [] }

resting-IsSound : IsSound resting
resting-IsSound = record { orders = (ground arith, tt); queues = (omega arith, tt) }

-- A trade of five at the limit leaves two for the order, after the queue.
abbrev traded : LatencyAwareExecution
traded = record resting {
  execution_simulator = record (make_simulator (record { fee_rate_ppm = pos 2500 })) {
    next_fill_sequence_id = 2;
  };
  orders =
      record resting_order {
        filled_quantity = pos 2;
        status = OrderStatus.partially_filled;
        status_history =
            OrderStatus.new ∷ OrderStatus.pending ∷ OrderStatus.acknowledged
            ∷ OrderStatus.partially_filled ∷ [];
      }
      ∷ [];
  fills =
      record {
        order_id = 1;
        side = Side.buy;
        price_ticks = pos 100;
        quantity = pos 2;
        fill_timestamp_ns = 30;
        fill_sequence_id = 1;
        fee_amount = pos 1;
      }
      ∷ [];
  active_limit_orders = queued 0 ∷ [];
}

trade_matched : process_trade resting (trade_at 30 0 100 5 (some Side.sell)) ≡ ok traded
unfolding process_trade match_all match_active consume_queue fill_passive fill_order
    after_passive_fill create_fill calculate_fee checked_notional checked_fee_numerator
    checked_fee_from_128 quot record_fill_quantity remaining_quantity transition_to find_order
    keep_open validate_price_ticks validate_quantity ◌+ℤ◌ ◌-ℤ◌ ◌*ℤ◌
trade_matched = refl

process_trade-IsTraded_example : IsTraded (trade_at 30 0 100 5 (some Side.sell)) resting traded
process_trade-IsTraded_example =
    process_trade-IsTraded resting traded (trade_at 30 0 100 5 (some Side.sell)) resting-IsSound
      trade_matched

-- A cancel that arrives after the order was filled is refused.
abbrev cancel_at : ScheduledInternalEvent
cancel_at = record {
  timestamp_ns = 40;
  internal_sequence_id = 1;
  event = record { event_type = InternalEventType.cancel_arrival; label = []; order_id = some 1 };
}

abbrev filled_order : Order
filled_order = record resting_order { filled_quantity = pos 4; status = OrderStatus.filled }

late_cancel :
    process_cancel_arrival (record execution { orders = filled_order ∷ [] }) cancel_at
    ≡ err not_resting
unfolding process_cancel_arrival find_order
late_cancel = refl
