-- ===== src/Tests/Orders.antt =====
-- Tests of orders, fees and the execution of market orders.
use cpp_market_replay_engine.Base.Text.{codes, digits}
use cpp_market_replay_engine.Types.Names.{parse_side, parse_order_type, parse_order_status}
use cpp_market_replay_engine.Order.Name.{
  order_status_name, order_side_name, order_kind_name, canonical_order_string, names_are_read,
}
use cpp_market_replay_engine.Order.{Order, make_order, remaining_quantity, transition_to}
use cpp_market_replay_engine.Types.{Side, OrderType, OrderStatus, validate_quantity}
use cpp_market_replay_engine.Base.{
  length, All, pos, ◌-ℤ◌, ◌*ℤ◌, invalid_transition, err, ok, ℕ, ◌+◌, ◌*◌, ◌≤◌, ◌≡◌, refl, none, [],
  ◌∷◌, arith,
}
use cpp_market_replay_engine.Order.Lifecycle.{IsValid, Rises, Step, Reach, Reach-life}
use cpp_market_replay_engine.Execution.{Simulator, make_simulator, opposite_depth}
use cpp_market_replay_engine.Execution.Fee.{calculate_fee}
use cpp_market_replay_engine.Execution.Rounding.{calculate_fee_rounds}
use cpp_market_replay_engine.Execution.Walk.{IsPayable}
use cpp_market_replay_engine.Execution.Outcome.{IsArriving, Executed, execute_order-Executed}
use cpp_market_replay_engine.Latency.Queue.{
  make_queue_fraction, initial_queue_ahead, initial_queue_ahead_rounds,
}
use cpp_market_replay_engine.Tests.Data.{quoted_book}

-- A market order for seven, made and sent.
abbrev made_order : Order
made_order = record {
  order_id = 1;
  side = Side.buy;
  order_type = OrderType.market;
  original_quantity = pos 7;
  filled_quantity = pos 0;
  decision_timestamp_ns = 5;
  submit_timestamp_ns = 5;
  exchange_arrival_timestamp_ns = 9;
  limit_price_ticks = none;
  status = OrderStatus.new;
  status_history = OrderStatus.new ∷ [];
}

abbrev sent_order : Order
sent_order = record made_order {
  status = OrderStatus.pending;
  status_history = OrderStatus.new ∷ OrderStatus.pending ∷ [];
}

made : make_order 1 Side.buy OrderType.market (pos 7) 5 9 none ≡ ok made_order
unfolding make_order validate_quantity
made = refl

sent : transition_to made_order OrderStatus.pending ≡ ok sent_order
unfolding transition_to
sent = refl

-- No order goes back to a status.
resent : transition_to sent_order OrderStatus.new ≡ err invalid_transition
unfolding transition_to
resent = refl

Reach-life_example :
    IsValid sent_order × Rises sent_order.status_history × (length sent_order.status_history ≤ 5)
Reach-life_example =
    Reach-life 1 Side.buy OrderType.market (pos 7) 5 9 none made_order sent_order made
      (Reach.then_step Reach.here (Step.transition made_order sent_order OrderStatus.pending sent))

-- A rate of 2500 parts per million.
abbrev simulator : Simulator
simulator = make_simulator (record { fee_rate_ppm = pos 2500 })

payable : All IsPayable (opposite_depth sent_order quoted_book)
unfolding ◌*ℤ◌
payable = ground arith

sent_order-IsArriving : IsArriving sent_order
sent_order-IsArriving = ground arith

execute_order-Executed_example : Executed simulator sent_order quoted_book
execute_order-Executed_example =
    execute_order-Executed simulator sent_order quoted_book (omega arith, omega arith)
      sent_order-IsArriving payable

calculate_fee_rounds_example :
    (fee : ℕ) × (calculate_fee (record { fee_rate_ppm = pos 2500 }) (pos 102) (pos 4)
      ≡ ok (pos fee))
    × (fee ≤ 408)
    × (2000000 * fee ≤ 2 * (408 * 2500) + 1000000)
    × (2 * (408 * 2500) ≤ 2000000 * fee + 1000000)
calculate_fee_rounds_example = calculate_fee_rounds 102 4 2500 (omega arith) (omega arith)

half : make_queue_fraction (pos 500000) ≡ ok (record { ppm = pos 500000 })
unfolding make_queue_fraction
half = refl

initial_queue_ahead_rounds_example :
    (ahead : ℕ) × (initial_queue_ahead (record { ppm = pos 500000 }) (pos 7) ≡ ok (pos ahead))
    × (ahead ≤ 7)
    × (2000000 * ahead ≤ 2 * (7 * 500000) + 1000000)
    × (2 * (7 * 500000) ≤ 2000000 * ahead + 1000000)
initial_queue_ahead_rounds_example =
    initial_queue_ahead_rounds (pos 500000) (record { ppm = pos 500000 }) 7 half (omega arith)

order_text : canonical_order_string sent_order ≡ codes "1,buy,market,7,0,7,5,5,9,,pending"
unfolding canonical_order_string remaining_quantity digits ◌-ℤ◌
order_text = refl

names_are_read_example :
    (parse_order_status (order_status_name OrderStatus.filled) ≡ ok OrderStatus.filled)
    × (parse_side (order_side_name Side.sell) ≡ ok Side.sell)
    × (parse_order_type (order_kind_name OrderType.limit) ≡ ok OrderType.limit)
names_are_read_example = names_are_read OrderStatus.filled Side.sell OrderType.limit
