-- ===== src/Execution.antt =====
-- include/replay/execution_simulator.hpp and src/execution_simulator.cpp: fees, the order factory,
-- and the execution of market orders against the visible depth. A function that throws returns an
-- error, and the changed simulator is part of what it returns otherwise.
pub mod Fee
pub mod Rounding
pub mod Walk
pub mod Market
pub mod Outcome
use cpp_market_replay_engine.Base.{
  ltb, if◌then◌else◌, pos, leb_ℤ, eqb_ℤ, min_ℤ, zero_quantity, arrival_overflow, not_market_order,
  not_executable, Result, err, ok, throw_if, ◌>>=◌, ◌>>◌, ℕ, ◌+◌, ◌-◌, Bool, true, false, not, ◌||◌,
  List, [], ◌∷◌, ◌++◌,
}
use cpp_market_replay_engine.Types.{
  uint64_max, increment, TimestampNs, OrderId, PriceTicks, Quantity, OrderType, OrderStatus, is_buy,
  same_status, LatencyNs, validate_price_ticks, validate_quantity,
}
use cpp_market_replay_engine.OrderBook.PriceMap.{PriceLevel, Levels}
use cpp_market_replay_engine.OrderBook.{
  OrderBook, top_bids, top_asks, bid_level_count, ask_level_count,
}
use cpp_market_replay_engine.Order.{
  Order, make_order, remaining_quantity, transition_to, record_fill_quantity,
}
use cpp_market_replay_engine.Fill.{Fill}
use cpp_market_replay_engine.Strategy.{OrderIntent}
use cpp_market_replay_engine.Execution.Fee.{FeeModel, calculate_fee}

-- `ExecutionSimulator` with the `OrderFactory` that it owns.
pub record Simulator : Type 0 where
  pub fee_model : FeeModel
  pub next_order_id : OrderId
  pub next_fill_sequence_id : ℕ

abbrev pub make_simulator : FeeModel → Simulator
make_simulator fees = record { fee_model = fees; next_order_id = 1; next_fill_sequence_id = 1 }

unfoldable pub checked_add_latency : TimestampNs → LatencyNs → Result TimestampNs
checked_add_latency submitted latency =
    if ltb (uint64_max - submitted) latency.count
    then err arrival_overflow
    else ok (submitted + latency.count)

unfoldable pub create_order_from_intent :
    Simulator → OrderIntent → LatencyNs → Result (Order × Simulator)
create_order_from_intent sim intent latency = do
  arrival ← checked_add_latency intent.decision_timestamp_ns latency
  order ←
      make_order sim.next_order_id intent.side intent.order_type intent.quantity
        intent.decision_timestamp_ns arrival intent.limit_price_ticks
  ok (order, record sim { next_order_id = increment sim.next_order_id })

unfoldable pub create_fill :
    Simulator → Order → PriceTicks → Quantity → TimestampNs → Result (Fill × Simulator)
unfolding validate_price_ticks validate_quantity
create_fill sim order price_ticks quantity timestamp_ns = do
  validate_price_ticks price_ticks
  validate_quantity quantity
  throw_if (leb_ℤ quantity (pos 0)) zero_quantity
  fee ← calculate_fee sim.fee_model price_ticks quantity
  ok (
    record {
      order_id = order.order_id;
      side = order.side;
      price_ticks = price_ticks;
      quantity = quantity;
      fill_timestamp_ns = timestamp_ns;
      fill_sequence_id = sim.next_fill_sequence_id;
      fee_amount = fee;
    },
    record sim { next_fill_sequence_id = increment sim.next_fill_sequence_id },
  )

unfoldable pub make_fill : Simulator → Order → PriceTicks → Quantity → Result (Fill × Simulator)
make_fill sim order price_ticks quantity =
    create_fill sim order price_ticks quantity order.exchange_arrival_timestamp_ns

abbrev pub opposite_depth : Order → OrderBook → Levels
opposite_depth order book =
    if is_buy order.side
    then top_asks book (ask_level_count book)
    else top_bids book (bid_level_count book)

unfoldable pub ensure_pending_for_execution : Order → Result Order
unfolding transition_to
ensure_pending_for_execution order =
    if same_status order.status OrderStatus.new
    then transition_to order OrderStatus.pending
    else if not (same_status order.status OrderStatus.pending)
    then err not_executable
    else ok order

pub record ExecutionResult : Type 0 where
  pub order : Order
  pub fills : List Fill

-- One fill of the depth loop: the order takes what it still needs, or all that the level has.
unfoldable pub take_level :
    Simulator → Order → List Fill → PriceLevel → Result (Simulator × Order × List Fill)
take_level sim order fills level = do
  let quantity = min_ℤ (remaining_quantity order) level.quantity
  (fill, next) ← make_fill sim order level.price_ticks quantity
  filled ← record_fill_quantity order quantity
  ok (next, filled, fills ++ fill ∷ [])

-- The loop of `execute_market_order` over the depth.
unfoldable pub walk_depth :
    Simulator → Order → List Fill → Levels → Result (Simulator × Order × List Fill)
walk_depth sim order fills [] = ok (sim, order, fills)
walk_depth sim order fills (level ∷ depth) =
    let skipped = walk_depth sim order fills depth in
    validate_quantity level.quantity
    >> (if eqb_ℤ level.quantity (pos 0) || eqb_ℤ (remaining_quantity order) (pos 0)
        then skipped
        else (take_level sim order fills level >>= λ (next, filled, more).
            let rest = walk_depth next filled more depth in
            if eqb_ℤ (remaining_quantity filled) (pos 0) then ok (next, filled, more) else rest))

abbrev pub is_nil {ℓ} : {A : Type ℓ} → List A → Bool
is_nil [] = true
is_nil (x ∷ xs) = false

-- The last status of a market order that has walked the depth.
unfoldable pub close_market_order : Order → List Fill → Result Order
close_market_order order fills =
    if is_nil fills
    then transition_to order OrderStatus.rejected
    else if eqb_ℤ (remaining_quantity order) (pos 0)
    then transition_to order OrderStatus.filled
    else (transition_to order OrderStatus.partially_filled >>= λ partial.
        transition_to partial OrderStatus.canceled)

abbrev pub is_market : OrderType → Bool
is_market OrderType.market = true
is_market OrderType.limit = false

unfoldable pub execute_market_order :
    Simulator → Order → OrderBook → Result (ExecutionResult × Simulator)
execute_market_order sim order book = do
  throw_if (not (is_market order.order_type)) not_market_order
  pending ← ensure_pending_for_execution order
  let depth = opposite_depth pending book
  if is_nil depth
      then (transition_to pending OrderStatus.rejected >>= λ rejected.
          ok (record { order = rejected; fills = [] }, sim))
      else do
        acknowledged ← transition_to pending OrderStatus.acknowledged
        (next, filled, fills) ← walk_depth sim acknowledged [] depth
        closed ← close_market_order filled fills
        ok (record { order = closed; fills = fills }, next)

unfoldable pub execute_order : Simulator → Order → OrderBook → Result (ExecutionResult × Simulator)
execute_order sim order book = do
  pending ← ensure_pending_for_execution order
  if not (is_market pending.order_type)
      then (transition_to pending OrderStatus.rejected >>= λ rejected.
          ok (record { order = rejected; fills = [] }, sim))
      else execute_market_order sim pending book
