-- ===== src/Order.antt =====
-- include/replay/order.hpp and src/order.cpp: an order, its fills and its status machine.
pub mod Lifecycle
pub mod Name
use cpp_market_replay_engine.Base.{
  ◌==◌, if◌then◌else◌, pos, ◌+ℤ◌, ◌-ℤ◌, ltb_ℤ, eqb_ℤ, zero_order_id, zero_quantity,
  missing_limit_price, invalid_transition, fill_exceeds_remaining, Result, ok, err, ◌>>=◌, ◌>>◌,
  throw_if, Bool, true, false, not, ◌||◌, Option, none, some, List, [], ◌∷◌, ◌++◌,
}
use cpp_market_replay_engine.Types.{
  TimestampNs, OrderId, PriceTicks, Quantity, Side, OrderType, OrderStatus, same_status,
  validate_price_ticks, validate_quantity,
}

pub record Order : Type 0 where
  pub order_id : OrderId
  pub side : Side
  pub order_type : OrderType
  pub original_quantity : Quantity
  pub filled_quantity : Quantity
  pub decision_timestamp_ns : TimestampNs
  pub submit_timestamp_ns : TimestampNs
  pub exchange_arrival_timestamp_ns : TimestampNs
  pub limit_price_ticks : Option PriceTicks
  pub status : OrderStatus
  pub status_history : List OrderStatus

abbrev pub validate_positive_quantity : Quantity → Result (Unit {0})
unfolding validate_quantity
validate_positive_quantity quantity = do
  validate_quantity quantity
  throw_if (eqb_ℤ quantity (pos 0)) zero_quantity

abbrev pub validate_limit_price : Option PriceTicks → Result (Unit {0})
unfolding validate_price_ticks
validate_limit_price none = ok tt
validate_limit_price (some price_ticks) = validate_price_ticks price_ticks

-- `order_type == Limit && !limit_price_ticks.has_value()`
abbrev pub lacks_limit_price : OrderType → Option PriceTicks → Bool
lacks_limit_price OrderType.limit none = true
lacks_limit_price _ _ = false

-- The constructor.
unfoldable pub make_order :
    OrderId
    → Side
    → OrderType
    → Quantity
    → TimestampNs
    → TimestampNs
    → Option PriceTicks
    → Result Order
unfolding validate_positive_quantity validate_limit_price
make_order order_id side order_type quantity submitted arrival limit_price = do
  throw_if (order_id == 0) zero_order_id
  validate_positive_quantity quantity
  validate_limit_price limit_price
  throw_if (lacks_limit_price order_type limit_price) missing_limit_price
  ok (record {
    order_id = order_id;
    side = side;
    order_type = order_type;
    original_quantity = quantity;
    filled_quantity = pos 0;
    decision_timestamp_ns = submitted;
    submit_timestamp_ns = submitted;
    exchange_arrival_timestamp_ns = arrival;
    limit_price_ticks = limit_price;
    status = OrderStatus.new;
    status_history = OrderStatus.new ∷ [];
  })

unfoldable pub remaining_quantity : Order → Quantity
remaining_quantity o = o.original_quantity -ℤ o.filled_quantity

abbrev pub is_valid_order_transition : OrderStatus → OrderStatus → Bool
is_valid_order_transition OrderStatus.new next = same_status next OrderStatus.pending
is_valid_order_transition OrderStatus.pending next =
    same_status next OrderStatus.acknowledged || same_status next OrderStatus.rejected
is_valid_order_transition OrderStatus.acknowledged next =
    same_status next OrderStatus.partially_filled
    || same_status next OrderStatus.filled
    || same_status next OrderStatus.canceled
is_valid_order_transition OrderStatus.partially_filled next =
    same_status next OrderStatus.filled || same_status next OrderStatus.canceled
is_valid_order_transition OrderStatus.filled next = false
is_valid_order_transition OrderStatus.canceled next = false
is_valid_order_transition OrderStatus.rejected next = false

unfoldable pub transition_to : Order → OrderStatus → Result Order
transition_to o next_status =
    if not (is_valid_order_transition o.status next_status)
    then err invalid_transition
    else ok
        (record o { status = next_status; status_history = o.status_history ++ next_status ∷ [] })

unfoldable pub record_fill_quantity : Order → Quantity → Result Order
unfolding validate_positive_quantity remaining_quantity
record_fill_quantity o quantity = do
  validate_positive_quantity quantity
  throw_if (ltb_ℤ (remaining_quantity o) quantity) fill_exceeds_remaining
  ok (record o { filled_quantity = o.filled_quantity +ℤ quantity })
