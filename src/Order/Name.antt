-- ===== src/Order/Name.antt =====
-- The names of statuses and the canonical text of an order of src/order.cpp, and what src/types.cpp
-- reads of such a name.
use cpp_market_replay_engine.Base.Text.{Text, codes, decimal}
use cpp_market_replay_engine.Types.{PriceTicks, Side, OrderType, OrderStatus}
use cpp_market_replay_engine.Types.Names.{parse_side, parse_order_type, parse_order_status}
use cpp_market_replay_engine.Order.{Order, remaining_quantity}
use cpp_market_replay_engine.Feed.Canonical.{signed_decimal}
use cpp_market_replay_engine.Base.{ok, ◌≡◌, refl, Option, none, some, [], ◌∷◌, ◌++◌}

abbrev pub order_status_name : OrderStatus → Text
order_status_name OrderStatus.new = codes "new"
order_status_name OrderStatus.pending = codes "pending"
order_status_name OrderStatus.acknowledged = codes "acknowledged"
order_status_name OrderStatus.partially_filled = codes "partially_filled"
order_status_name OrderStatus.filled = codes "filled"
order_status_name OrderStatus.canceled = codes "canceled"
order_status_name OrderStatus.rejected = codes "rejected"

abbrev pub order_side_name : Side → Text
order_side_name Side.buy = codes "buy"
order_side_name Side.sell = codes "sell"

abbrev pub order_kind_name : OrderType → Text
order_kind_name OrderType.market = codes "market"
order_kind_name OrderType.limit = codes "limit"

abbrev pub limit_text : Option PriceTicks → Text
limit_text none = []
limit_text (some price_ticks) = signed_decimal price_ticks

abbrev pub before_comma : Text → Text → Text
before_comma field rest = field ++ (b',' ∷ rest)

unfoldable pub canonical_order_string : Order → Text
canonical_order_string order = before_comma (decimal order.order_id) (
    before_comma (order_side_name order.side) (
      before_comma (order_kind_name order.order_type) (
        before_comma (signed_decimal order.original_quantity) (
          before_comma (signed_decimal order.filled_quantity) (
            before_comma (signed_decimal (remaining_quantity order)) (
              before_comma (decimal order.decision_timestamp_ns) (
                before_comma (decimal order.submit_timestamp_ns) (
                  before_comma (decimal order.exchange_arrival_timestamp_ns) (
                    before_comma (limit_text order.limit_price_ticks)
                      (order_status_name order.status))))))))))

status_read : (status : OrderStatus) → parse_order_status (order_status_name status) ≡ ok status
unfolding parse_order_status
status_read OrderStatus.new = refl
status_read OrderStatus.pending = refl
status_read OrderStatus.acknowledged = refl
status_read OrderStatus.partially_filled = refl
status_read OrderStatus.filled = refl
status_read OrderStatus.canceled = refl
status_read OrderStatus.rejected = refl

side_read : (side : Side) → parse_side (order_side_name side) ≡ ok side
unfolding parse_side
side_read Side.buy = refl
side_read Side.sell = refl

type_read : (order_type : OrderType) → parse_order_type (order_kind_name order_type) ≡ ok order_type
unfolding parse_order_type
type_read OrderType.market = refl
type_read OrderType.limit = refl

-- Every name of a status, a side and a type of an order is read as what it names.
pub names_are_read :
    (status : OrderStatus) (side : Side) (order_type : OrderType)
    → (parse_order_status (order_status_name status) ≡ ok status)
      × (parse_side (order_side_name side) ≡ ok side)
      × (parse_order_type (order_kind_name order_type) ≡ ok order_type)
names_are_read status side order_type = (status_read status, side_read side, type_read order_type)
