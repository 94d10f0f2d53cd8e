-- ===== src/Latency/Trade.antt =====
-- A trade against the resting limit orders: `LatencyAwareExecution::process_trade` of
-- src/latency_execution.cpp, one active order at a time.
use cpp_market_replay_engine.Base.{
  ◌==◌, if◌then◌else◌, set, pos, ◌-ℤ◌, ltb_ℤ, eqb_ℤ, min_ℤ, unknown_order, Result, ok, err, ◌>>=◌,
  ℕ, suc, Bool, false, not, ◌&&◌, ◌||◌, Option, none, some, List, [], ◌∷◌, ◌++◌,
}
use cpp_market_replay_engine.Types.{
  TimestampNs, OrderId, PriceTicks, Quantity, Side, OrderStatus, is_buy, same_status,
}
use cpp_market_replay_engine.Market.{TradeEvent}
use cpp_market_replay_engine.Order.{Order, remaining_quantity, transition_to, record_fill_quantity}
use cpp_market_replay_engine.Fill.{Fill}
use cpp_market_replay_engine.Execution.{Simulator, create_fill}

pub record ActiveLimitOrder : Type 0 where
  pub order_id : OrderId
  pub side : Side
  pub limit_price_ticks : PriceTicks
  pub queue_ahead : Quantity
  pub arrival_timestamp_ns : TimestampNs

abbrev pub is_active_resting_status : OrderStatus → Bool
is_active_resting_status status =
    same_status status OrderStatus.acknowledged || same_status status OrderStatus.partially_filled

-- The aggressor sold to a resting buy order, or bought from a resting sell order.
abbrev pub hits : Side → Option Side → Bool
hits side none = false
hits Side.buy (some aggressor) = not (is_buy aggressor)
hits Side.sell (some aggressor) = is_buy aggressor

abbrev pub exact_price_trade_qualifies : ActiveLimitOrder → TradeEvent → Bool
exact_price_trade_qualifies active trade =
    hits active.side trade.aggressor_side && eqb_ℤ trade.price_ticks active.limit_price_ticks

abbrev pub trade_through_qualifies : ActiveLimitOrder → TradeEvent → Bool
trade_through_qualifies active trade =
    hits active.side trade.aggressor_side
    && (if is_buy active.side
        then ltb_ℤ trade.price_ticks active.limit_price_ticks
        else ltb_ℤ active.limit_price_ticks trade.price_ticks)

-- The index of an order, and the order.
unfoldable pub find_order : OrderId → List Order → Result (ℕ × Order)
find_order id [] = err unknown_order
find_order id (o ∷ orders) =
    let rest = find_order id orders in
    if o.order_id == id then ok (0, o) else (rest >>= λ (index, found). ok (suc index, found))

-- What changes while a trade is matched.
pub record Matching : Type 0 where
  pub simulator : Simulator
  pub orders : List Order
  pub fills : List Fill
  pub remaining_trade_quantity : Quantity

-- The status of an order after a passive fill, and the queue ahead of it.
unfoldable pub after_passive_fill : Order → ActiveLimitOrder → Result (Order × ActiveLimitOrder)
after_passive_fill order active =
    if eqb_ℤ (remaining_quantity order) (pos 0)
    then (transition_to order OrderStatus.filled >>= λ filled.
        ok (filled, record active { queue_ahead = pos 0 }))
    else if same_status order.status OrderStatus.acknowledged
    then (transition_to order OrderStatus.partially_filled >>= λ partial. ok (partial, active))
    else ok (order, active)

-- One passive fill.
unfoldable pub fill_order :
    TradeEvent
    → ActiveLimitOrder
    → ℕ
    → Order
    → Quantity
    → Matching
    → Result (ActiveLimitOrder × Matching)
fill_order trade active index order quantity m = do
  (fill, simulator) ←
      create_fill m.simulator order active.limit_price_ticks quantity trade.key.timestamp_ns
  filled ← record_fill_quantity order quantity
  (closed, left) ← after_passive_fill filled active
  ok (
    left,
    record {
      simulator = simulator;
      orders = set m.orders index closed;
      fills = m.fills ++ fill ∷ [];
      remaining_trade_quantity = m.remaining_trade_quantity -ℤ quantity;
    },
  )

-- The part of the loop's body after the queue ahead is gone.
unfoldable pub fill_passive :
    TradeEvent → ActiveLimitOrder → ℕ → Order → Matching → Result (ActiveLimitOrder × Matching)
fill_passive trade active index order m =
    let quantity = min_ℤ (remaining_quantity order) m.remaining_trade_quantity in
    if eqb_ℤ quantity (pos 0)
    then ok (active, m)
    else fill_order trade active index order quantity m

-- The queue ahead that the trade leaves in place: none where it traded through the price.
abbrev pub queue_before : ActiveLimitOrder → TradeEvent → Quantity
queue_before active trade =
    if trade_through_qualifies active trade then pos 0 else active.queue_ahead

-- The part of the loop's body for an order that qualifies: the trade first consumes the queue.
unfoldable pub consume_queue :
    TradeEvent → ActiveLimitOrder → ℕ → Order → Matching → Result (ActiveLimitOrder × Matching)
consume_queue trade active index order m =
    let before = queue_before active trade in
    let queue_consumed = min_ℤ before m.remaining_trade_quantity in
    let queued = record active { queue_ahead = before -ℤ queue_consumed } in
    let left = m.remaining_trade_quantity -ℤ queue_consumed in
    let next = record m { remaining_trade_quantity = left } in
    if eqb_ℤ left (pos 0) || ltb_ℤ (pos 0) queued.queue_ahead
    then ok (queued, next)
    else fill_passive trade queued index order next

-- The loop's body.
unfoldable pub match_active :
    TradeEvent → ActiveLimitOrder → Matching → Result (ActiveLimitOrder × Matching)
match_active trade active m =
    if not (exact_price_trade_qualifies active trade) && not (trade_through_qualifies active trade)
    then ok (active, m)
    else (find_order active.order_id m.orders >>= λ (index, order).
        if not (is_active_resting_status order.status)
        then ok (active, m)
        else consume_queue trade active index order m)

-- The loop.
unfoldable pub match_all :
    TradeEvent → List ActiveLimitOrder → Matching → Result (List ActiveLimitOrder × Matching)
match_all trade [] m = ok ([], m)
match_all trade (active ∷ rest) m =
    if eqb_ℤ m.remaining_trade_quantity (pos 0) then ok (active ∷ rest, m) else do
      (matched, next) ← match_active trade active m
      (others, last) ← match_all trade rest next
      ok (matched ∷ others, last)

abbrev pub is_closed : OrderStatus → Bool
is_closed status =
    same_status status OrderStatus.filled
    || same_status status OrderStatus.canceled
    || same_status status OrderStatus.rejected

-- The `remove_if` after the loop.
unfoldable pub keep_open : List Order → List ActiveLimitOrder → Result (List ActiveLimitOrder)
keep_open orders [] = ok []
keep_open orders (active ∷ rest) = do
  (_, order) ← find_order active.order_id orders
  others ← keep_open orders rest
  ok (if is_closed order.status then others else active ∷ others)
