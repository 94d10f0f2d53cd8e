-- ===== src/Latency/Arrival.antt =====
-- A limit order at the exchange: the part of `process_limit_order_arrival` of
-- src/latency_execution.cpp that trades against the visible depth.
use cpp_market_replay_engine.Base.{
  if◌then◌else◌, pos, leb_ℤ, eqb_ℤ, missing_limit_price, Result, ok, err, ◌>>=◌, ◌>>◌, Bool, false,
  not, ◌||◌, Option, none, some, List, [], ◌∷◌,
}
use cpp_market_replay_engine.Types.{PriceTicks, is_buy, validate_quantity}
use cpp_market_replay_engine.OrderBook.PriceMap.{PriceLevel, Levels}
use cpp_market_replay_engine.Order.{Order, remaining_quantity}
use cpp_market_replay_engine.Fill.{Fill}
use cpp_market_replay_engine.Execution.{Simulator, take_level}

abbrev pub limit_price : Option PriceTicks → Result PriceTicks
limit_price none = err missing_limit_price
limit_price (some price_ticks) = ok price_ticks

unfoldable pub limit_price_allows_level : Order → PriceTicks → Result Bool
limit_price_allows_level order level_price_ticks = do
  limit ← limit_price order.limit_price_ticks
  ok (if is_buy order.side then leb_ℤ level_price_ticks limit else leb_ℤ limit level_price_ticks)

abbrev pub is_limit_price : Option PriceTicks → PriceTicks → Bool
is_limit_price none price_ticks = false
is_limit_price (some limit) price_ticks = eqb_ℤ price_ticks limit

-- What changes in the loop over the depth.
pub record Crossing : Type 0 where
  pub simulator : Simulator
  pub order : Order
  pub fills : List Fill
  pub filled_at_limit : Bool

-- The loop's body for a level that the limit price allows.
unfoldable pub cross_level : Crossing → PriceLevel → Result Crossing
cross_level c level = do
  (simulator, order, fills) ← take_level c.simulator c.order c.fills level
  ok (record {
    simulator = simulator;
    order = order;
    fills = fills;
    filled_at_limit = c.filled_at_limit || is_limit_price order.limit_price_ticks level.price_ticks;
  })

-- The loop.
unfoldable pub cross_depth : Crossing → Levels → Result Crossing
cross_depth c [] = ok c
cross_depth c (level ∷ depth) =
    let skipped = cross_depth c depth in
    validate_quantity level.quantity
    >> (if eqb_ℤ level.quantity (pos 0) || eqb_ℤ (remaining_quantity c.order) (pos 0)
        then skipped
        else (limit_price_allows_level c.order level.price_ticks >>= λ allowed.
            if not allowed then ok c else (cross_level c level >>= λ next. cross_depth next depth)))
