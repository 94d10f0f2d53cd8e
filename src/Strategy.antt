-- ===== src/Strategy.antt =====
-- include/replay/strategy.hpp: the intents that a strategy emits.
use cpp_market_replay_engine.Base.{Option}
use cpp_market_replay_engine.Types.{TimestampNs, PriceTicks, Quantity, Side, OrderType}

pub record OrderIntent : Type 0 where
  pub side : Side
  pub quantity : Quantity
  pub order_type : OrderType
  pub limit_price_ticks : Option PriceTicks
  pub decision_timestamp_ns : TimestampNs
