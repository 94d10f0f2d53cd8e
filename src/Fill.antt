-- ===== src/Fill.antt =====
-- include/replay/fill.hpp: one execution of an order at a price.
use cpp_market_replay_engine.Base.{ℤ, ℕ}
use cpp_market_replay_engine.Types.{TimestampNs, OrderId, PriceTicks, Quantity, Side}

pub record Fill : Type 0 where
  pub order_id : OrderId
  pub side : Side
  pub price_ticks : PriceTicks
  pub quantity : Quantity
  pub fill_timestamp_ns : TimestampNs
  pub fill_sequence_id : ℕ
  pub fee_amount : ℤ
