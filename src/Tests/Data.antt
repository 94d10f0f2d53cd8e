-- ===== src/Tests/Data.antt =====
-- The data that the tests share.
use cpp_market_replay_engine.Base.{pos, ℕ, Option, [], ◌∷◌}
use cpp_market_replay_engine.Types.{Side, EventKey}
use cpp_market_replay_engine.Market.{BookUpdateEvent, TradeEvent}
use cpp_market_replay_engine.OrderBook.{OrderBook}
use cpp_market_replay_engine.OrderBook.PriceMap.{PriceLevel}
use cpp_market_replay_engine.Fill.{Fill}

abbrev pub level : ℕ → ℕ → PriceLevel
level p q = record { price_ticks = pos p; quantity = pos q }

-- Bids at 100 and 99, asks at 102 and 103.
abbrev pub quoted_book : OrderBook
quoted_book = record { bids = level 100 5 ∷ level 99 7 ∷ []; asks = level 102 4 ∷ level 103 6 ∷ [] }

abbrev pub key_at : ℕ → ℕ → EventKey
key_at t i = record { timestamp_ns = t; sequence_id = i }

abbrev pub update_at : ℕ → ℕ → Side → ℕ → ℕ → BookUpdateEvent
update_at t i side p q = record {
  key = key_at t i;
  side = side;
  price_ticks = pos p;
  quantity = pos q;
}

abbrev pub trade_at : ℕ → ℕ → ℕ → ℕ → Option Side → TradeEvent
trade_at t i p q aggressor = record {
  key = key_at t i;
  price_ticks = pos p;
  quantity = pos q;
  aggressor_side = aggressor;
}

abbrev pub fill_of : ℕ → Side → ℕ → ℕ → ℕ → Fill
fill_of i side p q fee = record {
  order_id = 1;
  side = side;
  price_ticks = pos p;
  quantity = pos q;
  fill_timestamp_ns = 10;
  fill_sequence_id = i;
  fee_amount = pos fee;
}
