-- ===== src/Market.antt =====
-- The market events of include/replay/market_feed.hpp and src/market_feed.cpp. A variant of two
-- event classes is a data type with two constructors.
use cpp_market_replay_engine.Base.{Option}
use cpp_market_replay_engine.Base.Text.{Text}
use cpp_market_replay_engine.Types.{PriceTicks, Quantity, Side, EventKey}

pub data PriceFieldFormat : Type 0 where
  decimal_price ticks : PriceFieldFormat

pub record FeedParserConfig : Type 0 where
  pub tick_size : Text
  pub price_format : PriceFieldFormat

pub record BookUpdateEvent : Type 0 where
  pub key : EventKey
  pub side : Side
  pub price_ticks : PriceTicks
  pub quantity : Quantity

pub record TradeEvent : Type 0 where
  pub key : EventKey
  pub price_ticks : PriceTicks
  pub quantity : Quantity
  pub aggressor_side : Option Side

pub data MarketEvent : Type 0 where
  book_update : BookUpdateEvent → MarketEvent
  trade : TradeEvent → MarketEvent

pub data MarketEventType : Type 0 where
  book_updates trades : MarketEventType

-- `MarketEvent::type`
abbrev pub event_type : MarketEvent → MarketEventType
event_type (book_update _) = MarketEventType.book_updates
event_type (trade _) = MarketEventType.trades

-- `MarketEvent::key`
abbrev pub event_key : MarketEvent → EventKey
event_key (book_update e) = e.key
event_key (trade e) = e.key
