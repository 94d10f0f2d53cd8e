-- ===== src/QueueImbalance.antt =====
-- strategies/queue_imbalance_strategy.hpp and strategies/queue_imbalance_strategy.cpp: a strategy that
-- compares the visible volumes of the two sides of the book. Floating-point numbers are a parameter:
-- a type with the operations of double that the code uses.
pub mod Volume
pub mod Signal
use cpp_market_replay_engine.Base.{
  ◌==◌, if◌then◌else◌, ℤ, pos, ◌+ℤ◌, ◌-ℤ◌, ltb_ℤ, leb_ℤ, eqb_ℤ, imbalance_volume_overflow,
  imbalance_total_overflow, nonpositive_order_quantity, thresholds_swapped, Result, err, ok,
  throw_if, ◌>>=◌, ◌>>◌, ℕ, Bool, true, false, ◌||◌, Option, none, some, List, [], ◌∷◌,
}
use cpp_market_replay_engine.Types.{int64_max, TimestampNs, PriceTicks, Quantity, Side, OrderType}
use cpp_market_replay_engine.Market.{BookUpdateEvent}
use cpp_market_replay_engine.OrderBook.{
  OrderBook, best_bid, best_ask, top_bids, top_asks, is_locked, is_crossed,
}
use cpp_market_replay_engine.OrderBook.PriceMap.{Levels}
use cpp_market_replay_engine.Strategy.{OrderIntent}
use cpp_market_replay_engine.Runner.{Strategy}

-- What the code uses of double: `static_cast` from an int64_t, `/`, and `>`.
pub record Doubles (D : Type 0) : Type 0 where
  pub from_int64 : ℤ → D
  pub divide : D → D → D
  pub is_above : D → D → Bool

pub record QueueImbalanceConfig (D : Type 0) : Type 0 where
  pub depth_levels : ℕ
  pub buy_threshold : D
  pub sell_threshold : D
  pub order_quantity : Quantity
  pub order_type : OrderType
  pub limit_price_ticks : Option PriceTicks

pub record QueueImbalanceStrategy (D : Type 0) : Type 0 where
  pub config : QueueImbalanceConfig D
  pub last_queue_imbalance : Option D

-- The loop of `sum_quantity`, from a total on.
unfoldable pub sum_quantity : Quantity → Levels → Result Quantity
sum_quantity total [] = ok total
sum_quantity total (level ∷ levels) =
    let rest = sum_quantity (total +ℤ level.quantity) levels in
    if ltb_ℤ (pos int64_max -ℤ total) level.quantity then err imbalance_volume_overflow else rest

abbrev pub lacks_best : OrderBook → Bool
lacks_best book = elim (best_bid book) [
  | none ↦ true
  | some bid ↦ elim (best_ask book) [ none ↦ true | some ask ↦ false ]
]

module _ {D : Type 0} (doubles : Doubles D) where
  unfoldable pub validate_config : QueueImbalanceConfig D → Result (Unit {0})
  validate_config config = do
    throw_if (leb_ℤ config.order_quantity (pos 0)) nonpositive_order_quantity
    throw_if (doubles.is_above config.sell_threshold config.buy_threshold) thresholds_swapped

  -- The constructor.
  unfoldable pub make_queue_imbalance : QueueImbalanceConfig D → Result (QueueImbalanceStrategy D)
  unfolding validate_config
  make_queue_imbalance config = do
    validate_config config
    ok (record { config = config; last_queue_imbalance = none })

  -- The part of `compute_queue_imbalance` behind its early returns.
  unfoldable pub measure_volumes : ℕ → OrderBook → Result (Option D)
  measure_volumes depth_levels book = do
    bid_volume ← sum_quantity (pos 0) (top_bids book depth_levels)
    ask_volume ← sum_quantity (pos 0) (top_asks book depth_levels)
    throw_if (ltb_ℤ (pos int64_max -ℤ bid_volume) ask_volume) imbalance_total_overflow
    ok (
        if eqb_ℤ (bid_volume +ℤ ask_volume) (pos 0)
        then none
        else some (
            doubles.divide (doubles.from_int64 (bid_volume -ℤ ask_volume))
              (doubles.from_int64 (bid_volume +ℤ ask_volume))))

  unfoldable pub compute_queue_imbalance : QueueImbalanceConfig D → OrderBook → Result (Option D)
  compute_queue_imbalance config book =
      if (config.depth_levels == 0) || lacks_best book
      then ok none
      else if is_locked book || is_crossed book
      then ok none
      else measure_volumes config.depth_levels book

  abbrev pub intent_of : QueueImbalanceConfig D → Side → TimestampNs → OrderIntent
  intent_of config side timestamp_ns = record {
    side = side;
    quantity = config.order_quantity;
    order_type = config.order_type;
    limit_price_ticks = config.limit_price_ticks;
    decision_timestamp_ns = timestamp_ns;
  }

  -- The intents of `on_book`, by the measured imbalance.
  abbrev pub signal : QueueImbalanceConfig D → TimestampNs → Option D → List OrderIntent
  signal config timestamp_ns none = []
  signal config timestamp_ns (some imbalance) =
      if doubles.is_above imbalance config.buy_threshold
      then intent_of config Side.buy timestamp_ns ∷ []
      else if doubles.is_above config.sell_threshold imbalance
      then intent_of config Side.sell timestamp_ns ∷ []
      else []

  unfoldable pub on_book_update :
      BookUpdateEvent
      → OrderBook
      → QueueImbalanceStrategy D
      → Result (QueueImbalanceStrategy D × List OrderIntent)
  on_book_update event book s = do
    imbalance ← compute_queue_imbalance s.config book
    ok (
      record s { last_queue_imbalance = imbalance },
      signal s.config event.key.timestamp_ns imbalance,
    )

  -- The overridden handlers; those for trades and timers are empty.
  abbrev pub queue_imbalance_strategy : Strategy (QueueImbalanceStrategy D)
  queue_imbalance_strategy = record {
    on_book = on_book_update;
    on_trade = λ event book s. ok (s, []);
    on_timer = λ t event book s. ok (s, []);
  }
