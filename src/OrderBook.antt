-- ===== src/OrderBook.antt =====
-- include/replay/order_book.hpp and src/order_book.cpp: the two sides of the visible book, its
-- update and its queries. `reserve` has no counterpart.
pub mod PriceMap
pub mod Find
pub mod Apply
pub mod Best
pub mod Checks
pub mod State
use cpp_market_replay_engine.Base.{
  ◌==◌, if◌then◌else◌, length, ℤ, pos, ◌+ℤ◌, ◌-ℤ◌, ltb_ℤ, eqb_ℤ, mid_overflow, Result, ok, err,
  ◌>>=◌, ◌>>◌, ℕ, zero, suc, Bool, true, false, not, ◌&&◌, ◌||◌, Option, none, some, [], ◌∷◌,
}
use cpp_market_replay_engine.Types.{
  int64_max, PriceTicks, Quantity, is_buy, validate_price_ticks, validate_quantity,
}
use cpp_market_replay_engine.Market.{BookUpdateEvent}
use cpp_market_replay_engine.OrderBook.PriceMap.{
  PriceLevel, Levels, Compare, greater, less, assign, erase, find,
}

pub record OrderBook : Type 0 where
  pub bids : Levels
  pub asks : Levels

abbrev pub empty_book : OrderBook
empty_book = record { bids = []; asks = [] }

-- `OrderBook::apply` after its validation
unfoldable pub update_levels : OrderBook → BookUpdateEvent → OrderBook
update_levels book update =
    if is_buy update.side
    then if eqb_ℤ update.quantity (pos 0)
      then record book { bids = erase greater update.price_ticks book.bids }
      else record book { bids = assign greater update.price_ticks update.quantity book.bids }
    else if eqb_ℤ update.quantity (pos 0)
    then record book { asks = erase less update.price_ticks book.asks }
    else record book { asks = assign less update.price_ticks update.quantity book.asks }

unfoldable pub apply : OrderBook → BookUpdateEvent → Result OrderBook
unfolding update_levels validate_price_ticks validate_quantity
apply book update = do
  validate_price_ticks update.price_ticks
  validate_quantity update.quantity
  ok (update_levels book update)

-- `*levels.begin()`, if there is one
abbrev pub first_level : Levels → Option PriceLevel
first_level [] = none
first_level (l ∷ levels) = some l

abbrev pub best_bid : OrderBook → Option PriceLevel
best_bid book = first_level book.bids

abbrev pub best_ask : OrderBook → Option PriceLevel
best_ask book = first_level book.asks

unfoldable pub quantity_at : Compare → Levels → PriceTicks → Result (Option Quantity)
unfolding validate_price_ticks
quantity_at before levels price_ticks = do
  validate_price_ticks price_ticks
  ok (find before price_ticks levels)

unfoldable pub bid_quantity_at : OrderBook → PriceTicks → Result (Option Quantity)
unfolding quantity_at
bid_quantity_at book price_ticks = quantity_at greater book.bids price_ticks

unfoldable pub ask_quantity_at : OrderBook → PriceTicks → Result (Option Quantity)
unfolding quantity_at
ask_quantity_at book price_ticks = quantity_at less book.asks price_ticks

-- The loop of `top_levels`, on the number of levels that may still be emitted.
abbrev pub top_levels : Levels → ℕ → Levels
top_levels [] max_levels = []
top_levels (l ∷ levels) zero = []
top_levels (l ∷ levels) (suc n) = l ∷ top_levels levels n

abbrev pub top_bids : OrderBook → ℕ → Levels
top_bids book max_levels = top_levels book.bids max_levels

abbrev pub top_asks : OrderBook → ℕ → Levels
top_asks book max_levels = top_levels book.asks max_levels

abbrev pub bid_level_count : OrderBook → ℕ
bid_level_count book = length book.bids

abbrev pub ask_level_count : OrderBook → ℕ
ask_level_count book = length book.asks

abbrev pub is_empty : OrderBook → Bool
is_empty book = bid_level_count book == 0 && ask_level_count book == 0

-- A query of both best levels: `none` if a side is empty.
abbrev pub two_sided {ℓ} : {A : Type ℓ} → (PriceTicks → PriceTicks → A) → OrderBook → Option A
two_sided f book = elim (best_bid book) [
  | none ↦ none
  | some bid ↦ elim (best_ask book) [
    | none ↦ none
    | some ask ↦ some (f bid.price_ticks ask.price_ticks)
  ]
]

unfoldable pub spread_ticks : OrderBook → Option ℤ
spread_ticks = two_sided λ bid ask. ask -ℤ bid

-- The sum of the best prices, where a test guards it against overflow.
abbrev pub checked_mid : PriceTicks → PriceTicks → Result (Option ℤ)
checked_mid bid ask =
    if ltb_ℤ (pos int64_max -ℤ ask) bid then err mid_overflow else ok (some (bid +ℤ ask))

unfoldable pub mid_price_x2_ticks : OrderBook → Result (Option ℤ)
mid_price_x2_ticks book = elim (two_sided checked_mid book) [ none ↦ ok none | some r ↦ r ]

abbrev pub or_false : Option Bool → Bool
or_false none = false
or_false (some b) = b

unfoldable pub is_locked : OrderBook → Bool
is_locked book = or_false (two_sided (λ bid ask. eqb_ℤ bid ask) book)

unfoldable pub is_crossed : OrderBook → Bool
is_crossed book = or_false (two_sided (λ bid ask. ltb_ℤ ask bid) book)

unfoldable pub is_valid_two_sided_market : OrderBook → Bool
is_valid_two_sided_market book = or_false (two_sided (λ bid ask. ltb_ℤ bid ask) book)

unfoldable pub has_zero_quantity : Levels → Bool
has_zero_quantity [] = false
has_zero_quantity (l ∷ levels) = eqb_ℤ l.quantity (pos 0) || has_zero_quantity levels

unfoldable pub has_negative_quantity : Levels → Bool
has_negative_quantity [] = false
has_negative_quantity (l ∷ levels) = ltb_ℤ l.quantity (pos 0) || has_negative_quantity levels

unfoldable pub has_zero_quantity_levels : OrderBook → Bool
unfolding has_zero_quantity
has_zero_quantity_levels book = has_zero_quantity book.bids || has_zero_quantity book.asks

unfoldable pub has_negative_quantity_levels : OrderBook → Bool
unfolding has_negative_quantity
has_negative_quantity_levels book =
    has_negative_quantity book.bids || has_negative_quantity book.asks

-- The loop over adjacent levels, from `previous` on.
unfoldable pub ordering_is_strict : Compare → Levels → Bool
ordering_is_strict before [] = true
ordering_is_strict before (previous ∷ []) = true
ordering_is_strict before (previous ∷ current ∷ levels) =
    let rest = ordering_is_strict before (current ∷ levels) in
    if not (before previous.price_ticks current.price_ticks) then false else rest

unfoldable pub bid_ordering_is_strict : OrderBook → Bool
unfolding ordering_is_strict
bid_ordering_is_strict book = ordering_is_strict greater book.bids

unfoldable pub ask_ordering_is_strict : OrderBook → Bool
unfolding ordering_is_strict
ask_ordering_is_strict book = ordering_is_strict less book.asks
