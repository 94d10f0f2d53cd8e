-- ===== src/Tests/Books.antt =====
-- Tests of the order book.
use cpp_market_replay_engine.Base.{
  pos, negsuc, ◌≤ℤ◌, ◌<ℤ◌, negative_price, err, ok, ◌≡◌, refl, ◌⊎◌, true, false, none, some, List,
  [], ◌∷◌, ◌++◌, arith,
}
use cpp_market_replay_engine.OrderBook.{
  OrderBook, update_levels, apply, best_bid, best_ask, bid_quantity_at, ask_quantity_at,
  has_zero_quantity, has_negative_quantity, has_zero_quantity_levels, has_negative_quantity_levels,
  ordering_is_strict, bid_ordering_is_strict, ask_ordering_is_strict,
}
use cpp_market_replay_engine.OrderBook.PriceMap.{greater, less, assign, erase}
use cpp_market_replay_engine.OrderBook.Checks.{Checked, self_checks-Checked}
use cpp_market_replay_engine.Types.{PriceTicks, Side, validate_price_ticks, validate_quantity}
use cpp_market_replay_engine.Base.Text.{codes, digits}
use cpp_market_replay_engine.OrderBook.State.{append_levels, canonical_state}
use cpp_market_replay_engine.Market.{BookUpdateEvent}
use cpp_market_replay_engine.OrderBook.Apply.{
  IsValid, shown, or_else, apply_all, last_stated, IsNormalized, apply_all_shows_last,
  quantity_at_shown,
}
use cpp_market_replay_engine.OrderBook.Best.{IsBest, best_bid-IsBest, Quoted, best-Quoted}
use cpp_market_replay_engine.Tests.Data.{level, quoted_book, update_at}

quoted_book-IsValid : IsValid quoted_book
quoted_book-IsValid = ground arith

-- The bid at 100 is deleted, and the one at 99 is changed.
abbrev updates : List BookUpdateEvent
updates =
    update_at 1 0 Side.buy 100 0 ∷ update_at 2 0 Side.buy 99 3 ∷ update_at 3 0 Side.sell 101 2 ∷ []

updated :
    apply_all quoted_book updates
    ≡ ok (record { bids = level 99 3 ∷ []; asks = level 101 2 ∷ level 102 4 ∷ level 103 6 ∷ [] })
unfolding apply_all apply update_levels assign erase validate_price_ticks validate_quantity
updated = refl

updates-IsNormalized : IsNormalized updates
updates-IsNormalized = ground arith

apply_all_shows_last_example :
    (next : OrderBook) × (apply_all quoted_book updates ≡ ok next)
    × IsValid next
    × ((side : Side) (p : PriceTicks)
        → shown next side p ≡ or_else (last_stated updates side p) (shown quoted_book side p))
apply_all_shows_last_example =
    apply_all_shows_last quoted_book updates quoted_book-IsValid updates-IsNormalized

best_bid-IsBest_example :
    IsBest greater quoted_book.bids (best_bid quoted_book)
    × IsBest less quoted_book.asks (best_ask quoted_book)
best_bid-IsBest_example = best_bid-IsBest quoted_book quoted_book-IsValid

best-Quoted_example : Quoted quoted_book (some (level 100 5)) (some (level 102 4))
best-Quoted_example = best-Quoted quoted_book

-- A bid below zero in front of a better one, and an ask without quantity.
abbrev broken_book : OrderBook
broken_book = record {
  bids = record { price_ticks = pos 99; quantity = negsuc 2 } ∷ level 100 5 ∷ [];
  asks = level 102 0 ∷ level 103 6 ∷ [];
}

broken_book-found :
    (has_zero_quantity_levels broken_book ≡ true)
    × (has_negative_quantity_levels broken_book ≡ true)
    × (bid_ordering_is_strict broken_book ≡ false)
    × (ask_ordering_is_strict broken_book ≡ true)
unfolding has_zero_quantity_levels has_negative_quantity_levels bid_ordering_is_strict
    ask_ordering_is_strict has_zero_quantity has_negative_quantity ordering_is_strict
broken_book-found = (refl, refl, refl, refl)

self_checks-Checked_example : Checked broken_book
self_checks-Checked_example = self_checks-Checked broken_book

quantity_at_shown_example :
    ((pos 99 <ℤ pos 0)
      × (bid_quantity_at quoted_book (pos 99) ≡ err negative_price)
      × (ask_quantity_at quoted_book (pos 99) ≡ err negative_price))
    ⊎ ((pos 0 ≤ℤ pos 99)
        × (bid_quantity_at quoted_book (pos 99) ≡ ok (some (pos 7)))
        × (ask_quantity_at quoted_book (pos 99) ≡ ok none))
quantity_at_shown_example = quantity_at_shown quoted_book (pos 99) quoted_book-IsValid

book_text :
    canonical_state quoted_book
    ≡ codes "B,100,5"
      ++ (10 ∷ (codes "B,99,7" ++ (10 ∷ (codes "A,102,4" ++ (10 ∷ (codes "A,103,6" ++ 10 ∷ []))))))
unfolding canonical_state append_levels digits
book_text = refl
