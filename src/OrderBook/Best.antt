-- ===== src/OrderBook/Best.antt =====
-- The best levels of a valid book of src/order_book.cpp, and the state of the market between them.
use cpp_market_replay_engine.Base.{
  Option-cases, pos, ◌+ℤ◌, ◌-ℤ◌, ◌≤ℤ◌, ◌<ℤ◌, +ℤ_parts, -ℤ_parts, eq_of_parts, mid_overflow, err, ok,
  ◌≡◌, refl, ◌↔◌, ◌⊎◌, inl, inr, true, false, Option, none, some, [], ◌∷◌, arith,
}
use cpp_market_replay_engine.Types.{int64_max, PriceTicks, Quantity}
use cpp_market_replay_engine.OrderBook.PriceMap.{
  PriceLevel, Levels, Compare, IsStrictOrder, greater, less, After, IsSorted, lookup,
  greater-IsStrictOrder, less-IsStrictOrder,
}
use cpp_market_replay_engine.OrderBook.Find.{eqb_ℤ_iff, irrefl}
use cpp_market_replay_engine.OrderBook.{
  OrderBook, first_level, best_bid, best_ask, spread_ticks, checked_mid, mid_price_x2_ticks,
  is_locked, is_crossed, is_valid_two_sided_market,
}
use cpp_market_replay_engine.OrderBook.Apply.{IsValid}

module _ (before : Compare) (order : IsStrictOrder before) where
  -- In a sorted map every price with a level is behind the bound or is it.
  After-lookup :
      (p q : PriceTicks) (v : Quantity) (levels : Levels)
      → After before p levels
      → lookup q levels ≡ some v
      → before p q ≡ true
  After-lookup p q v [] s e = absurd (cc)
  After-lookup p q v (l ∷ levels) s e = ground (
    arith,
    eqb_ℤ_iff l.price_ticks q,
    After-lookup l.price_ticks q v levels s.1,
    order.trans p l.price_ticks q s.0,
  )

  IsSorted-tail :
      (l : PriceLevel) (levels : Levels) → IsSorted before (l ∷ levels) → IsSorted before levels
  IsSorted-tail l [] s = tt
  IsSorted-tail l (m ∷ levels) s = s.1

-- The best level of a side: none if there is no level; or one that is shown, such that no level
-- shown has a price before its own.
abbrev pub IsBest : Compare → Levels → Option PriceLevel → Type 0
IsBest before levels none = (p : PriceTicks) → lookup p levels ≡ none
IsBest before levels (some l) =
    (lookup l.price_ticks levels ≡ some l.quantity)
    × ((p : PriceTicks) → (lookup p levels ≡ none) ⊎ (before p l.price_ticks ≡ false))

first_level-IsBest :
    (before : Compare) (order : IsStrictOrder before) (levels : Levels)
    → IsSorted before levels
    → IsBest before levels (first_level levels)
first_level-IsBest before order [] s = λ p. refl
first_level-IsBest before order (m ∷ levels) s = (
  ground (arith, eqb_ℤ_iff m.price_ticks m.price_ticks),
  λ p. elim (Option-cases (lookup p (m ∷ levels))) [
    | inl e ↦ inl e
    | inr (q, e) ↦ inr (
        ground (
          arith,
          eqb_ℤ_iff m.price_ticks p,
          irrefl before order p,
          After-lookup before order m.price_ticks p q levels s,
          order.asym m.price_ticks p,
        ))
  ],
)

-- The best bid of a valid book is shown by it, and no bid shown has a higher price; the best ask is
-- shown, and no ask shown has a lower price. Where there is none, the side shows nothing.
pub best_bid-IsBest :
    (book : OrderBook)
    → IsValid book
    → IsBest greater book.bids (best_bid book) × IsBest less book.asks (best_ask book)
best_bid-IsBest book v = (
  first_level-IsBest greater greater-IsStrictOrder book.bids v.bids_sorted,
  first_level-IsBest less less-IsStrictOrder book.asks v.asks_sorted,
)

-- How the market tests, the spread and the middle fit together when both sides have a level.
pub record IsQuote (book : OrderBook) (bid ask : PriceTicks) : Type 0 where
  pub spread_known : spread_ticks book ≡ some (ask -ℤ bid)
  pub locked_iff : (is_locked book ≡ true) ↔ (ask ≡ bid)
  pub crossed_iff : (is_crossed book ≡ true) ↔ (ask <ℤ bid)
  pub valid_iff : (is_valid_two_sided_market book ≡ true) ↔ (bid <ℤ ask)
  pub mid_known : (mid_price_x2_ticks book ≡ ok (some (bid +ℤ ask))) ↔ (bid +ℤ ask ≤ℤ pos int64_max)
  pub mid_refused : (mid_price_x2_ticks book ≡ err mid_overflow) ↔ (pos int64_max <ℤ bid +ℤ ask)

pub record IsUnquoted (book : OrderBook) : Type 0 where
  pub no_spread : spread_ticks book ≡ none
  pub no_mid : mid_price_x2_ticks book ≡ ok none
  pub not_locked : is_locked book ≡ false
  pub not_crossed : is_crossed book ≡ false
  pub not_valid : is_valid_two_sided_market book ≡ false

abbrev pub Quoted : OrderBook → Option PriceLevel → Option PriceLevel → Type 0
Quoted book (some bid) (some ask) = IsQuote book bid.price_ticks ask.price_ticks
Quoted book (some bid) none = IsUnquoted book
Quoted book none ask = IsUnquoted book

-- The middle is refused by the guard exactly where the sum does not fit.
checked_mid_cases :
    (bid ask : PriceTicks)
    → ((checked_mid bid ask ≡ ok (some (bid +ℤ ask))) × (bid +ℤ ask ≤ℤ pos int64_max))
      ⊎ ((checked_mid bid ask ≡ err mid_overflow) × (pos int64_max <ℤ bid +ℤ ask))
checked_mid_cases bid ask = ground (arith, -ℤ_parts (pos int64_max) ask, +ℤ_parts bid ask)

levels-Quoted :
    (bids asks : Levels)
    → Quoted (record { bids = bids; asks = asks }) (first_level bids) (first_level asks)
unfolding spread_ticks is_locked is_crossed is_valid_two_sided_market mid_price_x2_ticks
levels-Quoted [] asks = ground arith
levels-Quoted (bid ∷ bids) [] = ground arith
levels-Quoted (bid ∷ bids) (ask ∷ asks) =
    let b = bid.price_ticks in
    let a = ask.price_ticks in
    record {
      spread_known = refl;
      locked_iff = (λ h. eq_of_parts a b (ground arith), λ h. rw h (ground arith));
      crossed_iff = (λ h. ground arith, λ h. ground arith);
      valid_iff = (λ h. ground arith, λ h. ground arith);
      mid_known =
          (λ h. ground (arith, checked_mid_cases b a), λ h. ground (arith, checked_mid_cases b a));
      mid_refused =
          (λ h. ground (arith, checked_mid_cases b a), λ h. ground (arith, checked_mid_cases b a));
    }

-- With a level on both sides the spread is the difference of the best prices, the market is locked,
-- crossed or valid by their order, and the doubled middle price is their sum, refused exactly where
-- that does not fit an int64_t. With an empty side there is no spread, no middle and no such market.
pub best-Quoted : (book : OrderBook) → Quoted book (best_bid book) (best_ask book)
best-Quoted book = levels-Quoted book.bids book.asks
