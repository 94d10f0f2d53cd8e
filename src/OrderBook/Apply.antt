-- ===== src/OrderBook/Apply.antt =====
-- What one update of src/order_book.cpp does to the book: its invariant, its errors, and the depth
-- that the queries report afterwards.
use cpp_market_replay_engine.Base.{
  if◌then◌else◌, All, pos, ◌≤ℤ◌, ◌<ℤ◌, eqb_ℤ, negative_price, negative_quantity, Result, err, ok,
  ◌>>=◌, ◌≡◌, refl, subst, ◌⊎◌, inl, inr, not, ◌&&◌, Option, none, some, List, [], ◌∷◌, arith,
}
use cpp_market_replay_engine.Types.{PriceTicks, Quantity, Side, is_buy}
use cpp_market_replay_engine.Market.{BookUpdateEvent}
use cpp_market_replay_engine.OrderBook.PriceMap.{
  PriceLevel, Levels, Compare, greater, less, assign, erase, IsSorted, lookup,
  greater-IsStrictOrder, less-IsStrictOrder,
}
use cpp_market_replay_engine.OrderBook.Find.{
  find-lookup, lookup-assign, lookup-erase, assign-IsSorted, erase-IsSorted,
}
use cpp_market_replay_engine.OrderBook.{
  OrderBook, empty_book, update_levels, apply, bid_quantity_at, ask_quantity_at,
}

-- A level of a valid book: a price that is not negative and a quantity above zero.
abbrev pub IsLevel : PriceLevel → Type 0
IsLevel l = (pos 0 ≤ℤ l.price_ticks) × (pos 0 <ℤ l.quantity)

pub record IsValid (book : OrderBook) : Type 0 where
  pub bids_sorted : IsSorted greater book.bids
  pub asks_sorted : IsSorted less book.asks
  pub bid_levels : All IsLevel book.bids
  pub ask_levels : All IsLevel book.asks

module _ (before : Compare) where
  assign-All :
      (p : PriceTicks) (q : Quantity) (levels : Levels)
      → pos 0 ≤ℤ p
      → pos 0 <ℤ q
      → All IsLevel levels
      → All IsLevel (assign before p q levels)
  unfolding assign
  assign-All p q [] hp hq h = ((hp, hq), tt)
  assign-All p q (l ∷ levels) hp hq h = ground (arith, assign-All p q levels hp hq h.1)

  erase-All :
      (p : PriceTicks) (levels : Levels) → All IsLevel levels → All IsLevel (erase before p levels)
  unfolding erase
  erase-All p [] h = tt
  erase-All p (l ∷ levels) h = ground (arith, erase-All p levels h.1)

pub empty_book-IsValid : IsValid empty_book
empty_book-IsValid = record { bids_sorted = tt; asks_sorted = tt; bid_levels = tt; ask_levels = tt }

update_levels-IsValid :
    (book : OrderBook) (update : BookUpdateEvent)
    → IsValid book
    → pos 0 ≤ℤ update.price_ticks
    → pos 0 ≤ℤ update.quantity
    → IsValid (update_levels book update)
unfolding update_levels
update_levels-IsValid book update v hp hq = ground (
  arith,
  assign-IsSorted greater greater-IsStrictOrder update.price_ticks update.quantity book.bids
      v.bids_sorted,
  assign-IsSorted less less-IsStrictOrder update.price_ticks update.quantity book.asks
      v.asks_sorted,
  erase-IsSorted greater greater-IsStrictOrder update.price_ticks book.bids v.bids_sorted,
  erase-IsSorted less less-IsStrictOrder update.price_ticks book.asks v.asks_sorted,
  assign-All greater update.price_ticks update.quantity book.bids hp,
  assign-All less update.price_ticks update.quantity book.asks hp,
  erase-All greater update.price_ticks book.bids v.bid_levels,
  erase-All less update.price_ticks book.asks v.ask_levels,
)

-- `apply` refuses a negative price first, then a negative quantity, and accepts everything else.
pub apply_cases :
    (book : OrderBook) (update : BookUpdateEvent)
    → ((update.price_ticks <ℤ pos 0) × (apply book update ≡ err negative_price))
      ⊎ (((pos 0 ≤ℤ update.price_ticks)
            × (update.quantity <ℤ pos 0)
            × (apply book update ≡ err negative_quantity))
          ⊎ ((pos 0 ≤ℤ update.price_ticks)
              × (pos 0 ≤ℤ update.quantity)
              × (apply book update ≡ ok (update_levels book update))))
unfolding apply
apply_cases book update = ground arith

-- An accepted update keeps the book valid.
pub apply-IsValid :
    (book next : OrderBook) (update : BookUpdateEvent)
    → IsValid book
    → apply book update ≡ ok next
    → IsValid next
apply-IsValid book next update v e = elim (apply_cases book update) [
  | inl (_, refused) ↦ absurd (cc)
  | inr (inl (_, _, refused)) ↦ absurd (cc)
  | inr (inr (hp, hq, done)) ↦ subst IsValid (cc) (update_levels-IsValid book update v hp hq)
]

-- The quantity shown on a side at a price, `none` where there is no level.
abbrev pub shown : OrderBook → Side → PriceTicks → Option Quantity
shown book Side.buy p = lookup p book.bids
shown book Side.sell p = lookup p book.asks

-- What an update says about a side and a price: nothing, or the quantity to show from now on.
abbrev pub states : BookUpdateEvent → Side → PriceTicks → Option (Option Quantity)
states u Side.buy p =
    if is_buy u.side && eqb_ℤ u.price_ticks p
    then some (if eqb_ℤ u.quantity (pos 0) then none else some u.quantity)
    else none
states u Side.sell p =
    if not (is_buy u.side) && eqb_ℤ u.price_ticks p
    then some (if eqb_ℤ u.quantity (pos 0) then none else some u.quantity)
    else none

abbrev pub or_else {ℓ} : {A : Type ℓ} → Option A → A → A
or_else none a = a
or_else (some b) a = b

pub shown-update :
    (book : OrderBook) (u : BookUpdateEvent) (side : Side) (p : PriceTicks)
    → IsValid book
    → shown (update_levels book u) side p ≡ or_else (states u side p) (shown book side p)
unfolding update_levels
shown-update book u Side.buy p v = ground (
  arith,
  lookup-assign greater greater-IsStrictOrder u.price_ticks p u.quantity book.bids v.bids_sorted,
  lookup-erase greater greater-IsStrictOrder u.price_ticks p book.bids v.bids_sorted,
)
shown-update book u Side.sell p v = ground (
  arith,
  lookup-assign less less-IsStrictOrder u.price_ticks p u.quantity book.asks v.asks_sorted,
  lookup-erase less less-IsStrictOrder u.price_ticks p book.asks v.asks_sorted,
)

-- A sequence of updates, stopped by the first one that is refused.
unfoldable pub apply_all : OrderBook → List BookUpdateEvent → Result OrderBook
apply_all book [] = ok book
apply_all book (u ∷ updates) = do next ← apply book u; apply_all next updates

-- The last statement of a sequence about a side and a price.
abbrev pub last_stated : List BookUpdateEvent → Side → PriceTicks → Option (Option Quantity)
last_stated [] side p = none
last_stated (u ∷ updates) side p = elim (last_stated updates side p) [
  | none ↦ states u side p
  | some q ↦ some q
]

-- Every price and every quantity of the sequence is zero or more.
abbrev pub IsNormalized : List BookUpdateEvent → Type 0
IsNormalized = All (λ u. (pos 0 ≤ℤ u.price_ticks) × (pos 0 ≤ℤ u.quantity))

-- A normalized sequence is accepted whole. The book that it leaves is valid, and shows on each side
-- and at each price what the last update about them stated, or what it showed before if none did.
pub apply_all_shows_last :
    (book : OrderBook) (updates : List BookUpdateEvent)
    → IsValid book
    → IsNormalized updates
    → (next : OrderBook) × (apply_all book updates ≡ ok next)
      × IsValid next
      × ((side : Side) (p : PriceTicks)
          → shown next side p ≡ or_else (last_stated updates side p) (shown book side p))
unfolding apply_all
apply_all_shows_last book [] v n = (book, refl, v, λ side p. refl)
apply_all_shows_last book (u ∷ updates) v n =
    let next = update_levels book u in
    let accepted : apply book u ≡ ok next = unfold apply in ground arith in
    let valid = update_levels-IsValid book u v n.0.0 n.0.1 in
    let (last, done, last_valid, shows) = apply_all_shows_last next updates valid n.1 in
    (
      last,
      rw (accepted, apply_all) done,
      last_valid,
      λ side p. ground (arith, shows side p, shown-update book u side p v),
    )

-- The two depth queries refuse a negative price, and report what a valid book shows at any other.
pub quantity_at_shown :
    (book : OrderBook) (p : PriceTicks)
    → IsValid book
    → ((p <ℤ pos 0)
        × (bid_quantity_at book p ≡ err negative_price)
        × (ask_quantity_at book p ≡ err negative_price))
      ⊎ ((pos 0 ≤ℤ p)
          × (bid_quantity_at book p ≡ ok (shown book Side.buy p))
          × (ask_quantity_at book p ≡ ok (shown book Side.sell p)))
unfolding bid_quantity_at ask_quantity_at
quantity_at_shown book p v = ground (
  arith,
  find-lookup greater greater-IsStrictOrder p book.bids v.bids_sorted,
  find-lookup less less-IsStrictOrder p book.asks v.asks_sorted,
)
