-- ===== src/OrderBook/Checks.antt =====
-- The self-checks of src/order_book.cpp against what they look for.
use cpp_market_replay_engine.OrderBook.Find.{eqb_ℤ_iff}
use cpp_market_replay_engine.Base.{
  All, Any, All-map, pos, ◌<ℤ◌, ltb_ℤ, ◌≡◌, refl, ◌↔◌, ◌⊎◌, inl, inr, Bool, true, false, ◌||◌, [],
  ◌∷◌, ◌++◌, arith,
}
use cpp_market_replay_engine.Types.{PriceTicks, Quantity}
use cpp_market_replay_engine.OrderBook.{
  OrderBook, has_zero_quantity, has_negative_quantity, has_zero_quantity_levels,
  has_negative_quantity_levels, ordering_is_strict, bid_ordering_is_strict, ask_ordering_is_strict,
}
use cpp_market_replay_engine.OrderBook.PriceMap.{
  PriceLevel, Levels, Compare, IsStrictOrder, greater, less, greater-IsStrictOrder,
  less-IsStrictOrder,
}

-- Each price stands in the relation to every price behind it.
abbrev pub Pairwise : (PriceTicks → PriceTicks → Type 0) → Levels → Type 0
Pairwise R [] = Unit
Pairwise R (l ∷ levels) = All (λ m. R l.price_ticks m.price_ticks) levels × Pairwise R levels

module _ (before : Compare) (order : IsStrictOrder before) where
  abbrev IsBefore : PriceTicks → PriceTicks → Type 0
  IsBefore p q = before p q ≡ true

  further :
      (p q : PriceTicks) (levels : Levels)
      → IsBefore p q
      → All (λ m. IsBefore q m.price_ticks) levels
      → All (λ m. IsBefore p m.price_ticks) levels
  further p q levels h rest =
      All-map (λ m. IsBefore q m.price_ticks) (λ m. IsBefore p m.price_ticks) levels
        (λ m k. order.trans p q m.price_ticks h k) rest

  strict-Pairwise :
      (levels : Levels) → ordering_is_strict before levels ≡ true → Pairwise IsBefore levels
  unfolding ordering_is_strict
  strict-Pairwise [] h = tt
  strict-Pairwise (l ∷ []) h = (tt, tt)
  strict-Pairwise (l ∷ m ∷ levels) h =
      let (first, rest) : IsBefore l.price_ticks m.price_ticks
          × (ordering_is_strict before (m ∷ levels) ≡ true) =
        ground arith in
      let behind = strict-Pairwise (m ∷ levels) rest in
      ((first, further l.price_ticks m.price_ticks levels first behind.0), behind)

  Pairwise-strict :
      (levels : Levels) → Pairwise IsBefore levels → ordering_is_strict before levels ≡ true
  unfolding ordering_is_strict
  Pairwise-strict [] h = refl
  Pairwise-strict (l ∷ []) h = refl
  Pairwise-strict (l ∷ m ∷ levels) h = rw (h.0.0, Pairwise-strict (m ∷ levels) h.1) refl

Pairwise-map :
    (R S : PriceTicks → PriceTicks → Type 0) (levels : Levels)
    → ((p q : PriceTicks) → R p q → S p q)
    → Pairwise R levels
    → Pairwise S levels
Pairwise-map R S [] f h = tt
Pairwise-map R S (l ∷ levels) f h = (
  All-map (λ m. R l.price_ticks m.price_ticks) (λ m. S l.price_ticks m.price_ticks) levels
      (λ m k. f l.price_ticks m.price_ticks k) h.0,
  Pairwise-map R S levels f h.1,
)

-- A price above, and one below.
abbrev pub IsAbove : PriceTicks → PriceTicks → Type 0
IsAbove p q = q <ℤ p

abbrev pub IsBelow : PriceTicks → PriceTicks → Type 0
IsBelow p q = p <ℤ q

abbrev pub IsZero : PriceLevel → Type 0
IsZero l = l.quantity ≡ pos 0

abbrev pub IsNegative : PriceLevel → Type 0
IsNegative l = l.quantity <ℤ pos 0

or_iff : {A B : Type 0} {a b : Bool} → (a ≡ true) ↔ A → (b ≡ true) ↔ B → ((a || b) ≡ true) ↔ (A ⊎ B)
or_iff {a = true} f g = (λ h. inl (f.0 h), λ h. refl)
or_iff {a = false} f g = (
  λ h. inr (g.0 h),
  λ h. elim h [ inl left ↦ absurd (let never = f.1 left in cc) | inr right ↦ g.1 right ],
)

module _ (P : PriceLevel → Type 0) where
  Any-left : (xs ys : Levels) → Any P xs → Any P (xs ++ ys)
  Any-left [] ys h = absurd h
  Any-left (x ∷ xs) ys (inl h) = inl h
  Any-left (x ∷ xs) ys (inr h) = inr (Any-left xs ys h)

  Any-right : (xs ys : Levels) → Any P ys → Any P (xs ++ ys)
  Any-right [] ys h = h
  Any-right (x ∷ xs) ys h = inr (Any-right xs ys h)

  Any-sides : (xs ys : Levels) → Any P (xs ++ ys) → Any P xs ⊎ Any P ys
  Any-sides [] ys h = inr h
  Any-sides (x ∷ xs) ys (inl h) = inl (inl h)
  Any-sides (x ∷ xs) ys (inr h) = elim (Any-sides xs ys h) [
    | inl left ↦ inl (inr left)
    | inr right ↦ inr right
  ]

  -- A test of each side that finds exactly `P` finds it on both sides together.
  sides_iff :
      (test : Levels → Bool) (xs ys : Levels)
      → ((levels : Levels) → (test levels ≡ true) ↔ Any P levels)
      → ((test xs || test ys) ≡ true) ↔ Any P (xs ++ ys)
  sides_iff test xs ys iff =
      let (there, back) = or_iff (iff xs) (iff ys) in
      (
        λ h. elim (there h) [ inl left ↦ Any-left xs ys left | inr right ↦ Any-right xs ys right ],
        λ h. back (Any-sides xs ys h),
      )

IsZero-iff : (levels : Levels) → (has_zero_quantity levels ≡ true) ↔ Any IsZero levels
unfolding has_zero_quantity
IsZero-iff [] = (λ h. cc, λ h. absurd h)
IsZero-iff (l ∷ levels) = or_iff (eqb_ℤ_iff l.quantity (pos 0)) (IsZero-iff levels)

IsNegative-iff : (levels : Levels) → (has_negative_quantity levels ≡ true) ↔ Any IsNegative levels
unfolding has_negative_quantity
IsNegative-iff [] = (λ h. cc, λ h. absurd h)
IsNegative-iff (l ∷ levels) = or_iff (test l.quantity) (IsNegative-iff levels)
  where
    test : (q : Quantity) → (ltb_ℤ q (pos 0) ≡ true) ↔ (q <ℤ pos 0)
    test q = (λ h. ground arith, λ h. ground arith)

-- What the four self-checks report of a book.
pub record Checked (book : OrderBook) : Type 0 where
  pub zero : (has_zero_quantity_levels book ≡ true) ↔ Any IsZero (book.bids ++ book.asks)
  pub negative :
      (has_negative_quantity_levels book ≡ true) ↔ Any IsNegative (book.bids ++ book.asks)
  pub bids : (bid_ordering_is_strict book ≡ true) ↔ Pairwise IsAbove book.bids
  pub asks : (ask_ordering_is_strict book ≡ true) ↔ Pairwise IsBelow book.asks

-- On every book, valid or not: the two quantity checks report exactly whether some level of a side has
-- quantity zero, or one below zero, and the two order checks hold exactly where every bid price is
-- above all bid prices behind it, and every ask price below all ask prices behind it.
pub self_checks-Checked : (book : OrderBook) → Checked book
unfolding has_zero_quantity_levels has_negative_quantity_levels bid_ordering_is_strict
    ask_ordering_is_strict
self_checks-Checked book = record {
  zero = sides_iff IsZero has_zero_quantity book.bids book.asks IsZero-iff;
  negative = sides_iff IsNegative has_negative_quantity book.bids book.asks IsNegative-iff;
  bids = (
    λ h.
        Pairwise-map (IsBefore greater greater-IsStrictOrder) IsAbove book.bids
          (λ p q k. ground arith) (strict-Pairwise greater greater-IsStrictOrder book.bids h),
    λ h. Pairwise-strict greater greater-IsStrictOrder book.bids (
        Pairwise-map IsAbove (IsBefore greater greater-IsStrictOrder) book.bids
          (λ p q k. ground arith) h),
  );
  asks = (
    λ h.
        Pairwise-map (IsBefore less less-IsStrictOrder) IsBelow book.asks (λ p q k. ground arith)
          (strict-Pairwise less less-IsStrictOrder book.asks h),
    λ h. Pairwise-strict less less-IsStrictOrder book.asks (
        Pairwise-map IsBelow (IsBefore less less-IsStrictOrder) book.asks (λ p q k. ground arith)
          h),
  );
}
