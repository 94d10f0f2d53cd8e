-- ===== src/OrderBook/PriceMap.antt =====
-- std::map<PriceTicks, Quantity, Compare> as the order book uses it: an association list in the
-- order of the comparison `before`. The bids are ordered by std::greater, the asks by std::less.
use cpp_market_replay_engine.Base.{
  if◌then◌else◌, ltb_ℤ, eqb_ℤ, eq_of_parts, ◌≡◌, Bool, true, false, Option, none, some, List, [],
  ◌∷◌, arith,
}
use cpp_market_replay_engine.Types.{PriceTicks, Quantity}

pub record PriceLevel : Type 0 where
  pub price_ticks : PriceTicks
  pub quantity : Quantity

abbrev pub Levels : Type 0
Levels = List PriceLevel

abbrev pub Compare : Type 0
Compare = PriceTicks → PriceTicks → Bool

-- What an ordered map needs of its comparison: a strict total order.
pub record IsStrictOrder (before : Compare) : Type 0 where
  pub asym : (a b : PriceTicks) → before a b ≡ true → before b a ≡ false
  pub trans : (a b c : PriceTicks) → before a b ≡ true → before b c ≡ true → before a c ≡ true
  pub connex : (a b : PriceTicks) → before a b ≡ false → before b a ≡ false → a ≡ b

-- std::greater and std::less
abbrev pub greater : Compare
greater a b = ltb_ℤ b a

abbrev pub less : Compare
less a b = ltb_ℤ a b

module _ (before : Compare) where
  -- `levels[price] = quantity`
  unfoldable pub assign : PriceTicks → Quantity → Levels → Levels
  assign price_ticks quantity [] = record { price_ticks = price_ticks; quantity = quantity } ∷ []
  assign price_ticks quantity (l ∷ levels) =
      if before l.price_ticks price_ticks
      then l ∷ assign price_ticks quantity levels
      else if before price_ticks l.price_ticks
      then record { price_ticks = price_ticks; quantity = quantity } ∷ l ∷ levels
      else record l { quantity = quantity } ∷ levels

  -- `levels.erase(price)`
  unfoldable pub erase : PriceTicks → Levels → Levels
  erase price_ticks [] = []
  erase price_ticks (l ∷ levels) =
      if before l.price_ticks price_ticks
      then l ∷ erase price_ticks levels
      else if before price_ticks l.price_ticks
      then l ∷ levels
      else levels

  -- `levels.find(price)`
  unfoldable pub find : PriceTicks → Levels → Option Quantity
  find price_ticks [] = none
  find price_ticks (l ∷ levels) =
      if before l.price_ticks price_ticks
      then find price_ticks levels
      else if before price_ticks l.price_ticks
      then none
      else some l.quantity

  -- Every price is behind `price` and behind the prices above it.
  abbrev pub After : PriceTicks → Levels → Type 0
  After price_ticks [] = Unit {0}
  After price_ticks (l ∷ levels) =
      (before price_ticks l.price_ticks ≡ true) × After l.price_ticks levels

  abbrev pub IsSorted : Levels → Type 0
  IsSorted [] = Unit {0}
  IsSorted (l ∷ levels) = After l.price_ticks levels

-- Written with no order in mind: the quantity of the first level at the price.
abbrev pub lookup : PriceTicks → Levels → Option Quantity
lookup price_ticks [] = none
lookup price_ticks (l ∷ levels) =
    if eqb_ℤ l.price_ticks price_ticks then some l.quantity else lookup price_ticks levels

pub greater-IsStrictOrder : IsStrictOrder greater
greater-IsStrictOrder = record {
  asym = λ a b h. ground arith;
  trans = λ a b c h k. ground arith;
  connex = λ a b h k. eq_of_parts a b (ground arith);
}

pub less-IsStrictOrder : IsStrictOrder less
less-IsStrictOrder = record {
  asym = λ a b h. ground arith;
  trans = λ a b c h k. ground arith;
  connex = λ a b h k. eq_of_parts a b (ground arith);
}
