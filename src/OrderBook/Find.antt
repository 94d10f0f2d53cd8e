-- ===== src/OrderBook/Find.antt =====
-- The laws of the ordered map behind a side of the book.
use cpp_market_replay_engine.Base.{
  if◌then◌else◌, Bool-cases, ℤ, eqb_ℤ, eq_of_parts, ◌≡◌, refl, ◌↔◌, inl, inr, true, false, none,
  some, [], ◌∷◌, arith,
}
use cpp_market_replay_engine.Types.{PriceTicks, Quantity}
use cpp_market_replay_engine.OrderBook.PriceMap.{
  Levels, Compare, IsStrictOrder, assign, erase, find, After, IsSorted, lookup,
}

pub eqb_ℤ_iff : (a b : ℤ) → (eqb_ℤ a b ≡ true) ↔ (a ≡ b)
eqb_ℤ_iff a b = (λ h. eq_of_parts a b (ground arith), λ e. rw e (ground arith))

module _ (before : Compare) (order : IsStrictOrder before) where
  pub irrefl : (a : PriceTicks) → before a a ≡ false
  irrefl a = elim (Bool-cases (before a a)) [ inl h ↦ order.asym a a h | inr h ↦ h ]

  After-trans :
      (a b : PriceTicks) (levels : Levels)
      → before a b ≡ true
      → After before b levels
      → After before a levels
  After-trans a b [] h s = tt
  After-trans a b (l ∷ levels) h s = (order.trans a b l.price_ticks h s.0, s.1)

  -- Behind its first price a sorted map has no smaller one.
  pub lookup_before :
      (p q : PriceTicks) (levels : Levels)
      → before p q ≡ true
      → After before q levels
      → lookup p levels ≡ none
  lookup_before p q [] h s = refl
  lookup_before p q (l ∷ levels) h s = ground (
    arith,
    eqb_ℤ_iff l.price_ticks p,
    order.asym p q h,
    order.trans p q l.price_ticks h s.0,
    irrefl p,
    lookup_before p l.price_ticks levels (order.trans p q l.price_ticks h s.0) s.1,
  )

  lookup-After : (p : PriceTicks) (levels : Levels) → After before p levels → lookup p levels ≡ none
  lookup-After p [] s = refl
  lookup-After p (l ∷ levels) s =
      ground
        (arith, eqb_ℤ_iff l.price_ticks p, irrefl p, lookup_before p l.price_ticks levels s.0 s.1)

  -- The ordered search agrees with a search that knows no order.
  find-After :
      (p q : PriceTicks) (levels : Levels)
      → After before q levels
      → find before p levels ≡ lookup p levels
  unfolding find
  find-After p q [] s = refl
  find-After p q (l ∷ levels) s = ground (
    arith,
    eqb_ℤ_iff l.price_ticks p,
    order.asym p l.price_ticks,
    order.connex p l.price_ticks,
    irrefl p,
    lookup_before p l.price_ticks levels,
    find-After p l.price_ticks levels s.1,
  )

  lookup-assign-After :
      (k j q : PriceTicks) (v : Quantity) (levels : Levels)
      → After before q levels
      → lookup j (assign before k v levels) ≡ (if eqb_ℤ k j then some v else lookup j levels)
  unfolding assign
  lookup-assign-After k j q v [] s = refl
  lookup-assign-After k j q v (l ∷ levels) s = ground (
    arith,
    eqb_ℤ_iff l.price_ticks j,
    eqb_ℤ_iff k j,
    order.connex k l.price_ticks,
    irrefl k,
    lookup-assign-After k j l.price_ticks v levels s.1,
  )

  lookup-erase-After :
      (k j q : PriceTicks) (levels : Levels)
      → After before q levels
      → lookup j (erase before k levels) ≡ (if eqb_ℤ k j then none else lookup j levels)
  unfolding erase
  lookup-erase-After k j q [] s = ground arith
  lookup-erase-After k j q (l ∷ levels) s = ground (
    arith,
    eqb_ℤ_iff l.price_ticks j,
    eqb_ℤ_iff k j,
    order.connex k l.price_ticks,
    irrefl k,
    lookup_before k l.price_ticks levels,
    lookup-After l.price_ticks levels s.1,
    lookup-erase-After k j l.price_ticks levels s.1,
  )

  assign-After :
      (k q : PriceTicks) (v : Quantity) (levels : Levels)
      → before q k ≡ true
      → After before q levels
      → After before q (assign before k v levels)
  unfolding assign
  assign-After k q v [] h s = (h, tt)
  assign-After k q v (l ∷ levels) h s =
      ground (arith, assign-After k l.price_ticks v levels, order.connex k l.price_ticks)

  erase-After :
      (k q : PriceTicks) (levels : Levels)
      → After before q levels
      → After before q (erase before k levels)
  unfolding erase
  erase-After k q [] s = tt
  erase-After k q (l ∷ levels) s =
      ground
        (arith, erase-After k l.price_ticks levels s.1, After-trans q l.price_ticks levels s.0 s.1)

  -- The same laws for a whole map.
  pub find-lookup :
      (p : PriceTicks) (levels : Levels)
      → IsSorted before levels
      → find before p levels ≡ lookup p levels
  unfolding find
  find-lookup p [] s = refl
  find-lookup p (l ∷ levels) s = ground (
    arith,
    eqb_ℤ_iff l.price_ticks p,
    order.asym p l.price_ticks,
    order.connex p l.price_ticks,
    irrefl p,
    lookup_before p l.price_ticks levels,
    find-After p l.price_ticks levels s,
  )

  pub lookup-assign :
      (k j : PriceTicks) (v : Quantity) (levels : Levels)
      → IsSorted before levels
      → lookup j (assign before k v levels) ≡ (if eqb_ℤ k j then some v else lookup j levels)
  unfolding assign
  lookup-assign k j v [] s = refl
  lookup-assign k j v (l ∷ levels) s = ground (
    arith,
    eqb_ℤ_iff l.price_ticks j,
    eqb_ℤ_iff k j,
    order.connex k l.price_ticks,
    irrefl k,
    lookup-assign-After k j l.price_ticks v levels s,
  )

  pub lookup-erase :
      (k j : PriceTicks) (levels : Levels)
      → IsSorted before levels
      → lookup j (erase before k levels) ≡ (if eqb_ℤ k j then none else lookup j levels)
  unfolding erase
  lookup-erase k j [] s = ground arith
  lookup-erase k j (l ∷ levels) s = ground (
    arith,
    eqb_ℤ_iff l.price_ticks j,
    eqb_ℤ_iff k j,
    order.connex k l.price_ticks,
    irrefl k,
    lookup_before k l.price_ticks levels,
    lookup-After l.price_ticks levels s,
    lookup-erase-After k j l.price_ticks levels s,
  )

  pub assign-IsSorted :
      (k : PriceTicks) (v : Quantity) (levels : Levels)
      → IsSorted before levels
      → IsSorted before (assign before k v levels)
  unfolding assign
  assign-IsSorted k v [] s = tt
  assign-IsSorted k v (l ∷ levels) s = ground (arith, assign-After k l.price_ticks v levels)

  pub erase-IsSorted :
      (k : PriceTicks) (levels : Levels)
      → IsSorted before levels
      → IsSorted before (erase before k levels)
  unfolding erase
  erase-IsSorted k [] s = tt
  erase-IsSorted k (l ∷ []) s = ground arith
  erase-IsSorted k (l ∷ m ∷ levels) s = ground (arith, erase-After k l.price_ticks (m ∷ levels) s)
