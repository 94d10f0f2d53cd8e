-- ===== src/QueueImbalance/Volume.antt =====
-- The volume of the levels that strategies/queue_imbalance_strategy.cpp sums up.
use cpp_market_replay_engine.Base.{
  ◌==◌, Bool-cases, All, ℤ, pos, ◌+ℤ◌, ◌-ℤ◌, ◌≤ℤ◌, ◌<ℤ◌, ltb_ℤ, eqb_ℤ, int_laws, add-zero_ℤ,
  imbalance_volume_overflow, err, ok, ℕ, zero, suc, ◌≡◌, refl, sym, ap, ◌∙◌, ◌⊎◌, inl, inr, true,
  false, [], ◌∷◌, arith,
}
use cpp_market_replay_engine.Types.{int64_max, Quantity}
use cpp_market_replay_engine.OrderBook.{top_levels}
use cpp_market_replay_engine.OrderBook.PriceMap.{PriceLevel, Levels}
use cpp_market_replay_engine.OrderBook.Apply.{IsLevel}
use cpp_market_replay_engine.QueueImbalance.{sum_quantity}

pub ltb_ℤ-true : (a b : ℤ) → a <ℤ b → ltb_ℤ a b ≡ true
ltb_ℤ-true a b h = ground arith

pub ltb_ℤ-true_lt : (a b : ℤ) → ltb_ℤ a b ≡ true → a <ℤ b
ltb_ℤ-true_lt a b h = ground arith

pub ltb_ℤ-false : (a b : ℤ) → b ≤ℤ a → ltb_ℤ a b ≡ false
ltb_ℤ-false a b h = ground arith

pub ltb_ℤ-false_le : (a b : ℤ) → ltb_ℤ a b ≡ false → b ≤ℤ a
ltb_ℤ-false_le a b h = ground arith

pub apart_cases : (b a : ℤ) → ltb_ℤ b a ≡ true → (eqb_ℤ b a ≡ false) × (ltb_ℤ a b ≡ false)
apart_cases b a h = (ground arith, ground arith)

pub touching_cases :
    (b a : ℤ) → ltb_ℤ b a ≡ false → (eqb_ℤ b a ≡ true) ⊎ ((eqb_ℤ b a ≡ false) × (ltb_ℤ a b ≡ true))
touching_cases b a h = elim (Bool-cases (eqb_ℤ b a)) [
  | inl same ↦ inl same
  | inr other ↦ inr (other, ground arith)
]

pub nonzero : (n : ℕ) → (suc n == 0) ≡ false
nonzero n = ground arith

-- The volume of a list of levels.
abbrev pub volume : Levels → ℤ
volume [] = pos 0
volume (l ∷ levels) = l.quantity +ℤ volume levels

pub volume_nonneg : (levels : Levels) → All IsLevel levels → pos 0 ≤ℤ volume levels
volume_nonneg [] h = omega arith
volume_nonneg (l ∷ levels) h = omega (int_laws, h.0.1, volume_nonneg levels h.1)

pub top_levels-All :
    (levels : Levels) (n : ℕ) → All IsLevel levels → All IsLevel (top_levels levels n)
top_levels-All [] n h = tt
top_levels-All (l ∷ levels) zero h = tt
top_levels-All (l ∷ levels) (suc n) h = (h.0, top_levels-All levels n h.1)

+ℤ_assoc : (a b c : ℤ) → (a +ℤ b) +ℤ c ≡ a +ℤ (b +ℤ c)
+ℤ_assoc a b c = omega int_laws

-- The sum of a side is found where it fits.
sum_quantity_fits :
    (total : Quantity) (levels : Levels)
    → All IsLevel levels
    → total +ℤ volume levels ≤ℤ pos int64_max
    → sum_quantity total levels ≡ ok (total +ℤ volume levels)
unfolding sum_quantity
sum_quantity_fits total [] h fits = ap ok (sym (add-zero_ℤ total))
sum_quantity_fits total (l ∷ levels) h fits =
    let rest =
      sum_quantity_fits (total +ℤ l.quantity) levels h.1
        (rw (+ℤ_assoc total l.quantity (volume levels)) fits) in
    let room : ltb_ℤ (pos int64_max -ℤ total) l.quantity ≡ false =
      ltb_ℤ-false (pos int64_max -ℤ total) l.quantity
        (omega (int_laws, fits, volume_nonneg levels h.1)) in
    rw (room, rest, +ℤ_assoc total l.quantity (volume levels)) refl

-- The sum of a side is refused where it does not fit.
sum_quantity_overflows :
    (total : Quantity) (levels : Levels)
    → total ≤ℤ pos int64_max
    → pos int64_max <ℤ total +ℤ volume levels
    → sum_quantity total levels ≡ err imbalance_volume_overflow
unfolding sum_quantity
sum_quantity_overflows total [] fits h = absurd (omega (int_laws, h, fits))
sum_quantity_overflows total (l ∷ levels) fits h =
    elim (Bool-cases (ltb_ℤ (pos int64_max -ℤ total) l.quantity)) [
      | inl over ↦ rw (over) refl
      | inr room ↦ rw (room) (
          sum_quantity_overflows (total +ℤ l.quantity) levels
            (omega (int_laws, ltb_ℤ-false_le (pos int64_max -ℤ total) l.quantity room))
            (rw (+ℤ_assoc total l.quantity (volume levels)) h))
    ]

pub sum_quantity_found :
    (levels : Levels)
    → All IsLevel levels
    → volume levels ≤ℤ pos int64_max
    → sum_quantity (pos 0) levels ≡ ok (volume levels)
sum_quantity_found levels h fits =
    let same : pos 0 +ℤ volume levels ≡ volume levels = omega int_laws in
    sum_quantity_fits (pos 0) levels h (rw (same) fits) ∙ ap ok same

pub sum_quantity_refused :
    (levels : Levels)
    → pos int64_max <ℤ volume levels
    → sum_quantity (pos 0) levels ≡ err imbalance_volume_overflow
sum_quantity_refused levels over =
    sum_quantity_overflows (pos 0) levels (omega arith) (omega (int_laws, over))

pub top_levels_volume :
    (l : PriceLevel) (levels : Levels) (n : ℕ)
    → All IsLevel (l ∷ levels)
    → pos 0 <ℤ volume (top_levels (l ∷ levels) (suc n))
top_levels_volume l levels n h =
    omega (int_laws, h.0.1, volume_nonneg (top_levels levels n) (top_levels-All levels n h.1))
