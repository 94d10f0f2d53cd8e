-- ===== src/Portfolio/Matching.antt =====
-- One round of the loop that matches a fill against the oldest lots, and its arithmetic.
use cpp_market_replay_engine.Base.{
  Bool-cases, ℤ, pos, ◌+ℤ◌, ◌-ℤ◌, ◌*ℤ◌, ◌≤ℤ◌, ltb_ℤ, eqb_ℤ, min_ℤ, Error, Result, ok, err,
  Result-cases, ◌≡◌, inl, inr, Bool, true, false, ◌&&◌, List, ◌∷◌, arith,
}
use cpp_market_replay_engine.Types.{int64_max, PriceTicks, Quantity, Side}
use cpp_market_replay_engine.Portfolio.Lots.{
  int64_min, checked_to_accounting_amount, PositionLot, price_delta, same_side, realize, match_lots,
}

abbrev pub IsInt64 : ℤ → Type 0
IsInt64 v = (int64_min ≤ℤ v) × (v ≤ℤ pos int64_max)

pub checked_to_accounting_amount_ok :
    (v w : ℤ) → checked_to_accounting_amount v ≡ ok w → (w ≡ v) × IsInt64 v
unfolding checked_to_accounting_amount
checked_to_accounting_amount_ok v w e = ground arith

pub realize_ok :
    (realized total : ℤ) (lot : PositionLot) (x : PriceTicks) (m : Quantity)
    → realize realized lot x m ≡ ok total
    → (total ≡ realized +ℤ price_delta lot.opening_side lot.entry_price_ticks x *ℤ m)
      × IsInt64 total
unfolding realize
realize_ok realized total lot x m e = ground arith

-- The test of the loop, and what a round leaves of its lot.
abbrev pub goes_on : Side → Quantity → PositionLot → Bool
goes_on opposite rem lot = ltb_ℤ (pos 0) rem && same_side lot.opening_side opposite

abbrev pub left_of : Quantity → PositionLot → Quantity
left_of rem lot = lot.remaining_quantity -ℤ min_ℤ rem lot.remaining_quantity

same_side_eq : (s t : Side) → same_side s t ≡ true → s ≡ t
same_side_eq s t h = ground arith

pub goes_on_side :
    (opposite : Side) (rem : Quantity) (lot : PositionLot)
    → goes_on opposite rem lot ≡ true
    → lot.opening_side ≡ opposite
goes_on_side opposite rem lot on = same_side_eq lot.opening_side opposite (ground arith)

-- The cases of one round of the loop: it ends, a check throws, the lot is used up and the loop goes
-- on, or the lot is left with a rest.
pub match_lots_cases :
    (P : Result (Quantity × ℤ × List PositionLot) → Type 0) (opposite : Side) (x : PriceTicks)
    (rem : Quantity) (realized : ℤ) (lot : PositionLot) (lots : List PositionLot)
    → (goes_on opposite rem lot ≡ false → P (ok (rem, realized, lot ∷ lots)))
    → ((e : Error) → P (err e))
    → ((total : ℤ)
        → goes_on opposite rem lot ≡ true
        → realize realized lot x (min_ℤ rem lot.remaining_quantity) ≡ ok total
        → eqb_ℤ (left_of rem lot) (pos 0) ≡ true
        → P (match_lots opposite x (rem -ℤ min_ℤ rem lot.remaining_quantity) total lots))
    → ((total : ℤ)
        → goes_on opposite rem lot ≡ true
        → realize realized lot x (min_ℤ rem lot.remaining_quantity) ≡ ok total
        → eqb_ℤ (left_of rem lot) (pos 0) ≡ false
        → P (
            ok (
              rem -ℤ min_ℤ rem lot.remaining_quantity,
              total,
              record lot { remaining_quantity = left_of rem lot } ∷ lots,
            )))
    → P (match_lots opposite x rem realized (lot ∷ lots))
unfolding match_lots
match_lots_cases P opposite x rem realized lot lots ends throws used part =
    elim (Bool-cases (goes_on opposite rem lot)) [
      | inr off ↦ rw off (ends off)
      | inl on ↦ elim (Result-cases (realize realized lot x (min_ℤ rem lot.remaining_quantity))) [
        | inr (e, f) ↦ rw (on, f) (throws e)
        | inl (total, f) ↦ elim (Bool-cases (eqb_ℤ (left_of rem lot) (pos 0))) [
          | inl gone ↦ rw (on, f, gone) (used total on f gone)
          | inr kept ↦ rw (on, f, kept) (part total on f kept)
        ]
      ]
    ]
