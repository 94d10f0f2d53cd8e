-- ===== src/Portfolio/Invariant.antt =====
-- The accounting invariant of src/portfolio.cpp: what every portfolio that is reached by fills keeps.
use mathlib.Core.Path.{subst₂}
use cpp_market_replay_engine.Base.{
  Bool-cases, All, All-append, ℤ, pos, ◌-ℤ◌, ◌≤ℤ◌, ◌<ℤ◌, ltb_ℤ, min_ℤ, -ℤ_parts, eq_of_parts,
  Result, ok, err, ◌≡◌, refl, subst, ◌⊎◌, inl, inr, true, false, List, [], ◌∷◌, arith,
}
use cpp_market_replay_engine.Types.{PriceTicks, Quantity, Side}
use cpp_market_replay_engine.Fill.{Fill}
use cpp_market_replay_engine.Portfolio.Lots.{PositionLot, same_side, match_lots, open_lot}
use cpp_market_replay_engine.Portfolio.Balance.{opposite_of}
use cpp_market_replay_engine.Portfolio.Matching.{match_lots_cases}

-- Lots of one side, each with a quantity above zero.
abbrev pub AllOn : Side → List PositionLot → Type 0
AllOn s = All (λ lot. (lot.opening_side ≡ s) × (pos 0 <ℤ lot.remaining_quantity))

-- What the loop leaves of lots that are all of its side: such lots, and nothing of the fill unless
-- all lots are used up.
abbrev Uses : Side → Result (Quantity × ℤ × List PositionLot) → Type 0
Uses s (err e) = Unit {0}
Uses s (ok (rem, realized, lots)) = AllOn s lots × (pos 0 ≤ℤ rem) × ((lots ≡ []) ⊎ (rem ≡ pos 0))

match_lots-Uses :
    (s : Side) (x : PriceTicks) (rem : Quantity) (realized : ℤ) (lots : List PositionLot)
    → pos 0 ≤ℤ rem
    → AllOn s lots
    → Uses s (match_lots s x rem realized lots)
unfolding match_lots
match_lots-Uses s x rem realized [] h a = (tt, h, inl refl)
match_lots-Uses s x rem realized (lot ∷ lots) h a =
    let m = min_ℤ rem lot.remaining_quantity in
    match_lots_cases (Uses s) s x rem realized lot lots
      (λ off. (a, h, inr (eq_of_parts rem (pos 0) (ground arith)))) (λ e. tt)
      (λ total on paid used.
        match_lots-Uses s x (rem -ℤ m) total lots (ground (arith, -ℤ_parts rem m)) a.1)
      (λ total on paid part. (
        ((a.0.0, ground (arith, -ℤ_parts lot.remaining_quantity m)), a.1),
        ground (arith, -ℤ_parts rem m),
        inr (
            eq_of_parts (rem -ℤ m) (pos 0)
              (ground (arith, -ℤ_parts rem m, -ℤ_parts lot.remaining_quantity m))),
      ))

-- The loop never takes more than the fill has.
abbrev pub HasRest : Result (Quantity × ℤ × List PositionLot) → Type 0
HasRest (err e) = Unit {0}
HasRest (ok (rem, realized, lots)) = pos 0 ≤ℤ rem

pub match_lots-HasRest :
    (s : Side) (x : PriceTicks) (rem : Quantity) (realized : ℤ) (lots : List PositionLot)
    → pos 0 ≤ℤ rem
    → HasRest (match_lots s x rem realized lots)
unfolding match_lots
match_lots-HasRest s x rem realized [] h = h
match_lots-HasRest s x rem realized (lot ∷ lots) h =
    let m = min_ℤ rem lot.remaining_quantity in
    match_lots_cases HasRest s x rem realized lot lots (λ off. h) (λ e. tt)
      (λ total on paid used.
        match_lots-HasRest s x (rem -ℤ m) total lots (ground (arith, -ℤ_parts rem m)))
      (λ total on paid part. ground (arith, -ℤ_parts rem m))

-- Against lots of its own side the loop ends at once.
match_lots_own :
    (s t : Side) (x : PriceTicks) (rem : Quantity) (realized : ℤ) (lots : List PositionLot)
    → same_side s t ≡ false
    → AllOn s lots
    → match_lots t x rem realized lots ≡ ok (rem, realized, lots)
unfolding match_lots
match_lots_own s t x rem realized [] ne a = refl
match_lots_own s t x rem realized (lot ∷ lots) ne a = ground arith

open_lot-AllOn :
    (s : Side) (fill : Fill) (rest : Quantity) (lots : List PositionLot)
    → AllOn s lots
    → AllOn s (open_lot s fill rest lots)
open_lot-AllOn s fill rest lots a = elim (Bool-cases (ltb_ℤ (pos 0) rest)) [
  | inr none_left ↦ rw none_left a
  | inl some_left ↦ rw some_left (
      All-append (λ lot. (lot.opening_side ≡ s) × (pos 0 <ℤ lot.remaining_quantity)) lots _ a
        ((refl, ground arith), tt))
]

-- The lots after a fill are again of one side.
abbrev pub OneSided : List PositionLot → Type 0
OneSided lots = (s : Side) × AllOn s lots

Uses-OneSided :
    (side : Side) (fill : Fill) (realized : ℤ) (rest : Quantity) (kept : List PositionLot)
    → Uses (opposite_of side) (ok (rest, realized, kept))
    → OneSided (open_lot side fill rest kept)
Uses-OneSided side fill realized rest kept (a, h, inl e) =
    (side, open_lot-AllOn side fill rest kept (rw e tt))
Uses-OneSided side fill realized rest kept (a, h, inr e) = (opposite_of side, rw e a)

own_side : (s t : Side) → same_side s (opposite_of t) ≡ false → s ≡ t
own_side s t h = ground arith

other_side : (s t : Side) → same_side s t ≡ true → s ≡ t
other_side s t h = ground arith

pub fill-OneSided :
    (side : Side) (fill : Fill) (realized realized' : ℤ) (rest : Quantity)
    (lots kept : List PositionLot)
    → pos 0 <ℤ fill.quantity
    → OneSided lots
    → match_lots (opposite_of side) fill.price_ticks fill.quantity realized lots
      ≡ ok (rest, realized', kept)
    → OneSided (open_lot side fill rest kept)
fill-OneSided side fill realized realized' rest lots kept q (s, a) e =
    elim (Bool-cases (same_side s (opposite_of side))) [
      | inl other ↦ Uses-OneSided side fill realized' rest kept (
          subst (Uses (opposite_of side)) e (
            match_lots-Uses (opposite_of side) fill.price_ticks fill.quantity realized lots
              (omega arith) (subst (λ t. AllOn t lots) (other_side s _ other) a)))
      | inr own ↦
          let ended =
            match_lots_own s (opposite_of side) fill.price_ticks fill.quantity realized lots own
              a in
          let same : lots ≡ kept = ground (arith, ended, e) in
          (side, open_lot-AllOn side fill rest kept (subst₂ AllOn (own_side s side own) same a))
    ]
