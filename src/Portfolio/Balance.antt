-- ===== src/Portfolio/Balance.antt =====
-- What the matching of lots does to cost, inventory and profit.
use cpp_market_replay_engine.Base.{
  ℤ, pos, ◌+ℤ◌, ◌-ℤ◌, ◌*ℤ◌, eqb_ℤ, min_ℤ, eq_of_parts, int_laws, *ℤ_comm, sub-*ℤ, zero-*ℤ, parts,
  Result, ok, err, ◌≡◌, refl, true, List, [], ◌∷◌, ◌++◌, arith,
}
use cpp_market_replay_engine.Types.{PriceTicks, Quantity, Side}
use cpp_market_replay_engine.Portfolio.Lots.{
  PositionLot, signed, net_quantity, price_delta, realize, match_lots,
}
use cpp_market_replay_engine.Portfolio.Matching.{
  realize_ok, goes_on, left_of, goes_on_side, match_lots_cases,
}

-- What the open lots cost: paid for the long ones, received for the short ones.
unfoldable pub cost : List PositionLot → ℤ
cost [] = pos 0
cost (lot ∷ lots) =
    signed lot.opening_side (lot.remaining_quantity *ℤ lot.entry_price_ticks) +ℤ cost lots

-- The side of a fill that the lots of the other side are matched against.
abbrev pub opposite_of : Side → Side
opposite_of Side.buy = Side.sell
opposite_of Side.sell = Side.buy

-- The profit of a match is what the cost of the lots and of the fill change by.
match_value :
    (side : Side) (r m e x rem : ℤ)
    → signed (opposite_of side) ((r -ℤ m) *ℤ e) +ℤ signed side ((rem -ℤ m) *ℤ x)
      ≡ signed (opposite_of side) (r *ℤ e)
        +ℤ signed side (rem *ℤ x)
        +ℤ price_delta (opposite_of side) e x *ℤ m
match_value Side.buy r m e x rem = omega (
  int_laws,
  parts (sub-*ℤ r m e),
  parts (sub-*ℤ rem m x),
  parts (sub-*ℤ e x m),
  parts (*ℤ_comm m e),
  parts (*ℤ_comm m x),
)
match_value Side.sell r m e x rem = omega (
  int_laws,
  parts (sub-*ℤ r m e),
  parts (sub-*ℤ rem m x),
  parts (sub-*ℤ x e m),
  parts (*ℤ_comm m e),
  parts (*ℤ_comm m x),
)

match_net :
    (side : Side) (r m rem : ℤ)
    → signed (opposite_of side) (r -ℤ m) +ℤ signed side (rem -ℤ m)
      ≡ signed (opposite_of side) r +ℤ signed side rem
match_net Side.buy r m rem = omega int_laws
match_net Side.sell r m rem = omega int_laws

-- Nothing is worth nothing.
pub signed_gone :
    (s : Side) (z e : ℤ) → z ≡ pos 0 → (signed s (z *ℤ e) ≡ pos 0) × (signed s z ≡ pos 0)
signed_gone Side.buy z e h = (rw h (zero-*ℤ e), h)
signed_gone Side.sell z e h = (rw h (omega (int_laws, parts (zero-*ℤ e))), rw h (omega int_laws))

module _ (side : Side) (x : PriceTicks) where
  -- What the loop leaves: the value of lots and fill has moved by the realized profit, and their
  -- quantities have not moved.
  abbrev pub Conserves :
      Quantity → ℤ → List PositionLot → Result (Quantity × ℤ × List PositionLot) → Type 0
  Conserves rem realized lots (err e) = Unit {0}
  Conserves rem realized lots (ok (rem', realized', lots')) =
      (cost lots' +ℤ signed side (rem' *ℤ x) +ℤ realized
        ≡ cost lots +ℤ signed side (rem *ℤ x) +ℤ realized')
      × (net_quantity lots' +ℤ signed side rem' ≡ net_quantity lots +ℤ signed side rem)

  Conserves-trans :
      (rem rem₁ : Quantity) (realized realized₁ : ℤ) (lots lots₁ : List PositionLot)
      (r : Result (Quantity × ℤ × List PositionLot))
      → Conserves rem realized lots (ok (rem₁, realized₁, lots₁))
      → Conserves rem₁ realized₁ lots₁ r
      → Conserves rem realized lots r
  Conserves-trans rem rem₁ realized realized₁ lots lots₁ (err e) p h = tt
  Conserves-trans rem rem₁ realized realized₁ lots lots₁ (ok (a, b, c)) p h =
      (omega (int_laws, parts p.0, parts h.0), omega (int_laws, parts p.1, parts h.1))

  -- One match, with what is left of the lot still in the list.
  round-Conserves :
      (rem m : Quantity) (realized total : ℤ) (lot : PositionLot) (lots : List PositionLot)
      → lot.opening_side ≡ opposite_of side
      → total ≡ realized +ℤ price_delta lot.opening_side lot.entry_price_ticks x *ℤ m
      → Conserves rem realized (lot ∷ lots) (
          ok (
            rem -ℤ m,
            total,
            record lot { remaining_quantity = lot.remaining_quantity -ℤ m } ∷ lots,
          ))
  unfolding cost net_quantity
  round-Conserves rem m realized total lot lots e t =
      rw (t, e)
        (
          omega (
            int_laws,
            parts (match_value side lot.remaining_quantity m lot.entry_price_ticks x rem),
          ),
          omega (int_laws, parts (match_net side lot.remaining_quantity m rem)),
        )

  first_round :
      (rem : Quantity) (realized total : ℤ) (lot : PositionLot) (lots : List PositionLot)
      → goes_on (opposite_of side) rem lot ≡ true
      → realize realized lot x (min_ℤ rem lot.remaining_quantity) ≡ ok total
      → Conserves rem realized (lot ∷ lots) (
          ok (
            rem -ℤ min_ℤ rem lot.remaining_quantity,
            total,
            record lot { remaining_quantity = left_of rem lot } ∷ lots,
          ))
  first_round rem realized total lot lots on paid =
      round-Conserves rem (min_ℤ rem lot.remaining_quantity) realized total lot lots
        (goes_on_side (opposite_of side) rem lot on)
        (realize_ok realized total lot x (min_ℤ rem lot.remaining_quantity) paid).0

  -- A lot that is used up may go.
  drop_used :
      (rem m : Quantity) (realized total : ℤ) (lot : PositionLot) (lots : List PositionLot)
      → eqb_ℤ (lot.remaining_quantity -ℤ m) (pos 0) ≡ true
      → Conserves rem realized (lot ∷ lots) (
          ok (
            rem -ℤ m,
            total,
            record lot { remaining_quantity = lot.remaining_quantity -ℤ m } ∷ lots,
          ))
      → Conserves rem realized (lot ∷ lots) (ok (rem -ℤ m, total, lots))
  unfolding cost net_quantity
  drop_used rem m realized total lot lots used h =
      let left = lot.remaining_quantity -ℤ m in
      let none_left : left ≡ pos 0 = eq_of_parts left (pos 0) (ground arith) in
      let gone = signed_gone lot.opening_side left lot.entry_price_ticks none_left in
      (omega (int_laws, parts h.0, parts gone.0), omega (int_laws, parts h.1, parts gone.1))

  pub match_lots-Conserves :
      (rem : Quantity) (realized : ℤ) (lots : List PositionLot)
      → Conserves rem realized lots (match_lots (opposite_of side) x rem realized lots)
  unfolding match_lots
  match_lots-Conserves rem realized [] = (refl, refl)
  match_lots-Conserves rem realized (lot ∷ lots) =
      let m = min_ℤ rem lot.remaining_quantity in
      match_lots_cases (Conserves rem realized (lot ∷ lots)) (opposite_of side) x rem realized lot
        lots (λ off. (refl, refl)) (λ e. tt)
        (λ total on paid used.
          Conserves-trans rem (rem -ℤ m) realized total (lot ∷ lots) lots _
            (drop_used rem m realized total lot lots used
              (first_round rem realized total lot lots on paid))
            (match_lots-Conserves (rem -ℤ m) total lots))
        (λ total on paid part. first_round rem realized total lot lots on paid)

pub cost-append : (lots more : List PositionLot) → cost (lots ++ more) ≡ cost lots +ℤ cost more
unfolding cost
cost-append [] more = omega int_laws
cost-append (lot ∷ lots) more = omega (int_laws, parts (cost-append lots more))

pub net_quantity-append :
    (lots more : List PositionLot)
    → net_quantity (lots ++ more) ≡ net_quantity lots +ℤ net_quantity more
unfolding net_quantity
net_quantity-append [] more = omega int_laws
net_quantity-append (lot ∷ lots) more = omega (int_laws, parts (net_quantity-append lots more))
