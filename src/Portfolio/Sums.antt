-- ===== src/Portfolio/Sums.antt =====
-- Sums over lists, the numbers of the applied fills, and the value of a lot that a fill opens.
use cpp_market_replay_engine.Base.{
  Bool-cases, ℤ, pos, ◌+ℤ◌, ◌*ℤ◌, ◌≤ℤ◌, ltb_ℤ, eq_of_parts, int_laws, add-zero_ℤ, parts, ℕ, ◌≡◌,
  refl, ap, ◌∙◌, ◌≢◌, inl, inr, false, List, [], ◌∷◌, ◌++◌, arith,
}
use cpp_market_replay_engine.Types.{Quantity, Side}
use cpp_market_replay_engine.Fill.{Fill}
use cpp_market_replay_engine.Portfolio.Lots.{PositionLot, signed, net_quantity, open_lot}
use cpp_market_replay_engine.Portfolio.Balance.{cost, signed_gone, cost-append, net_quantity-append}
use cpp_market_replay_engine.Portfolio.{contains}

unfoldable pub sum_of {ℓ} : {A : Type ℓ} → (A → ℤ) → List A → ℤ
sum_of f [] = pos 0
sum_of f (x ∷ xs) = f x +ℤ sum_of f xs

pub sum_of-snoc {ℓ} :
    {A : Type ℓ} (f : A → ℤ) (xs : List A) (x : A) → sum_of f (xs ++ x ∷ []) ≡ sum_of f xs +ℤ f x
unfolding sum_of
sum_of-snoc f [] x = omega int_laws
sum_of-snoc f (y ∷ xs) x = omega (int_laws, parts (sum_of-snoc f xs x))

abbrev pub sequence_ids : List Fill → List ℕ
sequence_ids [] = []
sequence_ids (f ∷ fs) = f.fill_sequence_id ∷ sequence_ids fs

-- No number twice.
abbrev pub IsDistinct : List ℕ → Type 0
IsDistinct [] = Unit {0}
IsDistinct (i ∷ ids) = (contains i ids ≡ false) × IsDistinct ids

pub sequence_ids-snoc :
    (fs : List Fill) (f : Fill)
    → sequence_ids (fs ++ f ∷ []) ≡ sequence_ids fs ++ f.fill_sequence_id ∷ []
sequence_ids-snoc [] f = refl
sequence_ids-snoc (g ∷ fs) f = rw (sequence_ids-snoc fs f)

contains-snoc :
    (i j : ℕ) (ids : List ℕ) → contains i ids ≡ false → i ≢ j → contains i (ids ++ j ∷ []) ≡ false
contains-snoc i j [] h ne = ground arith
contains-snoc i j (k ∷ ids) h ne = ground (arith, contains-snoc i j ids)

pub IsDistinct-snoc :
    (j : ℕ) (ids : List ℕ) → contains j ids ≡ false → IsDistinct ids → IsDistinct (ids ++ j ∷ [])
IsDistinct-snoc j [] h d = (refl, tt)
IsDistinct-snoc j (i ∷ ids) h d =
    (contains-snoc i j ids d.0 (ground arith), IsDistinct-snoc j ids (ground arith) d.1)

-- The cost and the inventory of the lots with what is left of the fill opened as a new lot.
pub open_lot_value :
    (side : Side) (fill : Fill) (rest : Quantity) (kept : List PositionLot)
    → pos 0 ≤ℤ rest
    → (cost (open_lot side fill rest kept) ≡ cost kept +ℤ signed side (rest *ℤ fill.price_ticks))
      × (net_quantity (open_lot side fill rest kept) ≡ net_quantity kept +ℤ signed side rest)
unfolding cost net_quantity
open_lot_value side fill rest kept h = elim (Bool-cases (ltb_ℤ (pos 0) rest)) [
  | inl some_left ↦ rw some_left (
    cost-append kept _ ∙ ap (λ c. cost kept +ℤ c) (add-zero_ℤ _),
    net_quantity-append kept _ ∙ ap (λ c. net_quantity kept +ℤ c) (add-zero_ℤ _),
  )
  | inr none_left ↦
      let gone : rest ≡ pos 0 = eq_of_parts rest (pos 0) (ground arith) in
      let (worth, count) = signed_gone side rest fill.price_ticks gone in
      rw none_left (omega (int_laws, parts worth), omega (int_laws, parts count))
]
