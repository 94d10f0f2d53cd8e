-- ===== src/Execution/Rounding.antt =====
-- The fee is the nearest whole number to its share of the notional, never more than the notional, and
-- is always found where the notional fits an int64_t.
use cpp_market_replay_engine.Base.{
  ℤ, pos, negsuc, pos_part, neg_part, ◌+ℤ◌, ◌*ℤ◌, quot, ◌≤ℤ◌, *ℤ_parts, ok, ℕ, zero, suc, ◌+◌, ◌-◌,
  ◌*◌, ◌/◌, ◌≤◌, ◌<◌, ◌≡◌, subst, arith,
}
use cpp_market_replay_engine.Types.{int64_max}
use cpp_market_replay_engine.Execution.Fee.{
  denominator_ppm, int128_max, FeeModel, checked_notional, checked_fee_numerator,
  checked_fee_from_128, calculate_fee,
}

-- A factor below a bound keeps a product below the bound's multiple.
product_le : (n r m k : ℕ) → n ≤ m → r ≤ k → n * r ≤ m * k
product_le n r m k h e = grind arith

le-div : (n d m : ℕ) → 0 < d → n * d ≤ m → n ≤ m / d
le-div n d m h e = grind arith

pub pos_mul : (a b : ℕ) → pos a *ℤ pos b ≡ pos (a * b)
unfolding ◌*ℤ◌
pos_mul a b = ground arith

unfoldable pub fee_of : (n r : ℕ) → ℕ
fee_of n r = (n * r + 500000) / 1000000

pub fee_of_bounds :
    (n r : ℕ)
    → r ≤ denominator_ppm
    → (fee_of n r ≤ n)
      × (2000000 * fee_of n r ≤ 2 * (n * r) + 1000000)
      × (2 * (n * r) ≤ 2000000 * fee_of n r + 1000000)
unfolding fee_of
fee_of_bounds n r h = omega (arith, product_le n r n denominator_ppm (omega arith) h)

calculate_fee_lem :
    (a b r : ℕ)
    → r ≤ denominator_ppm
    → 0 < r
    → a * b ≤ int64_max
    → calculate_fee (record { fee_rate_ppm = pos r }) (pos a) (pos b) ≡ ok (pos (fee_of (a * b) r))
unfolding calculate_fee checked_notional checked_fee_numerator checked_fee_from_128 quot fee_of ◌+ℤ◌
calculate_fee_lem a b r h k fits =
    let room = product_le (a * b) r int64_max denominator_ppm fits h in
    ground (
      arith,
      pos_mul a b,
      pos_mul (a * b) r,
      le-div (a * b) r (int128_max - 500000) k (omega (arith, room)),
      fee_of_bounds (a * b) r h,
    )

-- For a rate of at most a million parts, a price and a quantity that are not negative and whose
-- product fits an int64_t, the fee is found. It is at most the notional, and at most half a unit away
-- from the exact share.
pub calculate_fee_rounds :
    (a b r : ℕ)
    → r ≤ denominator_ppm
    → a * b ≤ int64_max
    → (fee : ℕ) × (calculate_fee (record { fee_rate_ppm = pos r }) (pos a) (pos b) ≡ ok (pos fee))
      × (fee ≤ a * b)
      × (2000000 * fee ≤ 2 * (a * b * r) + 1000000)
      × (2 * (a * b * r) ≤ 2000000 * fee + 1000000)
unfolding calculate_fee checked_notional checked_fee_numerator checked_fee_from_128 quot
calculate_fee_rounds a b zero h fits = (0, ground arith, omega arith, omega arith, omega arith)
calculate_fee_rounds a b (suc r) h fits =
    let n = a * b in
    let (small, near, far) = fee_of_bounds n (suc r) h in
    (fee_of n (suc r), calculate_fee_lem a b (suc r) h (omega arith) fits, small, near, far)

-- A rate that the constructor accepts.
abbrev pub IsRate : FeeModel → Type 0
IsRate fees = (pos 0 ≤ℤ fees.fee_rate_ppm) × (fees.fee_rate_ppm ≤ℤ pos denominator_ppm)

-- The same for integers: a fee is found, and it is not negative.
pub fee_found :
    (rate : ℤ) (p q : ℤ)
    → IsRate (record { fee_rate_ppm = rate })
    → pos 0 ≤ℤ p
    → pos 0 ≤ℤ q
    → p *ℤ q ≤ℤ pos int64_max
    → (fee : ℤ) × (calculate_fee (record { fee_rate_ppm = rate }) p q ≡ ok fee) × (pos 0 ≤ℤ fee)
fee_found (pos r) (pos a) (pos b) h hp hq fits =
    let fits' = subst (λ v. v ≤ℤ pos int64_max) (pos_mul a b) fits in
    let (fee, found, _, _, _) =
      calculate_fee_rounds a b r (omega (arith, h.1)) (omega (arith, fits')) in
    (pos fee, found, omega arith)
fee_found (negsuc r) p q h hp hq fits = absurd (omega (arith, h.0))
fee_found (pos r) (negsuc a) q h hp hq fits = absurd (omega (arith, hp))
fee_found (pos r) (pos a) (negsuc b) h hp hq fits = absurd (omega (arith, hq))

-- A smaller quantity at the same price is worth no more.
pub notional_mono :
    (p q q' : ℤ) → pos 0 ≤ℤ p → q' ≤ℤ q → p *ℤ q ≤ℤ pos int64_max → p *ℤ q' ≤ℤ pos int64_max
notional_mono (negsuc a) q q' hp h fits = absurd (omega (arith, hp))
notional_mono (pos a) q q' hp h fits = omega (
  arith,
  *ℤ_parts (pos a) q,
  *ℤ_parts (pos a) q',
  product_le (pos_part q' + neg_part q) a (pos_part q + neg_part q') a h (omega arith),
  fits,
)
