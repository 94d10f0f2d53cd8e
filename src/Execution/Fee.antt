-- ===== src/Execution/Fee.antt =====
-- The fee model of src/execution_simulator.cpp: a share of the notional in parts per million, rounded
-- to the nearest unit, in __int128 arithmetic behind an overflow test.
use cpp_market_replay_engine.Base.{
  if◌then◌else◌, ℤ, pos, pos_part, ◌+ℤ◌, ◌*ℤ◌, quot, ltb_ℤ, eqb_ℤ, invalid_fee_rate,
  fee_calculation_overflow, fee_overflow, Result, ok, err, ◌>>=◌, ◌>>◌, throw_if, ℕ, ◌-◌, ◌/◌,
}
use cpp_market_replay_engine.Types.{
  int64_max, PriceTicks, Quantity, validate_price_ticks, validate_quantity,
}

-- FeeModel::denominator_ppm, and 2^127 - 1
abbrev pub denominator_ppm : ℕ
denominator_ppm = 1000000

abbrev pub int128_max : ℕ
int128_max = 170141183460469231731687303715884105727

pub record FeeModel : Type 0 where
  pub fee_rate_ppm : ℤ

-- The constructor.
unfoldable pub make_fee_model : ℤ → Result FeeModel
make_fee_model fee_rate_ppm = do
  throw_if (ltb_ℤ fee_rate_ppm (pos 0)) invalid_fee_rate
  throw_if (ltb_ℤ (pos denominator_ppm) fee_rate_ppm) invalid_fee_rate
  ok (record { fee_rate_ppm = fee_rate_ppm })

unfoldable pub checked_notional : PriceTicks → Quantity → Result ℤ
unfolding validate_price_ticks validate_quantity
checked_notional price_ticks quantity = do
  validate_price_ticks price_ticks
  validate_quantity quantity
  ok (price_ticks *ℤ quantity)

-- The rate is not negative, so that the division by it is one by a natural number.
unfoldable pub checked_fee_numerator : ℤ → ℤ → Result ℤ
checked_fee_numerator notional fee_rate_ppm =
    if eqb_ℤ fee_rate_ppm (pos 0)
    then ok (pos 0)
    else if ltb_ℤ (quot (pos (int128_max - denominator_ppm / 2)) (pos_part fee_rate_ppm)) notional
    then err fee_calculation_overflow
    else ok (notional *ℤ fee_rate_ppm +ℤ pos (denominator_ppm / 2))

unfoldable pub checked_fee_from_128 : ℤ → Result ℤ
checked_fee_from_128 value = if ltb_ℤ (pos int64_max) value then err fee_overflow else ok value

unfoldable pub calculate_fee : FeeModel → PriceTicks → Quantity → Result ℤ
calculate_fee fees price_ticks quantity = do
  notional ← checked_notional price_ticks quantity
  numerator ← checked_fee_numerator notional fees.fee_rate_ppm
  checked_fee_from_128 (quot numerator denominator_ppm)
