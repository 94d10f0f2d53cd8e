-- ===== src/Latency/Queue.antt =====
-- The queue fraction of include/replay/latency_execution.hpp and src/latency_execution.cpp: how much
-- of the visible quantity at its price stands ahead of an order that comes to rest.
use cpp_market_replay_engine.Base.{
  if◌then◌else◌, ℤ, pos, negsuc, pos_part, ◌+ℤ◌, ◌*ℤ◌, quot, ltb_ℤ, invalid_queue_fraction,
  queue_ahead_overflow, Result, ok, err, ◌>>◌, ℕ, ◌+◌, ◌*◌, ◌/◌, ◌≤◌, ◌≡◌, subst, ◌||◌, arith,
}
use cpp_market_replay_engine.Types.{int64_max, Quantity, validate_quantity}
use cpp_market_replay_engine.Execution.Fee.{denominator_ppm}
use cpp_market_replay_engine.Execution.Rounding.{pos_mul, fee_of, fee_of_bounds}

pub record QueueFraction : Type 0 where
  pub ppm : ℤ

-- The constructor.
unfoldable pub make_queue_fraction : ℤ → Result QueueFraction
make_queue_fraction ppm =
    if ltb_ℤ ppm (pos 0) || ltb_ℤ (pos denominator_ppm) ppm
    then err invalid_queue_fraction
    else ok (record { ppm = ppm })

unfoldable pub checked_queue_ahead_from_128 : ℤ → Result Quantity
checked_queue_ahead_from_128 value =
    if ltb_ℤ (pos int64_max) value then err queue_ahead_overflow else ok value

unfoldable pub initial_queue_ahead : QueueFraction → Quantity → Result Quantity
unfolding validate_quantity
initial_queue_ahead fraction visible_quantity = do
  validate_quantity visible_quantity
  checked_queue_ahead_from_128
      (quot (visible_quantity *ℤ fraction.ppm +ℤ pos (denominator_ppm / 2)) denominator_ppm)

initial_queue_ahead_nat :
    (v r : ℕ)
    → r ≤ denominator_ppm
    → v ≤ int64_max
    → initial_queue_ahead (record { ppm = pos r }) (pos v) ≡ ok (pos (fee_of v r))
unfolding initial_queue_ahead checked_queue_ahead_from_128 quot fee_of ◌+ℤ◌
initial_queue_ahead_nat v r h k = ground (arith, pos_mul v r, fee_of_bounds v r h)

-- For every fraction that the constructor accepts and every visible quantity of an int64_t that is
-- not negative, the queue ahead is found: it is at most the visible quantity, and at most half a unit
-- away from the exact share of it.
pub initial_queue_ahead_rounds :
    (ppm : ℤ) (fraction : QueueFraction) (v : ℕ)
    → make_queue_fraction ppm ≡ ok fraction
    → v ≤ int64_max
    → (ahead : ℕ) × (initial_queue_ahead fraction (pos v) ≡ ok (pos ahead))
      × (ahead ≤ v)
      × (2000000 * ahead ≤ 2 * (v * pos_part ppm) + 1000000)
      × (2 * (v * pos_part ppm) ≤ 2000000 * ahead + 1000000)
unfolding make_queue_fraction
initial_queue_ahead_rounds (negsuc r) fraction v made k = absurd (ground arith)
initial_queue_ahead_rounds (pos r) fraction v made k =
    let (within, same) : (r ≤ denominator_ppm) × (record { ppm = pos r } ≡ fraction) =
      ground arith in
    let (small, near, far) = fee_of_bounds v r within in
    (
      fee_of v r,
      subst (λ f. initial_queue_ahead f (pos v) ≡ ok (pos (fee_of v r))) same
          (initial_queue_ahead_nat v r within k),
      small,
      near,
      far,
    )
