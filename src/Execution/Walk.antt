-- ===== src/Execution/Walk.antt =====
-- The walk of a market order over the depth of src/execution_simulator.cpp, against an allocation of
-- its quantity to the levels, best price first.
use cpp_market_replay_engine.Base.{
  if◌then◌else◌, pos, ◌+ℤ◌, ◌-ℤ◌, ◌*ℤ◌, ◌≤ℤ◌, ◌<ℤ◌, leb_ℤ, min_ℤ, ok, ◌≡◌, refl, List, [], ◌∷◌,
  ◌++◌, arith,
}
use cpp_market_replay_engine.Types.{int64_max, increment, Quantity}
use cpp_market_replay_engine.OrderBook.PriceMap.{PriceLevel, Levels}
use cpp_market_replay_engine.OrderBook.Apply.{IsLevel}
use cpp_market_replay_engine.Order.{Order, remaining_quantity}
use cpp_market_replay_engine.Order.Lifecycle.{record_fill_quantity_accepts}
use cpp_market_replay_engine.Fill.{Fill}
use cpp_market_replay_engine.Execution.Rounding.{IsRate, fee_found, notional_mono}
use cpp_market_replay_engine.Execution.{Simulator, create_fill, make_fill, take_level}

-- What a quantity gets from the levels, best first, until it is used up.
abbrev pub allocate : Quantity → Levels → List PriceLevel
allocate wanted [] = []
allocate wanted (l ∷ levels) =
    if leb_ℤ wanted (pos 0)
    then []
    else record { price_ticks = l.price_ticks; quantity = min_ℤ wanted l.quantity }
      ∷ allocate (wanted -ℤ min_ℤ wanted l.quantity) levels

-- What is left of a quantity by the levels.
abbrev pub unallocated : Quantity → Levels → Quantity
unallocated wanted [] = wanted
unallocated wanted (l ∷ levels) =
    if leb_ℤ wanted (pos 0) then wanted else unallocated (wanted -ℤ min_ℤ wanted l.quantity) levels

abbrev pub trade_of : Fill → PriceLevel
trade_of f = record { price_ticks = f.price_ticks; quantity = f.quantity }

abbrev pub trades_of : List Fill → List PriceLevel
trades_of [] = []
trades_of (f ∷ fs) = trade_of f ∷ trades_of fs

pub trades_of-snoc :
    (fs : List Fill) (f : Fill) → trades_of (fs ++ f ∷ []) ≡ trades_of fs ++ trade_of f ∷ []
trades_of-snoc [] f = refl
trades_of-snoc (g ∷ fs) f = rw (trades_of-snoc fs f)

-- A level that can be taken whole: valid, and worth no more than an int64_t holds.
abbrev pub IsPayable : PriceLevel → Type 0
IsPayable l = IsLevel l × (l.price_ticks *ℤ l.quantity ≤ℤ pos int64_max)

-- Every fill is of the order, at its arrival.
abbrev pub IsFillOf : Order → Fill → Type 0
IsFillOf order f =
    (f.order_id ≡ order.order_id)
    × (f.side ≡ order.side)
    × (f.fill_timestamp_ns ≡ order.exchange_arrival_timestamp_ns)

-- One fill of a payable level by an order that still wants some.
pub take_level_ok :
    (sim : Simulator) (order : Order) (fills : List Fill) (l : PriceLevel)
    → IsRate sim.fee_model
    → IsPayable l
    → pos 0 <ℤ remaining_quantity order
    → let q = min_ℤ (remaining_quantity order) l.quantity in
      (f : Fill) × (take_level sim order fills l
        ≡ ok (
          record sim { next_fill_sequence_id = increment sim.next_fill_sequence_id },
          record order { filled_quantity = order.filled_quantity +ℤ q },
          fills ++ f ∷ [],
        ))
      × (trade_of f ≡ record { price_ticks = l.price_ticks; quantity = q })
      × IsFillOf order f
      × (f.fill_sequence_id ≡ sim.next_fill_sequence_id)
unfolding take_level make_fill create_fill
take_level_ok sim order fills l rate h wants =
    let q = min_ℤ (remaining_quantity order) l.quantity in
    let (fee, found, _) =
      fee_found sim.fee_model.fee_rate_ppm l.price_ticks q rate (omega (arith, h)) (ground arith)
        (notional_mono l.price_ticks l.quantity q (omega (arith, h)) (ground arith) h.1) in
    let accepted = record_fill_quantity_accepts order q (ground arith) (ground arith) in
    (
      record {
        order_id = order.order_id;
        side = order.side;
        price_ticks = l.price_ticks;
        quantity = q;
        fill_timestamp_ns = order.exchange_arrival_timestamp_ns;
        fill_sequence_id = sim.next_fill_sequence_id;
        fee_amount = fee;
      },
      ground (arith, found, accepted),
      refl,
      (refl, refl, refl),
      refl,
    )
