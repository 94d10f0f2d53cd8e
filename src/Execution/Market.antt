-- ===== src/Execution/Market.antt =====
-- Market orders of src/execution_simulator.cpp: what the whole walk and the whole execution return.
use mathlib.Core.List.{append_assoc, append-nil}
use cpp_market_replay_engine.Base.{
  if◌then◌else◌, Bool-cases, All, pos, ◌+ℤ◌, ◌-ℤ◌, ◌<ℤ◌, ltb_ℤ, leb_ℤ, eqb_ℤ, min_ℤ, -ℤ_parts,
  parts, ok, ◌≡◌, refl, ◌∙◌, inl, inr, true, false, ◌||◌, List, [], ◌∷◌, ◌++◌, arith,
}
use cpp_market_replay_engine.Types.{increment, Quantity, validate_quantity}
use cpp_market_replay_engine.OrderBook.PriceMap.{PriceLevel, Levels}
use cpp_market_replay_engine.Order.{Order, remaining_quantity}
use cpp_market_replay_engine.Order.Lifecycle.{remaining_quantity-fill}
use cpp_market_replay_engine.Fill.{Fill}
use cpp_market_replay_engine.Execution.Rounding.{IsRate}
use cpp_market_replay_engine.Execution.Walk.{
  allocate, unallocated, trades_of, IsPayable, IsFillOf, take_level_ok,
}
use cpp_market_replay_engine.Execution.{Simulator, take_level, walk_depth}

-- What the walk of an order returns: the fills are the allocation of what it wanted, and what it
-- still wants is what the levels could not give; nothing else of the order has changed.
pub record Walked (sim : Simulator) (order : Order) (fills : List Fill) (depth : Levels)
    : Type 0 where
  pub next : Simulator
  pub done : Order
  pub more : List Fill
  pub returns : walk_depth sim order fills depth ≡ ok (next, done, fills ++ more)
  pub allocated : trades_of more ≡ allocate (remaining_quantity order) depth
  pub left : remaining_quantity done ≡ unallocated (remaining_quantity order) depth
  pub same_order : done ≡ record order { filled_quantity = done.filled_quantity }
  pub same_fees : next.fee_model ≡ sim.fee_model
  pub of_order : All (IsFillOf order) more

nothing_wanted :
    (wanted : Quantity) (depth : Levels)
    → leb_ℤ wanted (pos 0) ≡ true
    → (allocate wanted depth ≡ []) × (unallocated wanted depth ≡ wanted)
nothing_wanted wanted [] h = (refl, refl)
nothing_wanted wanted (l ∷ depth) h = rw h (refl, refl)

-- One round of the loop at a level that has something, for an order that wants something.
walk_step :
    (sim next : Simulator) (order filled : Order) (fills more : List Fill) (l : PriceLevel)
    (depth : Levels)
    → pos 0 <ℤ l.quantity
    → pos 0 <ℤ remaining_quantity order
    → take_level sim order fills l ≡ ok (next, filled, more)
    → walk_depth sim order fills (l ∷ depth) ≡ (
        if eqb_ℤ (remaining_quantity filled) (pos 0)
        then ok (next, filled, more)
        else walk_depth next filled more depth)
unfolding walk_depth validate_quantity
walk_step sim next order filled fills more l depth has wants taken =
    let valid : ltb_ℤ l.quantity (pos 0) ≡ false = ground arith in
    let goes : (eqb_ℤ l.quantity (pos 0) || eqb_ℤ (remaining_quantity order) (pos 0)) ≡ false =
      ground arith in
    rw (valid, goes, taken)

pub walk_depth-Walked :
    (sim : Simulator) (order : Order) (fills : List Fill) (depth : Levels)
    → IsRate sim.fee_model
    → All IsPayable depth
    → pos 0 <ℤ remaining_quantity order
    → Walked sim order fills depth
unfolding walk_depth
walk_depth-Walked sim order fills [] rate h wants = record {
  next = sim;
  done = order;
  more = [];
  returns = rw (append-nil fills);
  allocated = refl;
  left = refl;
  same_order = refl;
  same_fees = refl;
  of_order = tt;
}
walk_depth-Walked sim order fills (l ∷ depth) rate h wants =
    let q = min_ℤ (remaining_quantity order) l.quantity in
    let filled = record order { filled_quantity = order.filled_quantity +ℤ q } in
    let next = record sim { next_fill_sequence_id = increment sim.next_fill_sequence_id } in
    let (f, taken, trade, of_order, _) = take_level_ok sim order fills l rate h.0 wants in
    let step =
      walk_step sim next order filled fills (fills ++ f ∷ []) l depth (omega (arith, h.0)) wants
        taken in
    let after : remaining_quantity filled ≡ remaining_quantity order -ℤ q =
      remaining_quantity-fill order q in
    elim (Bool-cases (eqb_ℤ (remaining_quantity filled) (pos 0))) [
      | inl enough ↦
          let (no_more, kept) =
            nothing_wanted (remaining_quantity order -ℤ q) depth (rw (← after) (ground arith)) in
          record {
            next = next;
            done = filled;
            more = f ∷ [];
            returns = step ∙ rw enough refl;
            allocated = ground (arith, trade, no_more);
            left = ground (arith, after, kept);
            same_order = refl;
            same_fees = refl;
            of_order = (of_order, tt);
          }
      | inr short ↦
          let wanting : pos 0 <ℤ remaining_quantity filled =
            ground (arith, -ℤ_parts (remaining_quantity order) q, parts after) in
          let w = walk_depth-Walked next filled (fills ++ f ∷ []) depth rate h.1 wanting in
          record {
            next = w.next;
            done = w.done;
            more = f ∷ w.more;
            returns = step ∙ rw short (rw (← append_assoc fills (f ∷ []) w.more) w.returns);
            allocated = ground (arith, trade, w.allocated, after);
            left = ground (arith, after, w.left);
            same_order = w.same_order;
            same_fees = w.same_fees;
            of_order = (of_order, w.of_order);
          }
    ]
