-- ===== src/Execution/Outcome.antt =====
-- The outcome of a market order in src/execution_simulator.cpp: its fills, its last status, and that
-- it is always found.
use cpp_market_replay_engine.Base.{
  if◌then◌else◌, Bool-cases, All, pos, ◌-ℤ◌, ◌<ℤ◌, eqb_ℤ, int_laws, ok, ◌≡◌, refl, ap, ◌∙◌, inl,
  inr, false, List, [], ◌∷◌, ◌++◌, arith,
}
use cpp_market_replay_engine.Types.{Quantity, OrderType, OrderStatus}
use cpp_market_replay_engine.OrderBook.PriceMap.{PriceLevel, Levels}
use cpp_market_replay_engine.OrderBook.{OrderBook}
use cpp_market_replay_engine.Order.{Order, remaining_quantity, transition_to}
use cpp_market_replay_engine.Fill.{Fill}
use cpp_market_replay_engine.Execution.Walk.{allocate, unallocated, trades_of, IsPayable, IsFillOf}
use cpp_market_replay_engine.Execution.{
  Simulator, opposite_depth, ensure_pending_for_execution, ExecutionResult, walk_depth, is_nil,
  close_market_order, execute_market_order, execute_order,
}
use cpp_market_replay_engine.Execution.Rounding.{IsRate}
use cpp_market_replay_engine.Execution.Market.{walk_depth-Walked}

-- The last status of a market order: rejected by an empty side, filled if nothing is left of it, and
-- otherwise canceled.
abbrev pub final_status : Quantity → Levels → OrderStatus
final_status wanted [] = OrderStatus.rejected
final_status wanted (l ∷ levels) =
    if eqb_ℤ (unallocated wanted (l ∷ levels)) (pos 0)
    then OrderStatus.filled
    else OrderStatus.canceled

-- A market order as it arrives at the exchange.
pub record IsArriving (order : Order) : Type 0 where
  pub market : order.order_type ≡ OrderType.market
  pub pending : order.status ≡ OrderStatus.pending
  pub positive : pos 0 <ℤ order.original_quantity
  pub unfilled : order.filled_quantity ≡ pos 0

pub record Executed (sim : Simulator) (order : Order) (book : OrderBook) : Type 0 where
  pub result : ExecutionResult
  pub next : Simulator
  pub returns : execute_order sim order book ≡ ok (result, next)
  pub trades : trades_of result.fills ≡ allocate order.original_quantity (opposite_depth order book)
  pub left :
      remaining_quantity result.order
      ≡ unallocated order.original_quantity (opposite_depth order book)
  pub status :
      result.order.status ≡ final_status order.original_quantity (opposite_depth order book)
  pub of_order : All (IsFillOf order) result.fills

pub with_status : Order → OrderStatus → Order
with_status o s = record o { status = s; status_history = o.status_history ++ s ∷ [] }

-- The end of an acknowledged order that has some fills.
close_filled :
    (o : Order) (fills : List Fill)
    → o.status ≡ OrderStatus.acknowledged
    → is_nil fills ≡ false
    → (closed : Order) × (close_market_order o fills ≡ ok closed)
      × (closed.status ≡ (
          if eqb_ℤ (remaining_quantity o) (pos 0)
          then OrderStatus.filled
          else OrderStatus.canceled))
      × (remaining_quantity closed ≡ remaining_quantity o)
unfolding close_market_order transition_to with_status remaining_quantity
close_filled o fills e some_fills = elim (Bool-cases (eqb_ℤ (remaining_quantity o) (pos 0))) [
  | inl all ↦ (with_status o OrderStatus.filled, ground arith, ground arith, refl)
  | inr part ↦ (
    with_status (with_status o OrderStatus.partially_filled) OrderStatus.canceled,
    ground arith,
    ground arith,
    refl,
  )
]

-- The execution at a depth: nothing, or a walk of it.
execute_at_empty :
    (sim : Simulator) (order : Order) (book : OrderBook)
    → IsArriving order
    → opposite_depth order book ≡ []
    → execute_order sim order book
      ≡ ok (record { order = with_status order OrderStatus.rejected; fills = [] }, sim)
unfolding execute_order execute_market_order ensure_pending_for_execution transition_to with_status
execute_at_empty sim order book a e = ground arith

execute_at_depth :
    (sim next : Simulator) (order done closed : Order) (book : OrderBook) (fills : List Fill)
    → IsArriving order
    → is_nil (opposite_depth order book) ≡ false
    → walk_depth sim (with_status order OrderStatus.acknowledged) [] (opposite_depth order book)
      ≡ ok (next, done, fills)
    → close_market_order done fills ≡ ok closed
    → execute_order sim order book ≡ ok (record { order = closed; fills = fills }, next)
unfolding execute_order execute_market_order ensure_pending_for_execution transition_to with_status
execute_at_depth sim next order done closed book fills a some_depth walked ended = ground arith

arriving_wants :
    (order : Order) (s : OrderStatus)
    → IsArriving order
    → (remaining_quantity (with_status order s) ≡ order.original_quantity)
      × (pos 0 <ℤ remaining_quantity (with_status order s))
unfolding remaining_quantity with_status
arriving_wants order s a =
    let whole : order.original_quantity -ℤ order.filled_quantity ≡ order.original_quantity =
      rw a.unfilled (omega int_laws) in
    (whole, rw whole a.positive)

some_trades :
    (fills : List Fill) (l : PriceLevel) (depth : Levels) (wanted : Quantity)
    → pos 0 <ℤ wanted
    → trades_of fills ≡ allocate wanted (l ∷ depth)
    → is_nil fills ≡ false
some_trades [] l depth wanted h e = ground arith
some_trades (f ∷ fills) l depth wanted h e = refl

execute_cases :
    (sim : Simulator) (order : Order) (book : OrderBook) (depth : Levels)
    → opposite_depth order book ≡ depth
    → IsRate sim.fee_model
    → IsArriving order
    → All IsPayable depth
    → Executed sim order book
execute_cases sim order book [] e rate a h = record {
  result = record { order = with_status order OrderStatus.rejected; fills = [] };
  next = sim;
  returns = execute_at_empty sim order book a e;
  trades = rw e refl;
  left = rw e (arriving_wants order OrderStatus.rejected a).0;
  status = rw e (unfold with_status in refl);
  of_order = tt;
}
execute_cases sim order book (l ∷ depth) e rate a h =
    let acknowledged = with_status order OrderStatus.acknowledged in
    let (whole, wants) = arriving_wants order OrderStatus.acknowledged a in
    let w = walk_depth-Walked sim acknowledged [] (l ∷ depth) rate h wants in
    let left = w.left ∙ ap (λ q. unallocated q (l ∷ depth)) whole in
    let filled = some_trades w.more l depth (remaining_quantity acknowledged) wants w.allocated in
    let kept : w.done.status ≡ OrderStatus.acknowledged =
      ap (λ (o : Order). o.status) w.same_order ∙ (unfold with_status in refl) in
    let (closed, ended, status, rest) = close_filled w.done w.more kept filled in
    record {
      result = record { order = closed; fills = w.more };
      next = w.next;
      returns =
          execute_at_depth sim w.next order w.done closed book w.more a (rw e refl) (rw e w.returns)
            ended;
      trades = rw e (w.allocated ∙ ap (λ q. allocate q (l ∷ depth)) whole);
      left = rw e (rest ∙ left);
      status = rw e (
          status
          ∙ ap (λ q. if eqb_ℤ q (pos 0) then OrderStatus.filled else OrderStatus.canceled) left);
      of_order = unfold with_status in w.of_order;
    }

-- A market order that arrives is executed, with no error, at any depth whose levels are valid and each
-- worth at most an int64_t. Its fills are the allocation of its quantity to the levels, best first,
-- each of the order and at its arrival; it keeps what the levels could not give; and it ends rejected
-- if the side is empty, filled if nothing is left, canceled otherwise.
pub execute_order-Executed :
    (sim : Simulator) (order : Order) (book : OrderBook)
    → IsRate sim.fee_model
    → IsArriving order
    → All IsPayable (opposite_depth order book)
    → Executed sim order book
execute_order-Executed sim order book rate a h =
    execute_cases sim order book (opposite_depth order book) refl rate a h
