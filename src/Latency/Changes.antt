-- ===== src/Latency/Changes.antt =====
-- The same of the handlers of src/latency_execution.cpp: trades, arrivals, cancels and submissions.
use cpp_market_replay_engine.Latency.Queue.{initial_queue_ahead}
use cpp_market_replay_engine.Base.{
  ◌==◌, if◌then◌else◌, Bool-cases, length, get_elem?, set, length-append, ++-nil, pos, eqb_ℤ,
  not_pending, arrival_mismatch, not_resting, Result, ok, throw_if, ◌>>=◌, >>=-eq-ok, ℕ, suc, ◌+◌,
  ◌≤◌, ◌≡◌, refl, sym, ap, ◌∙◌, subst, inl, inr, Bool, true, false, not, ◌||◌, some, List, [], ◌∷◌,
  ◌++◌, arith,
}
use cpp_market_replay_engine.Types.{
  OrderId, Quantity, OrderStatus, same_status, LatencyNs, validate_price_ticks, validate_quantity,
}
use cpp_market_replay_engine.Market.{TradeEvent}
use cpp_market_replay_engine.OrderBook.{OrderBook}
use cpp_market_replay_engine.Order.{Order, remaining_quantity, transition_to}
use cpp_market_replay_engine.Execution.{
  Simulator, create_order_from_intent, opposite_depth, ExecutionResult, is_nil, is_market,
  execute_order,
}
use cpp_market_replay_engine.Latency.{
  is_some, visible_quantity_at_limit, rest_limit_order, settle_arrival, process_limit_order_arrival,
  arrival_order_id, cancel_order_id, execute_arrival, process_order_arrival, process_cancel_arrival,
  finish_trade, process_trade,
}
use cpp_market_replay_engine.Latency.State.{
  OrderSubmissionRecord, LatencyAwareExecution, submit_order_intent, deactivate_active_limit_order,
}
use cpp_market_replay_engine.Latency.Trade.{
  is_active_resting_status, find_order, Matching, match_all, keep_open,
}
use cpp_market_replay_engine.Latency.Arrival.{limit_price, Crossing, cross_depth}
use cpp_market_replay_engine.Latency.Growth.{
  is_pending, one_if, pending_count, pending_count-append, length-set, set-pending_count,
  set-pending_of, Grows, same-Grows, transition_to_status, match_all-Passes,
}
use cpp_market_replay_engine.Strategy.{OrderIntent}
use cpp_market_replay_engine.EventLoop.{EventLoop, schedule_internal}
use cpp_market_replay_engine.EventLoop.Scheduler.{ScheduledInternalEvent}

-- What a call makes of the orders and the fills of an execution.
abbrev pub Changes : LatencyAwareExecution → LatencyAwareExecution → Type 0
Changes x y = Grows x.orders y.orders x.fills y.fills

same-Changes : (x : LatencyAwareExecution) → Changes x x
same-Changes x = same-Grows x.orders x.fills

pub process_trade-Changes :
    (x y : LatencyAwareExecution) (trade : TradeEvent) → process_trade x trade ≡ ok y → Changes x y
unfolding process_trade
process_trade-Changes x y trade e =
    let (_, _, e₁) = >>=-eq-ok (validate_quantity trade.quantity) _ e in
    let (_, _, e₂) = >>=-eq-ok (validate_price_ticks trade.price_ticks) _ e₁ in
    by_test (eqb_ℤ trade.quantity (pos 0) || not (is_some trade.aggressor_side)) e₂
  where
    begin : Matching
    begin = record {
      simulator = x.execution_simulator;
      orders = x.orders;
      fills = x.fills;
      remaining_trade_quantity = trade.quantity;
    }

    by_test :
        (skips : Bool)
        → (if skips
            then ok x
            else (match_all trade x.active_limit_orders begin >>= λ (matched, m).
                keep_open m.orders matched >>= λ kept. finish_trade x m kept))
          ≡ ok y
        → Changes x y
    by_test true e = let same : x ≡ y = ground arith in subst (Changes x) same (same-Changes x)
    by_test false e =
        let ((matched, m), all, e₁) = >>=-eq-ok (match_all trade x.active_limit_orders begin) _ e in
        let (kept, _, e₂) = >>=-eq-ok (keep_open m.orders matched) _ e₁ in
        let (os, fs) : (m.orders ≡ y.orders) × (m.fills ≡ y.fills) = ground arith in
        let g = match_all-Passes trade x.active_limit_orders matched begin m all in
        subst (λ os. Grows x.orders os x.fills y.fills) os
          (subst (λ fs. Grows x.orders m.orders x.fills fs) fs g)

rest_limit_order_same :
    (x y : LatencyAwareExecution) (o : Order) (q : Quantity)
    → rest_limit_order x o q ≡ ok y
    → (x.orders ≡ y.orders) × (x.fills ≡ y.fills)
unfolding rest_limit_order
rest_limit_order_same x y o q e =
    let (_, _, e₁) = >>=-eq-ok (throw_if (not (is_active_resting_status o.status)) _) _ e in
    let (_, _, e₂) = >>=-eq-ok (limit_price o.limit_price_ticks) _ e₁ in
    let (_, _, e₃) = >>=-eq-ok (validate_quantity q) _ e₂ in (ground arith, ground arith)

settle_arrival_same :
    (x y : LatencyAwareExecution) (book : OrderBook) (c : Crossing) (r : ExecutionResult)
    → settle_arrival x book c ≡ ok (r, y)
    → (x.orders ≡ y.orders) × (x.fills ≡ y.fills)
unfolding settle_arrival
settle_arrival_same x y book c r e = by_test (eqb_ℤ (remaining_quantity c.order) (pos 0)) e
  where
    closes : Result (ExecutionResult × LatencyAwareExecution)
    closes = transition_to c.order OrderStatus.filled >>= λ filled.
        ok (record { order = filled; fills = c.fills }, x)

    rests : Quantity → Order → Result (ExecutionResult × LatencyAwareExecution)
    rests queue_ahead order = rest_limit_order x order queue_ahead >>= λ rested.
        ok (record { order = order; fills = c.fills }, rested)

    by_test :
        (done : Bool)
        → if◌then◌else◌ {A = Result (ExecutionResult × LatencyAwareExecution)} done closes (
            (if c.filled_at_limit
              then ok (pos 0)
              else (visible_quantity_at_limit c.order book
                  >>= initial_queue_ahead x.queue_fraction))
            >>= λ queue_ahead.
                (if is_nil c.fills
                  then ok c.order
                  else transition_to c.order OrderStatus.partially_filled)
                >>= rests queue_ahead)
          ≡ ok (r, y)
        → (x.orders ≡ y.orders) × (x.fills ≡ y.fills)
    by_test true e =
        let (_, _, e₁) = >>=-eq-ok (transition_to c.order OrderStatus.filled) _ e in
        (ground arith, ground arith)
    by_test false e =
        let (queue_ahead, _, e₁) =
          >>=-eq-ok
            (if c.filled_at_limit
              then ok (pos 0)
              else (visible_quantity_at_limit c.order book
                  >>= initial_queue_ahead x.queue_fraction))
            _ e in
        let (order, _, e₂) =
          >>=-eq-ok
            (if is_nil c.fills
              then ok c.order
              else transition_to c.order OrderStatus.partially_filled)
            (rests queue_ahead) e₁ in
        let (rested, placed, e₃) = >>=-eq-ok (rest_limit_order x order queue_ahead) _ e₂ in
        let same : rested ≡ y = ground arith in
        subst (λ (z : LatencyAwareExecution). (x.orders ≡ z.orders) × (x.fills ≡ z.fills)) same
          (rest_limit_order_same x rested order queue_ahead placed)

process_limit_order_arrival_same :
    (x y : LatencyAwareExecution) (o : Order) (book : OrderBook) (r : ExecutionResult)
    → process_limit_order_arrival x o book ≡ ok (r, y)
    → (x.orders ≡ y.orders) × (x.fills ≡ y.fills)
unfolding process_limit_order_arrival
process_limit_order_arrival_same x y o book r e =
    let (_, _, e₁) = >>=-eq-ok (throw_if (is_market o.order_type) _) _ e in
    let (_, _, e₂) = >>=-eq-ok (throw_if (not (same_status o.status OrderStatus.pending)) _) _ e₁ in
    let (acknowledged, _, e₃) = >>=-eq-ok (transition_to o OrderStatus.acknowledged) _ e₂ in
    let (crossed, _, e₄) =
      >>=-eq-ok
        (cross_depth
          (record {
            simulator = x.execution_simulator;
            order = acknowledged;
            fills = [];
            filled_at_limit = false;
          })
          (opposite_depth acknowledged book))
        _ e₃ in
    settle_arrival_same (record x { execution_simulator = crossed.simulator }) y book crossed r e₄

execute_arrival_same :
    (x y : LatencyAwareExecution) (o : Order) (book : OrderBook) (r : ExecutionResult)
    → execute_arrival x o book ≡ ok (r, y)
    → (x.orders ≡ y.orders) × (x.fills ≡ y.fills)
unfolding execute_arrival
execute_arrival_same x y o book r e = by_type (is_market o.order_type) e
  where
    kept : ExecutionResult × Simulator → Result (ExecutionResult × LatencyAwareExecution)
    kept (result, simulator) = ok (result, record x { execution_simulator = simulator })

    by_type :
        (market : Bool)
        → if◌then◌else◌ {A = Result (ExecutionResult × LatencyAwareExecution)}
            (not market)
            (process_limit_order_arrival x o book)
            (execute_order x.execution_simulator o book >>= kept)
          ≡ ok (r, y)
        → (x.orders ≡ y.orders) × (x.fills ≡ y.fills)
    by_type false e = process_limit_order_arrival_same x y o book r e
    by_type true e =
        let ((result, simulator), _, e₁) =
          >>=-eq-ok (execute_order x.execution_simulator o book) kept e in
        (ground arith, ground arith)

find_order_at :
    (id : OrderId) (orders : List Order) (i : ℕ) (o : Order)
    → find_order id orders ≡ ok (i, o)
    → get_elem? orders i ≡ some o
unfolding find_order
find_order_at id [] i o e = absurd cc
find_order_at id (x ∷ orders) i o e = elim (Bool-cases (x.order_id == id)) [
  | inl same ↦ ground (arith, same)
  | inr other ↦
      let shift : ℕ × Order → Result (ℕ × Order) = λ (index, found). ok (suc index, found) in
      let rest : (find_order id orders >>= shift) ≡ ok (i, o) = ground (arith, other) in
      let ((j, y), found, same) = >>=-eq-ok (find_order id orders) shift rest in
      ground (arith, find_order_at id orders j y found)
]

-- An arrival that is accepted: the order is pending no more, unless its result is.
pub record Arrived (x y : LatencyAwareExecution) (result : ExecutionResult) : Type 0 where
  pub count : length y.orders ≡ length x.orders
  pub fills : y.fills ≡ x.fills ++ result.fills
  pub pending :
      pending_count y.orders + 1 ≡ pending_count x.orders + one_if (is_pending result.order)

pub process_order_arrival-Arrived :
    (x y : LatencyAwareExecution) (event : ScheduledInternalEvent) (book : OrderBook)
    (result : ExecutionResult)
    → process_order_arrival x event book ≡ ok (result, y)
    → Arrived x y result
unfolding process_order_arrival
process_order_arrival-Arrived x y event book result e =
    let (id, _, e₁) =
      >>=-eq-ok (arrival_order_id event.event.event_type event.event.order_id) _ e in
    let ((i, o), found, e₂) = >>=-eq-ok (find_order id x.orders) _ e₁ in
    let (_, waits, e₃) =
      >>=-eq-ok (throw_if (not (same_status o.status OrderStatus.pending)) not_pending) _ e₂ in
    let (_, _, e₄) =
      >>=-eq-ok
        (throw_if (not (event.timestamp_ns == o.exchange_arrival_timestamp_ns)) arrival_mismatch) _
        e₃ in
    let ((r, z), executed, e₅) = >>=-eq-ok (execute_arrival x o book) _ e₄ in
    let (os, fs) = execute_arrival_same x z o book r executed in
    let pending : is_pending o ≡ true = ground arith in
    let at_place = find_order_at id x.orders i o found in
    let (same_r, same_os, same_fs) : (r ≡ result)
        × (set z.orders i r.order ≡ y.orders)
        × (z.fills ++ r.fills ≡ y.fills) =
      (ground arith, ground arith, ground arith) in
    subst (Arrived x y) same_r (record {
      count = ap length (sym same_os) ∙ length-set z.orders i r.order ∙ ap length (sym os);
      fills = sym same_fs ∙ ap (λ l. l ++ r.fills) (sym fs);
      pending =
          ap (λ l. pending_count l + 1) (sym same_os)
          ∙ ap (λ l. pending_count (set l i r.order) + 1) (sym os)
          ∙ set-pending_of x.orders i o r.order at_place pending;
    })

-- A cancel leaves the fills alone.
pub process_cancel_arrival-Changes :
    (x y : LatencyAwareExecution) (event : ScheduledInternalEvent)
    → process_cancel_arrival x event ≡ ok y
    → Changes x y × (y.fills ≡ x.fills)
unfolding process_cancel_arrival
process_cancel_arrival-Changes x y event e =
    let (id, _, e₁) = >>=-eq-ok (cancel_order_id event.event.event_type event.event.order_id) _ e in
    let ((i, o), _, e₂) = >>=-eq-ok (find_order id x.orders) _ e₁ in
    let (_, _, e₃) =
      >>=-eq-ok (throw_if (not (is_active_resting_status o.status)) not_resting) _ e₂ in
    let (kept, _, e₄) = >>=-eq-ok (deactivate_active_limit_order id x.active_limit_orders) _ e₃ in
    let (canceled, moved, e₅) = >>=-eq-ok (transition_to o OrderStatus.canceled) _ e₄ in
    let (os, fs) : (set x.orders i canceled ≡ y.orders) × (x.fills ≡ y.fills) =
      (ground arith, ground arith) in
    let not_waiting : is_pending canceled ≡ false =
      rw (transition_to_status o canceled OrderStatus.canceled moved) refl in
    (
      record {
        pending =
            subst (λ l. pending_count l ≤ pending_count x.orders) os
              (set-pending_count x.orders i canceled not_waiting);
        count = subst (λ l. length l ≡ length x.orders) os (length-set x.orders i canceled);
        new = [];
        fills = sym fs ∙ sym (++-nil x.fills);
      },
      sym fs,
    )

pub submit_order_intent-Submits :
    (x y : LatencyAwareExecution) (intent : OrderIntent) (l : LatencyNs) (a b : EventLoop)
    (s : OrderSubmissionRecord)
    → submit_order_intent x intent l a ≡ ok (s, y, b)
    → (length y.orders ≡ length x.orders + 1)
      × (pending_count y.orders ≡ pending_count x.orders + 1)
      × (y.fills ≡ x.fills)
unfolding submit_order_intent
submit_order_intent-Submits x y intent l a b s e =
    let ((created, sim), _, e₁) =
      >>=-eq-ok (create_order_from_intent x.execution_simulator intent l) _ e in
    let (order, moved, e₂) = >>=-eq-ok (transition_to created OrderStatus.pending) _ e₁ in
    let ((arrival, scheduled), _, e₃) =
      >>=-eq-ok (schedule_internal a order.exchange_arrival_timestamp_ns _) _ e₂ in
    let (os, fs) : (x.orders ++ order ∷ [] ≡ y.orders) × (x.fills ≡ y.fills) =
      (ground arith, ground arith) in
    let waits : is_pending order ≡ true =
      rw (transition_to_status created order OrderStatus.pending moved) refl in
    (
      ap length (sym os) ∙ length-append x.orders (order ∷ []),
      ap pending_count (sym os)
          ∙ pending_count-append x.orders (order ∷ [])
          ∙ ap (λ b. pending_count x.orders + (one_if b + 0)) waits,
      sym fs,
    )
