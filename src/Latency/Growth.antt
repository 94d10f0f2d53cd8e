-- ===== src/Latency/Growth.antt =====
-- How the calls of src/latency_execution.cpp change the list of orders and the list of fills: fills
-- are only appended, and no call but a submission leaves more orders pending than it found.
use mathlib.Core.List.{append_assoc}
use cpp_market_replay_engine.Base.{
  if◌then◌else◌, Bool-cases, length, get_elem?, set, ++-nil, pos, ◌-ℤ◌, ltb_ℤ, eqb_ℤ, min_ℤ, Result,
  ok, throw_if, ◌>>=◌, >>=-eq-ok, ok_eq, ℕ, zero, suc, ◌+◌, ◌≤◌, ◌≡◌, refl, sym, ap, ◌∙◌, subst,
  inl, inr, Bool, true, false, not, ◌&&◌, ◌||◌, some, List, [], ◌∷◌, ◌++◌, arith,
}
use cpp_market_replay_engine.Types.{Quantity, OrderStatus, same_status}
use cpp_market_replay_engine.Order.{
  Order, validate_positive_quantity, remaining_quantity, transition_to, record_fill_quantity,
}
use cpp_market_replay_engine.Fill.{Fill}
use cpp_market_replay_engine.Latency.Trade.{
  ActiveLimitOrder, is_active_resting_status, exact_price_trade_qualifies, trade_through_qualifies,
  find_order, Matching, after_passive_fill, fill_order, fill_passive, queue_before, consume_queue,
  match_active, match_all,
}
use cpp_market_replay_engine.Market.{TradeEvent}
use cpp_market_replay_engine.Execution.{create_fill}
use cpp_market_replay_engine.EventLoop.Scheduler.{next}

abbrev pub is_pending : Order → Bool
is_pending o = same_status o.status OrderStatus.pending

abbrev pub one_if : Bool → ℕ
one_if true = 1
one_if false = 0

-- The orders that are on their way to the exchange.
abbrev pub pending_count : List Order → ℕ
pending_count [] = 0
pending_count (o ∷ orders) = one_if (is_pending o) + pending_count orders

pub pending_count-append :
    (xs ys : List Order) → pending_count (xs ++ ys) ≡ pending_count xs + pending_count ys
pending_count-append [] ys = omega arith
pending_count-append (x ∷ xs) ys = omega (arith, pending_count-append xs ys)

pub length-set : (xs : List Order) (i : ℕ) (o : Order) → length (set xs i o) ≡ length xs
length-set [] i o = refl
length-set (x ∷ xs) zero o = refl
length-set (x ∷ xs) (suc i) o = ap suc (length-set xs i o)

-- An order that is not pending takes the place of any.
pub set-pending_count :
    (xs : List Order) (i : ℕ) (o : Order)
    → is_pending o ≡ false
    → pending_count (set xs i o) ≤ pending_count xs
set-pending_count [] i o h = omega arith
set-pending_count (x ∷ xs) zero o h = rw (h) (omega arith)
set-pending_count (x ∷ xs) (suc i) o h = omega (arith, set-pending_count xs i o h)

-- An order takes the place of a pending one.
pub set-pending_of :
    (xs : List Order) (i : ℕ) (p o : Order)
    → get_elem? xs i ≡ some p
    → is_pending p ≡ true
    → pending_count (set xs i o) + 1 ≡ pending_count xs + one_if (is_pending o)
set-pending_of [] i p o e h = absurd cc
set-pending_of (x ∷ xs) zero p o e h = let same : x ≡ p = cc in rw (same, h) (omega arith)
set-pending_of (x ∷ xs) (suc i) p o e h = omega (arith, set-pending_of xs i p o e h)

-- What a call leaves of the orders and the fills.
pub record Grows (os os' : List Order) (fs fs' : List Fill) : Type 0 where
  pub pending : pending_count os' ≤ pending_count os
  pub count : length os' ≡ length os
  pub new : List Fill
  pub fills : fs' ≡ fs ++ new

pub same-Grows : (os : List Order) (fs : List Fill) → Grows os os fs fs
same-Grows os fs = record { pending = omega arith; count = refl; new = []; fills = sym (++-nil fs) }

pub Grows-trans :
    {os os' os'' : List Order} {fs fs' fs'' : List Fill}
    → Grows os os' fs fs'
    → Grows os' os'' fs' fs''
    → Grows os os'' fs fs''
Grows-trans {fs = fs} g h = record {
  pending = omega (arith, g.pending, h.pending);
  count = h.count ∙ g.count;
  new = g.new ++ h.new;
  fills = h.fills ∙ ap (λ l. l ++ h.new) g.fills ∙ append_assoc fs g.new h.new;
}

pub transition_to_status :
    (o o' : Order) (status : OrderStatus) → transition_to o status ≡ ok o' → o'.status ≡ status
unfolding transition_to
transition_to_status o o' status e = ground arith

record_fill_status :
    (o o' : Order) (q : Quantity) → record_fill_quantity o q ≡ ok o' → o'.status ≡ o.status
unfolding record_fill_quantity
record_fill_status o o' q e =
    let (_, _, e₁) = >>=-eq-ok (validate_positive_quantity q) _ e in
    let (_, _, e₂) = >>=-eq-ok (throw_if (ltb_ℤ (remaining_quantity o) q) _) _ e₁ in
    ap (λ (x : Order). x.status) (sym (ok_eq _ o' e₂))

-- A passive fill leaves an order partially filled or filled.
after_passive_fill_status :
    (o o' : Order) (a a' : ActiveLimitOrder)
    → is_active_resting_status o.status ≡ true
    → after_passive_fill o a ≡ ok (o', a')
    → is_pending o' ≡ false
unfolding after_passive_fill transition_to
after_passive_fill_status o o' a a' h e = by_status o.status h e
  where
    by_status :
        (status : OrderStatus)
        → is_active_resting_status status ≡ true
        → after_passive_fill (record o { status = status }) a ≡ ok (o', a')
        → is_pending o' ≡ false
    by_status OrderStatus.acknowledged h e = ground arith
    by_status OrderStatus.partially_filled h e = ground arith
    by_status OrderStatus.new h e = cc
    by_status OrderStatus.pending h e = cc
    by_status OrderStatus.filled h e = cc
    by_status OrderStatus.canceled h e = cc
    by_status OrderStatus.rejected h e = cc

abbrev Passes : Matching → Matching → Type 0
Passes m m' = Grows m.orders m'.orders m.fills m'.fills

fill_order-Passes :
    (trade : TradeEvent) (a a' : ActiveLimitOrder) (i : ℕ) (o : Order) (q : Quantity)
    (m m' : Matching)
    → is_active_resting_status o.status ≡ true
    → fill_order trade a i o q m ≡ ok (a', m')
    → Passes m m'
unfolding fill_order
fill_order-Passes trade a a' i o q m m' h e =
    let ((fill, sim), _, e₁) =
      >>=-eq-ok (create_fill m.simulator o a.limit_price_ticks q trade.key.timestamp_ns) _ e in
    let (filled, recorded, e₂) = >>=-eq-ok (record_fill_quantity o q) _ e₁ in
    let ((closed, left), closes, e₃) = >>=-eq-ok (after_passive_fill filled a) _ e₂ in
    let active : is_active_resting_status filled.status ≡ true =
      rw (record_fill_status o filled q recorded) h in
    let closed_pending = after_passive_fill_status filled closed a left active closes in
    let (os, fs) : (set m.orders i closed ≡ m'.orders) × (m.fills ++ fill ∷ [] ≡ m'.fills) =
      ground arith in
    record {
      pending =
          subst (λ os. pending_count os ≤ pending_count m.orders) os
            (set-pending_count m.orders i closed closed_pending);
      count = subst (λ os. length os ≡ length m.orders) os (length-set m.orders i closed);
      new = fill ∷ [];
      fills = sym fs;
    }

same-Passes : (m m' : Matching) → m.orders ≡ m'.orders → m.fills ≡ m'.fills → Passes m m'
same-Passes m m' os fs =
    subst (λ os. Grows m.orders os m.fills m'.fills) os
      (subst (λ fs. Grows m.orders m.orders m.fills fs) fs (same-Grows m.orders m.fills))

fill_passive-Passes :
    (trade : TradeEvent) (a a' : ActiveLimitOrder) (i : ℕ) (o : Order) (m m' : Matching)
    → is_active_resting_status o.status ≡ true
    → fill_passive trade a i o m ≡ ok (a', m')
    → Passes m m'
unfolding fill_passive
fill_passive-Passes trade a a' i o m m' h e =
    let quantity = min_ℤ (remaining_quantity o) m.remaining_trade_quantity in
    elim (Bool-cases (eqb_ℤ quantity (pos 0))) [
      | inl nothing_left ↦
          let (os, fs) : (m.orders ≡ m'.orders) × (m.fills ≡ m'.fills) =
            ground (arith, nothing_left) in
          same-Passes m m' os fs
      | inr some_left ↦ fill_order-Passes trade a a' i o quantity m m' h (ground (arith, some_left))
    ]

consume_queue-Passes :
    (trade : TradeEvent) (a a' : ActiveLimitOrder) (i : ℕ) (o : Order) (m m' : Matching)
    → is_active_resting_status o.status ≡ true
    → consume_queue trade a i o m ≡ ok (a', m')
    → Passes m m'
unfolding consume_queue
consume_queue-Passes trade a a' i o m m' h e =
    let before = queue_before a trade in
    let used = min_ℤ before m.remaining_trade_quantity in
    let queued : ActiveLimitOrder = record a { queue_ahead = before -ℤ used } in
    let left = m.remaining_trade_quantity -ℤ used in
    let next : Matching = record m { remaining_trade_quantity = left } in
    chosen queued next (eqb_ℤ left (pos 0) || ltb_ℤ (pos 0) queued.queue_ahead) refl refl e
  where
    chosen :
        (queued : ActiveLimitOrder) (next : Matching) (stops : Bool)
        → m.orders ≡ next.orders
        → m.fills ≡ next.fills
        → (if stops then ok (queued, next) else fill_passive trade queued i o next) ≡ ok (a', m')
        → Passes m m'
    chosen queued next true os fs e =
        let same : next ≡ m' = ground arith in subst (Passes m) same (same-Passes m next os fs)
    chosen queued next false os fs e =
        Grows-trans (same-Passes m next os fs) (fill_passive-Passes trade queued a' i o next m' h e)

match_active-Passes :
    (trade : TradeEvent) (a a' : ActiveLimitOrder) (m m' : Matching)
    → match_active trade a m ≡ ok (a', m')
    → Passes m m'
unfolding match_active
match_active-Passes trade a a' m m' e =
    qualified (not (exact_price_trade_qualifies a trade) && not (trade_through_qualifies a trade)) e
  where
    found :
        (i : ℕ) (o : Order) (resting : Bool)
        → is_active_resting_status o.status ≡ resting
        → (if not resting then ok (a, m) else consume_queue trade a i o m) ≡ ok (a', m')
        → Passes m m'
    found i o true h e = consume_queue-Passes trade a a' i o m m' h e
    found i o false h e =
        let same : m ≡ m' = ground arith in subst (Passes m) same (same-Grows m.orders m.fills)

    qualified :
        (skips : Bool)
        → (if skips
            then ok (a, m)
            else (find_order a.order_id m.orders >>= λ (index, order).
                if not (is_active_resting_status order.status)
                then ok (a, m)
                else consume_queue trade a index order m))
          ≡ ok (a', m')
        → Passes m m'
    qualified true e =
        let same : m ≡ m' = ground arith in subst (Passes m) same (same-Grows m.orders m.fills)
    qualified false e =
        let ((i, o), _, e₁) = >>=-eq-ok (find_order a.order_id m.orders) _ e in
        found i o (is_active_resting_status o.status) refl e₁

pub match_all-Passes :
    (trade : TradeEvent) (rests rests' : List ActiveLimitOrder) (m m' : Matching)
    → match_all trade rests m ≡ ok (rests', m')
    → Passes m m'
unfolding match_all
match_all-Passes trade [] rests' m m' e =
    let same : m ≡ m' = ground arith in subst (Passes m) same (same-Grows m.orders m.fills)
match_all-Passes trade (a ∷ rests) rests' m m' e =
    by_rest (λ n l o h. match_all-Passes trade rests o n l h)
      (eqb_ℤ m.remaining_trade_quantity (pos 0)) e
  where
    Rest : Type 0
    Rest =
        (next last : Matching) (others : List ActiveLimitOrder)
        → match_all trade rests next ≡ ok (others, last)
        → Passes next last

    by_rest :
        Rest
        → (stops : Bool)
        → if◌then◌else◌ {A = Result (List ActiveLimitOrder × Matching)} stops (ok (a ∷ rests, m)) (
            match_active trade a m >>= λ (matched, next).
            match_all trade rests next >>= λ (others, last). ok (matched ∷ others, last))
          ≡ ok (rests', m')
        → Passes m m'
    by_rest rest true e =
        let same : m ≡ m' = ground arith in subst (Passes m) same (same-Grows m.orders m.fills)
    by_rest rest false e =
        let ((matched, next), first, e₁) = >>=-eq-ok (match_active trade a m) _ e in
        let ((others, last), more, e₂) = >>=-eq-ok (match_all trade rests next) _ e₁ in
        let same : last ≡ m' = ground arith in
        Grows-trans (match_active-Passes trade a matched m next first)
          (subst (Passes next) same (rest next last others more))
