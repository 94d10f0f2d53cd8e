-- ===== src/Latency/Passive.antt =====
-- What a trade does to the resting orders, one at a time: no more is filled than was traded.
use cpp_market_replay_engine.Base.{
  Bool-cases, set, ++-nil, All, pos, ◌+ℤ◌, ◌-ℤ◌, ◌≤ℤ◌, ◌<ℤ◌, eqb_ℤ, min_ℤ, int_laws, parts, ok,
  >>=-eq-ok, ℕ, ◌≡◌, refl, sym, ◌∙◌, subst, inl, inr, true, ◌||◌, List, [], ◌∷◌, ◌++◌, arith,
}
use cpp_market_replay_engine.Types.{Quantity}
use cpp_market_replay_engine.Market.{TradeEvent}
use cpp_market_replay_engine.Order.{Order, remaining_quantity, record_fill_quantity}
use cpp_market_replay_engine.Order.Lifecycle.{IsValid, record_fill_quantity-IsValid}
use cpp_market_replay_engine.Fill.{Fill}
use cpp_market_replay_engine.Portfolio.Sums.{sum_of}
use cpp_market_replay_engine.Execution.{create_fill}
use cpp_market_replay_engine.Latency.Accepted.{
  IsQueued, create_fill_ok, All-set, after_passive_fill-IsValid,
}
use cpp_market_replay_engine.Latency.Trade.{
  ActiveLimitOrder, exact_price_trade_qualifies, trade_through_qualifies, Matching,
  after_passive_fill, fill_order, fill_passive,
}

-- A fill that a trade gives to a resting order: at the order's limit, at the time of the trade, and
-- by a trade at the limit or through it.
pub record IsPassive (trade : TradeEvent) (active : ActiveLimitOrder) (f : Fill) : Type 0 where
  pub order : f.order_id ≡ active.order_id
  pub price : f.price_ticks ≡ active.limit_price_ticks
  pub time : f.fill_timestamp_ns ≡ trade.key.timestamp_ns
  pub positive : pos 0 <ℤ f.quantity
  pub qualifies :
      exact_price_trade_qualifies active trade || trade_through_qualifies active trade ≡ true

abbrev pub passed : List Fill → Quantity
passed fs = sum_of (λ f. f.quantity) fs

-- What matching may do.
pub record Matches (P : Fill → Type 0) (m m' : Matching) : Type 0 where
  pub new : List Fill
  pub fills : m'.fills ≡ m.fills ++ new
  pub spent : passed new +ℤ m'.remaining_trade_quantity ≤ℤ m.remaining_trade_quantity
  pub left : pos 0 ≤ℤ m'.remaining_trade_quantity
  pub orders : All IsValid m'.orders
  pub whose : All P new

-- Nothing filled, and maybe some of the trade used up by the queue.
pub unfilled :
    (P : Fill → Type 0) (m : Matching) (r : Quantity)
    → pos 0 ≤ℤ r
    → r ≤ℤ m.remaining_trade_quantity
    → All IsValid m.orders
    → Matches P m (record m { remaining_trade_quantity = r })
unfolding sum_of
unfilled P m r h k orders = record {
  new = [];
  fills = sym (++-nil m.fills);
  spent = omega (int_laws, k);
  left = h;
  orders = orders;
  whose = tt;
}

-- The same where the order and the trade stay as they are.
pub untouched :
    (trade : TradeEvent) (a a' : ActiveLimitOrder) (m m' : Matching)
    → IsQueued a
    → pos 0 ≤ℤ m.remaining_trade_quantity
    → All IsValid m.orders
    → a ≡ a'
    → m ≡ m'
    → Matches (IsPassive trade a) m m' × IsQueued a'
untouched trade a a' m m' q some_left orders same same_m = (
  subst (Matches (IsPassive trade a) m) same_m
      (unfilled (IsPassive trade a) m m.remaining_trade_quantity some_left (omega arith) orders),
  subst IsQueued same q,
)

fill_order-Matches :
    (trade : TradeEvent) (a a' : ActiveLimitOrder) (i : ℕ) (o : Order) (quantity : Quantity)
    (m m' : Matching)
    → exact_price_trade_qualifies a trade || trade_through_qualifies a trade ≡ true
    → o.order_id ≡ a.order_id
    → IsValid o
    → IsQueued a
    → quantity ≤ℤ m.remaining_trade_quantity
    → All IsValid m.orders
    → fill_order trade a i o quantity m ≡ ok (a', m')
    → Matches (IsPassive trade a) m m' × IsQueued a'
unfolding fill_order sum_of
fill_order-Matches trade a a' i o quantity m m' hit own v q within orders e =
    let ((fill, sim), made, e₁) =
      >>=-eq-ok (create_fill m.simulator o a.limit_price_ticks quantity trade.key.timestamp_ns) _
        e in
    let (filled, recorded, e₂) = >>=-eq-ok (record_fill_quantity o quantity) _ e₁ in
    let ((closed, left), moved, e₃) = >>=-eq-ok (after_passive_fill filled a) _ e₂ in
    let (id, price, amount, time, positive) =
      create_fill_ok m.simulator o a.limit_price_ticks quantity trade.key.timestamp_ns fill sim
        made in
    let (valid, queue) =
      after_passive_fill-IsValid filled closed a left
        (record_fill_quantity-IsValid o filled quantity v recorded) q moved in
    let next : Matching = record {
      simulator = sim;
      orders = set m.orders i closed;
      fills = m.fills ++ fill ∷ [];
      remaining_trade_quantity = m.remaining_trade_quantity -ℤ quantity;
    } in
    let (same_a, same_m) : (left ≡ a') × (next ≡ m') = ground arith in
    (
      subst (Matches (IsPassive trade a) m) same_m (record {
        new = fill ∷ [];
        fills = refl;
        spent = omega (int_laws, parts amount);
        left = omega (int_laws, within);
        orders = All-set m.orders i closed orders valid;
        whose = (
          record {
            order = id ∙ own;
            price = price;
            time = time;
            positive = rw (amount) (positive);
            qualifies = hit;
          },
          tt,
        );
      }),
      subst IsQueued same_a queue,
    )

pub fill_passive-Matches :
    (trade : TradeEvent) (a a' : ActiveLimitOrder) (i : ℕ) (o : Order) (m m' : Matching)
    → exact_price_trade_qualifies a trade || trade_through_qualifies a trade ≡ true
    → o.order_id ≡ a.order_id
    → IsValid o
    → IsQueued a
    → pos 0 ≤ℤ m.remaining_trade_quantity
    → All IsValid m.orders
    → fill_passive trade a i o m ≡ ok (a', m')
    → Matches (IsPassive trade a) m m' × IsQueued a'
unfolding fill_passive sum_of
fill_passive-Matches trade a a' i o m m' hit own v q some_left orders e =
    let quantity = min_ℤ (remaining_quantity o) m.remaining_trade_quantity in
    elim (Bool-cases (eqb_ℤ quantity (pos 0))) [
      | inl nothing ↦
          let (same, same_m) : (a ≡ a') × (m ≡ m') = ground (arith, nothing) in
          untouched trade a a' m m' q some_left orders same same_m
      | inr more ↦ filled (ground (arith, more))
    ]
  where
    filled :
        fill_order trade a i o (min_ℤ (remaining_quantity o) m.remaining_trade_quantity) m
          ≡ ok (a', m')
        → Matches (IsPassive trade a) m m' × IsQueued a'
    filled = fill_order-Matches trade a a' i o _ m m' hit own v q (ground arith) orders
