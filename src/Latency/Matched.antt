-- ===== src/Latency/Matched.antt =====
-- A trade against all the resting orders of src/latency_execution.cpp.
use cpp_market_replay_engine.Base.{
  if◌then◌else◌, Bool-cases, All, All-map, pos, ◌-ℤ◌, ◌≤ℤ◌, ltb_ℤ, eqb_ℤ, min_ℤ, int_laws, Result,
  ok, ◌>>=◌, >>=-eq-ok, ℕ, ◌≡◌, subst, inl, inr, Bool, true, not, ◌||◌, arith,
}
use cpp_market_replay_engine.Types.{Quantity}
use cpp_market_replay_engine.Market.{TradeEvent}
use cpp_market_replay_engine.Order.{Order}
use cpp_market_replay_engine.Order.Lifecycle.{IsValid}
use cpp_market_replay_engine.Fill.{Fill}
use cpp_market_replay_engine.Latency.Trade.{
  ActiveLimitOrder, is_active_resting_status, exact_price_trade_qualifies, trade_through_qualifies,
  find_order, Matching, fill_passive, queue_before, consume_queue, match_active,
}
use cpp_market_replay_engine.Latency.Accepted.{IsQueued, find_order_ok}
use cpp_market_replay_engine.Latency.Passive.{
  IsPassive, Matches, unfilled, untouched, fill_passive-Matches,
}

abbrev pub qualifies : TradeEvent → ActiveLimitOrder → Bool
qualifies trade a = exact_price_trade_qualifies a trade || trade_through_qualifies a trade

-- Which resting order a fill belongs to does not depend on its queue.
same-IsPassive :
    (trade : TradeEvent) (a : ActiveLimitOrder) (q : Quantity) (f : Fill)
    → IsPassive trade (record a { queue_ahead = q }) f
    → IsPassive trade a f
same-IsPassive trade a q f p = record {
  order = p.order;
  price = p.price;
  time = p.time;
  positive = p.positive;
  qualifies = p.qualifies;
}

-- Matching after some of the trade has gone into the queue.
Matches-less :
    (P Q : Fill → Type 0) (m m' : Matching) (r : Quantity)
    → r ≤ℤ m.remaining_trade_quantity
    → ((f : Fill) → P f → Q f)
    → Matches P (record m { remaining_trade_quantity = r }) m'
    → Matches Q m m'
Matches-less P Q m m' r h f x = record {
  new = x.new;
  fills = x.fills;
  spent = omega (int_laws, x.spent, h);
  left = x.left;
  orders = x.orders;
  whose = All-map P Q x.new f x.whose;
}

consume_queue-Matches :
    (trade : TradeEvent) (a a' : ActiveLimitOrder) (i : ℕ) (o : Order) (m m' : Matching)
    → qualifies trade a ≡ true
    → o.order_id ≡ a.order_id
    → IsValid o
    → IsQueued a
    → pos 0 ≤ℤ m.remaining_trade_quantity
    → All IsValid m.orders
    → consume_queue trade a i o m ≡ ok (a', m')
    → Matches (IsPassive trade a) m m' × IsQueued a'
unfolding consume_queue
consume_queue-Matches trade a a' i o m m' hit own v q some_left orders e =
    consumed (queue_before a trade) (ground (arith, q)) e
  where
    consumed :
        (before : Quantity)
        → pos 0 ≤ℤ before
        → (let queue_consumed = min_ℤ before m.remaining_trade_quantity in
            let queued = record a { queue_ahead = before -ℤ queue_consumed } in
            let left = m.remaining_trade_quantity -ℤ queue_consumed in
            let next = record m { remaining_trade_quantity = left } in
            if eqb_ℤ left (pos 0) || ltb_ℤ (pos 0) queued.queue_ahead
            then ok (queued, next)
            else fill_passive trade queued i o next)
          ≡ ok (a', m')
        → Matches (IsPassive trade a) m m' × IsQueued a'
    consumed before h e' =
        let used = min_ℤ before m.remaining_trade_quantity in
        let b : ActiveLimitOrder = record a { queue_ahead = before -ℤ used } in
        let left = m.remaining_trade_quantity -ℤ used in
        let next : Matching = record m { remaining_trade_quantity = left } in
        let used_bounds : (pos 0 ≤ℤ used)
            × (used ≤ℤ before)
            × (used ≤ℤ m.remaining_trade_quantity) =
          ground arith in
        let still : pos 0 ≤ℤ b.queue_ahead = omega (int_laws, used_bounds) in
        let enough : pos 0 ≤ℤ left = omega (int_laws, used_bounds) in
        let less : left ≤ℤ m.remaining_trade_quantity = omega (int_laws, used_bounds) in
        elim (Bool-cases (eqb_ℤ left (pos 0) || ltb_ℤ (pos 0) b.queue_ahead)) [
          | inl stops ↦
              let (same, same_m) : (b ≡ a') × (next ≡ m') = ground (arith, stops) in
              (
                subst (Matches (IsPassive trade a) m) same_m
                    (unfilled (IsPassive trade a) m left enough less orders),
                subst IsQueued same still,
              )
          | inr goes ↦
              let (x, queued) =
                fill_passive-Matches trade b a' i o next m' hit own v still enough orders
                  (ground (arith, goes)) in
              (
                Matches-less _ _ m m' left less (λ f. same-IsPassive trade a b.queue_ahead f) x,
                queued,
              )
        ]

pub match_active-Matches :
    (trade : TradeEvent) (a a' : ActiveLimitOrder) (m m' : Matching)
    → IsQueued a
    → pos 0 ≤ℤ m.remaining_trade_quantity
    → All IsValid m.orders
    → match_active trade a m ≡ ok (a', m')
    → Matches (IsPassive trade a) m m' × IsQueued a'
unfolding match_active
match_active-Matches trade a a' m m' q some_left orders e = elim (Bool-cases (qualifies trade a)) [
  | inr misses ↦
      let (same, same_m) : (a ≡ a') × (m ≡ m') = ground (arith, misses) in
      untouched trade a a' m m' q some_left orders same same_m
  | inl hit ↦
      let go : ℕ × Order → Result (ActiveLimitOrder × Matching) = λ (index, order).
        if not (is_active_resting_status order.status)
        then ok (a, m)
        else consume_queue trade a index order m in
      let e₀ : (find_order a.order_id m.orders >>= go) ≡ ok (a', m') = ground (arith, hit) in
      let ((i, o), found, e₁) = >>=-eq-ok (find_order a.order_id m.orders) go e₀ in
      let (own, v) = find_order_ok a.order_id m.orders i o found orders in
      elim (Bool-cases (is_active_resting_status o.status)) [
        | inl resting ↦
            consume_queue-Matches trade a a' i o m m' hit own v q some_left orders
              (ground (arith, resting))
        | inr closed ↦
            let (same, same_m) : (a ≡ a') × (m ≡ m') = ground (arith, closed) in
            untouched trade a a' m m' q some_left orders same same_m
      ]
]
