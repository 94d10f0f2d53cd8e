-- ===== src/Latency/Accepted.antt =====
-- What the calls that a trade makes for one resting order have done when they return.
use cpp_market_replay_engine.Base.{
  ◌==◌, Bool-cases, set, All, pos, ◌≤ℤ◌, ◌<ℤ◌, eqb_ℤ, Result, ok, ◌>>=◌, >>=-eq-ok, ℕ, zero, suc,
  ◌≡◌, subst, inl, inr, List, [], ◌∷◌, arith,
}
use cpp_market_replay_engine.Types.{
  TimestampNs, OrderId, PriceTicks, Quantity, OrderStatus, same_status, validate_price_ticks,
  validate_quantity,
}
use cpp_market_replay_engine.Order.{Order, remaining_quantity, transition_to}
use cpp_market_replay_engine.Order.Lifecycle.{IsValid, transition_to-IsValid}
use cpp_market_replay_engine.Fill.{Fill}
use cpp_market_replay_engine.Execution.{Simulator, create_fill}
use cpp_market_replay_engine.Latency.Trade.{ActiveLimitOrder, find_order, after_passive_fill}

-- The queue ahead of an order is never below zero.
abbrev pub IsQueued : ActiveLimitOrder → Type 0
IsQueued a = pos 0 ≤ℤ a.queue_ahead

pub create_fill_ok :
    (sim : Simulator) (o : Order) (p : PriceTicks) (q : Quantity) (t : TimestampNs) (f : Fill)
    (sim' : Simulator)
    → create_fill sim o p q t ≡ ok (f, sim')
    → (f.order_id ≡ o.order_id)
      × (f.price_ticks ≡ p)
      × (f.quantity ≡ q)
      × (f.fill_timestamp_ns ≡ t)
      × (pos 0 <ℤ q)
unfolding create_fill
create_fill_ok sim o p q t f sim' e =
    let (_, _, e₁) = >>=-eq-ok (validate_price_ticks p) _ e in
    let (_, _, e₂) = >>=-eq-ok (validate_quantity q) _ e₁ in ground arith

pub find_order_ok :
    (id : OrderId) (orders : List Order) (i : ℕ) (o : Order)
    → find_order id orders ≡ ok (i, o)
    → All IsValid orders
    → (o.order_id ≡ id) × IsValid o
unfolding find_order
find_order_ok id [] i o e v = absurd cc
find_order_ok id (x ∷ orders) i o e v = elim (Bool-cases (x.order_id == id)) [
  | inl same ↦
      let first : x ≡ o = ground (arith, same) in
      (subst (λ (y : Order). y.order_id ≡ id) first (ground arith), subst IsValid first v.0)
  | inr other ↦
      let shift : ℕ × Order → Result (ℕ × Order) = λ (index, found). ok (suc index, found) in
      let rest : (find_order id orders >>= shift) ≡ ok (i, o) = ground (arith, other) in
      let ((j, y), found, same) = >>=-eq-ok (find_order id orders) shift rest in
      let last : y ≡ o = ground arith in
      subst (λ (z : Order). (z.order_id ≡ id) × IsValid z) last
        (find_order_ok id orders j y found v.1)
]

pub All-set :
    (orders : List Order) (i : ℕ) (o : Order)
    → All IsValid orders
    → IsValid o
    → All IsValid (set orders i o)
All-set [] i o v h = tt
All-set (x ∷ orders) zero o v h = (h, v.1)
All-set (x ∷ orders) (suc i) o v h = (v.0, All-set orders i o v.1 h)

pub after_passive_fill-IsValid :
    (o o' : Order) (a a' : ActiveLimitOrder)
    → IsValid o
    → IsQueued a
    → after_passive_fill o a ≡ ok (o', a')
    → IsValid o' × IsQueued a'
unfolding after_passive_fill
after_passive_fill-IsValid o o' a a' v q e =
    elim (Bool-cases (eqb_ℤ (remaining_quantity o) (pos 0))) [
      | inl done ↦
          let close : Order → Result (Order × ActiveLimitOrder) =
            λ filled. ok (filled, record a { queue_ahead = pos 0 }) in
          let e₀ : (transition_to o OrderStatus.filled >>= close) ≡ ok (o', a') =
            ground (arith, done) in
          let (closed, moved, e₁) = >>=-eq-ok (transition_to o OrderStatus.filled) close e₀ in
          let (same, left) : (closed ≡ o') × (record a { queue_ahead = pos 0 } ≡ a') =
            ground arith in
          (
            subst IsValid same (transition_to-IsValid o closed OrderStatus.filled v moved),
            subst IsQueued left (omega arith),
          )
      | inr more ↦ elim (Bool-cases (same_status o.status OrderStatus.acknowledged)) [
        | inl resting ↦
            let stay : Order → Result (Order × ActiveLimitOrder) = λ partial. ok (partial, a) in
            let e₀ : (transition_to o OrderStatus.partially_filled >>= stay) ≡ ok (o', a') =
              ground (arith, more, resting) in
            let (partial, moved, e₁) =
              >>=-eq-ok (transition_to o OrderStatus.partially_filled) stay e₀ in
            let (same, left) : (partial ≡ o') × (a ≡ a') = ground arith in
            (
              subst IsValid same
                  (transition_to-IsValid o partial OrderStatus.partially_filled v moved),
              subst IsQueued left q,
            )
        | inr other ↦
            let (same, left) : (o ≡ o') × (a ≡ a') = ground (arith, more, other) in
            (subst IsValid same v, subst IsQueued left q)
      ]
    ]
