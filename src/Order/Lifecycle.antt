-- ===== src/Order/Lifecycle.antt =====
-- The life of an order: its status history is a walk of the status machine, which never comes back
-- to a status, and its fills never exceed its quantity.
use cpp_market_replay_engine.Base.{
  length, pos, ◌+ℤ◌, ◌-ℤ◌, ◌≤ℤ◌, ◌<ℤ◌, int_laws, ok, ℕ, ◌+◌, ◌≤◌, ◌<◌, ◌≡◌, refl, sym, subst, true,
  Option, List, [], ◌∷◌, ◌++◌, arith,
}
use cpp_market_replay_engine.Types.{
  TimestampNs, OrderId, PriceTicks, Quantity, Side, OrderType, OrderStatus,
}
use cpp_market_replay_engine.Order.{
  Order, make_order, remaining_quantity, is_valid_order_transition, transition_to,
  record_fill_quantity,
}

-- The statuses of a list follow one another from `s` to `t` by allowed transitions.
abbrev pub Follows : OrderStatus → List OrderStatus → OrderStatus → Type 0
Follows s [] t = s ≡ t
Follows s (u ∷ us) t = (is_valid_order_transition s u ≡ true) × Follows u us t

abbrev pub IsHistory : List OrderStatus → OrderStatus → Type 0
IsHistory [] t = ⊥
IsHistory (s ∷ us) t = (s ≡ OrderStatus.new) × Follows s us t

pub record IsValid (o : Order) : Type 0 where
  pub positive : pos 0 <ℤ o.original_quantity
  pub not_negative : pos 0 ≤ℤ o.filled_quantity
  pub not_overfilled : o.filled_quantity ≤ℤ o.original_quantity
  pub history : IsHistory o.status_history o.status

Follows-append :
    (s t u : OrderStatus) (us : List OrderStatus)
    → Follows s us t
    → is_valid_order_transition t u ≡ true
    → Follows s (us ++ u ∷ []) u
Follows-append s t u [] h k = (rw h k, refl)
Follows-append s t u (v ∷ us) h k = (h.0, Follows-append v t u us h.1 k)

IsHistory-append :
    (t u : OrderStatus) (us : List OrderStatus)
    → IsHistory us t
    → is_valid_order_transition t u ≡ true
    → IsHistory (us ++ u ∷ []) u
IsHistory-append t u [] h k = absurd h
IsHistory-append t u (s ∷ us) h k = (h.0, Follows-append s t u us h.1 k)

-- What a transition that is accepted changes, and what it leaves.
pub transition_to_ok :
    (o next : Order) (s : OrderStatus)
    → transition_to o s ≡ ok next
    → (is_valid_order_transition o.status s ≡ true)
      × (next ≡ record o { status = s; status_history = o.status_history ++ s ∷ [] })
unfolding transition_to
transition_to_ok o next s e = ground arith

pub transition_to-IsValid :
    (o next : Order) (s : OrderStatus) → IsValid o → transition_to o s ≡ ok next → IsValid next
transition_to-IsValid o next s v e =
    let (allowed, same) = transition_to_ok o next s e in
    subst IsValid (sym same) (record {
      positive = v.positive;
      not_negative = v.not_negative;
      not_overfilled = v.not_overfilled;
      history = IsHistory-append o.status s o.status_history v.history allowed;
    })

pub record_fill_quantity_ok :
    (o next : Order) (q : Quantity)
    → record_fill_quantity o q ≡ ok next
    → (pos 0 <ℤ q)
      × (q ≤ℤ remaining_quantity o)
      × (next ≡ record o { filled_quantity = o.filled_quantity +ℤ q })
unfolding record_fill_quantity
record_fill_quantity_ok o next q e = ground arith

pub record_fill_quantity_accepts :
    (o : Order) (q : Quantity)
    → pos 0 <ℤ q
    → q ≤ℤ remaining_quantity o
    → record_fill_quantity o q ≡ ok (record o { filled_quantity = o.filled_quantity +ℤ q })
unfolding record_fill_quantity
record_fill_quantity_accepts o q h k = ground arith

-- What remains after a fill.
pub remaining_quantity-fill :
    (o : Order) (q : Quantity)
    → remaining_quantity (record o { filled_quantity = o.filled_quantity +ℤ q })
      ≡ remaining_quantity o -ℤ q
unfolding remaining_quantity
remaining_quantity-fill o q = omega int_laws

pub record_fill_quantity-IsValid :
    (o next : Order) (q : Quantity) → IsValid o → record_fill_quantity o q ≡ ok next → IsValid next
unfolding remaining_quantity
record_fill_quantity-IsValid o next q v e =
    let (above, within, same) = record_fill_quantity_ok o next q e in
    subst IsValid (sym same) (record {
      positive = v.positive;
      not_negative = omega (int_laws, v.not_negative, above);
      not_overfilled = omega (int_laws, v.not_overfilled, within);
      history = v.history;
    })

-- An order is made valid.
pub make_order-IsValid :
    (id : OrderId) (side : Side) (kind : OrderType) (q : Quantity) (sent arrives : TimestampNs)
    (limit : Option PriceTicks) (o : Order)
    → make_order id side kind q sent arrives limit ≡ ok o
    → IsValid o
unfolding make_order
make_order-IsValid id side kind q sent arrives limit o e = ground arith

-- How far a status is along the machine.
abbrev pub rank : OrderStatus → ℕ
rank OrderStatus.new = 0
rank OrderStatus.pending = 1
rank OrderStatus.acknowledged = 2
rank OrderStatus.partially_filled = 3
rank OrderStatus.filled = 4
rank OrderStatus.canceled = 4
rank OrderStatus.rejected = 4

transition-rank : (s t : OrderStatus) → is_valid_order_transition s t ≡ true → rank s < rank t
transition-rank s t h = ground arith

-- Ranks rise along a list.
abbrev pub Rises : List OrderStatus → Type 0
Rises [] = Unit {0}
Rises (s ∷ []) = Unit {0}
Rises (s ∷ t ∷ us) = (rank s < rank t) × Rises (t ∷ us)

Follows-Rises : (s t : OrderStatus) (us : List OrderStatus) → Follows s us t → Rises (s ∷ us)
Follows-Rises s t [] h = tt
Follows-Rises s t (u ∷ us) h = (transition-rank s u h.0, Follows-Rises u t us h.1)

Follows-length :
    (s t : OrderStatus) (us : List OrderStatus) → Follows s us t → length us + rank s ≤ rank t
Follows-length s t [] h = rw h (omega arith)
Follows-length s t (u ∷ us) h = omega (arith, transition-rank s u h.0, Follows-length u t us h.1)

rank-le : (s : OrderStatus) → rank s ≤ 4
rank-le s = ground arith

-- Any two steps of an order: a change of status, or a fill.
pub data Step : Order → Order → Type 0 where
  transition : (o next : Order) (s : OrderStatus) → transition_to o s ≡ ok next → Step o next
  fill : (o next : Order) (q : Quantity) → record_fill_quantity o q ≡ ok next → Step o next

pub data Reach (o : Order) : Order → Type 0 where
  here : Reach o o
  then_step : {a b : Order} → Reach o a → Step a b → Reach o b

Reach-IsValid : {o p : Order} → IsValid o → Reach o p → IsValid p
Reach-IsValid v Reach.here = v
Reach-IsValid v (Reach.then_step r (Step.transition a b s e)) =
    transition_to-IsValid a b s (Reach-IsValid v r) e
Reach-IsValid v (Reach.then_step r (Step.fill a b q e)) =
    record_fill_quantity-IsValid a b q (Reach-IsValid v r) e

history_bounds :
    (us : List OrderStatus) (t : OrderStatus) → IsHistory us t → Rises us × (length us ≤ 5)
history_bounds [] t h = absurd h
history_bounds (s ∷ us) t h =
    (Follows-Rises s t us h.1, omega (arith, Follows-length s t us h.1, rank-le t))

-- Whatever status changes and fills are accepted for an order once it is made: its filled quantity
-- stays between zero and its original quantity, its status history is a walk of the status machine
-- from new to its status, and that walk never comes back to a status and has at most five.
pub Reach-life :
    (id : OrderId) (side : Side) (kind : OrderType) (q : Quantity) (sent arrives : TimestampNs)
    (limit : Option PriceTicks) (o p : Order)
    → make_order id side kind q sent arrives limit ≡ ok o
    → Reach o p
    → IsValid p × Rises p.status_history × (length p.status_history ≤ 5)
Reach-life id side kind q sent arrives limit o p made r =
    let v = Reach-IsValid (make_order-IsValid id side kind q sent arrives limit o made) r in
    let (rises, short) = history_bounds p.status_history p.status v.history in (v, rises, short)
