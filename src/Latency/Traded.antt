-- ===== src/Latency/Traded.antt =====
-- A trade against all the resting orders: `process_trade` of src/latency_execution.cpp.
use cpp_market_replay_engine.Base.{
  Bool-cases, ++-nil, All, All-append, Any, All-map, pos, ◌+ℤ◌, ◌≤ℤ◌, eqb_ℤ, int_laws, parts,
  Result, ok, ◌>>=◌, >>=-eq-ok, ok_eq, ◌≡◌, refl, sym, ap, ◌∙◌, subst, inl, inr, not, ◌||◌, List,
  [], ◌∷◌, ◌++◌, arith,
}
use cpp_market_replay_engine.Market.{TradeEvent}
use cpp_market_replay_engine.Order.Lifecycle.{IsValid}
use cpp_market_replay_engine.Fill.{Fill}
use cpp_market_replay_engine.Portfolio.Sums.{sum_of}
use cpp_market_replay_engine.Latency.Trade.{
  ActiveLimitOrder, find_order, Matching, match_active, match_all, is_closed, keep_open,
}
use cpp_market_replay_engine.Latency.Accepted.{IsQueued}
use cpp_market_replay_engine.Latency.Passive.{IsPassive, passed, Matches, unfilled}
use cpp_market_replay_engine.Order.{Order}
use cpp_market_replay_engine.Latency.{is_some, finish_trade, process_trade}
use cpp_market_replay_engine.Latency.State.{LatencyAwareExecution}
use cpp_market_replay_engine.Latency.Matched.{match_active-Matches}
use cpp_market_replay_engine.Types.{Quantity, validate_price_ticks, validate_quantity}

-- A fill for one of the resting orders.
abbrev pub IsPassiveFill : TradeEvent → List ActiveLimitOrder → Fill → Type 0
IsPassiveFill trade actives f = Any (λ a. IsPassive trade a f) actives

passed-append : (fs gs : List Fill) → passed (fs ++ gs) ≡ passed fs +ℤ passed gs
unfolding sum_of
passed-append [] gs = omega int_laws
passed-append (f ∷ fs) gs = omega (int_laws, parts (passed-append fs gs))

++-assoc : (fs gs hs : List Fill) → (fs ++ gs) ++ hs ≡ fs ++ (gs ++ hs)
++-assoc [] gs hs = refl
++-assoc (f ∷ fs) gs hs = rw (++-assoc fs gs hs)

-- One matching after another.
Matches-trans :
    (P Q R : Fill → Type 0) (m n o : Matching)
    → ((f : Fill) → P f → R f)
    → ((f : Fill) → Q f → R f)
    → Matches P m n
    → Matches Q n o
    → Matches R m o
Matches-trans P Q R m n o f g x y = record {
  new = x.new ++ y.new;
  fills = y.fills ∙ ap (λ fs. fs ++ y.new) x.fills ∙ ++-assoc m.fills x.new y.new;
  spent = omega (int_laws, x.spent, y.spent, parts (passed-append x.new y.new));
  left = y.left;
  orders = y.orders;
  whose = All-append R x.new y.new (All-map P R x.new f x.whose) (All-map Q R y.new g y.whose);
}

match_all-Matches :
    (trade : TradeEvent) (actives actives' : List ActiveLimitOrder) (m m' : Matching)
    → All IsQueued actives
    → pos 0 ≤ℤ m.remaining_trade_quantity
    → All IsValid m.orders
    → match_all trade actives m ≡ ok (actives', m')
    → Matches (IsPassiveFill trade actives) m m' × All IsQueued actives'
unfolding match_all
match_all-Matches trade [] actives' m m' q some_left orders e =
    let (same, same_m) : ([] ≡ actives') × (m ≡ m') = ground arith in
    (
      subst (Matches (IsPassiveFill trade []) m) same_m (
          unfilled (IsPassiveFill trade []) m m.remaining_trade_quantity some_left (omega arith)
            orders),
      subst (All IsQueued) same tt,
    )
match_all-Matches trade (a ∷ rest) actives' m m' q some_left orders e =
    elim (Bool-cases (eqb_ℤ m.remaining_trade_quantity (pos 0))) [
      | inl over ↦
          let (same, same_m) : ((a ∷ rest) ≡ actives') × (m ≡ m') = ground (arith, over) in
          (
            subst (Matches (IsPassiveFill trade (a ∷ rest)) m) same_m
                (unfilled _ m m.remaining_trade_quantity some_left (omega arith) orders),
            subst (All IsQueued) same q,
          )
      | inr more ↦
          let go : ActiveLimitOrder × Matching → Result (List ActiveLimitOrder × Matching) =
            λ (matched, n).
              match_all trade rest n >>= λ (others, last). ok (matched ∷ others, last) in
          let e₀ : (match_active trade a m >>= go) ≡ ok (actives', m') = ground (arith, more) in
          let ((b, n), first, e₁) = >>=-eq-ok (match_active trade a m) go e₀ in
          let ((others, last), then_rest, e₂) = >>=-eq-ok (match_all trade rest n) _ e₁ in
          let (same, same_m) : ((b ∷ others) ≡ actives') × (last ≡ m') = ground arith in
          let (x, queued) = match_active-Matches trade a b m n q.0 some_left orders first in
          let (y, others_queued) =
            match_all-Matches trade rest others n last q.1 x.left x.orders then_rest in
          (
            subst (Matches (IsPassiveFill trade (a ∷ rest)) m) same_m
                (Matches-trans _ _ _ m n last (λ f p. inl p) (λ f p. inr p) x y),
            subst (All IsQueued) same (queued, others_queued),
          )
    ]

keep_open-All :
    (orders : List Order) (actives kept : List ActiveLimitOrder)
    → All IsQueued actives
    → keep_open orders actives ≡ ok kept
    → All IsQueued kept
unfolding keep_open
keep_open-All orders [] kept q e = let same : [] ≡ kept = cc in subst (All IsQueued) same tt
keep_open-All orders (a ∷ rest) kept q e =
    let ((i, o), found, e₁) = >>=-eq-ok (find_order a.order_id orders) _ e in
    let (others, left, e₂) = >>=-eq-ok (keep_open orders rest) _ e₁ in
    let w = keep_open-All orders rest others q.1 left in
    elim (Bool-cases (is_closed o.status)) [
      | inl closed ↦
          let same : others ≡ kept = ground (arith, closed) in subst (All IsQueued) same w
      | inr stays ↦
          let same : a ∷ others ≡ kept = ground (arith, stays) in subst (All IsQueued) same (q.0, w)
    ]

-- What holds of the execution at any time.
pub record IsSound (x : LatencyAwareExecution) : Type 0 where
  pub orders : All IsValid x.orders
  pub queues : All IsQueued x.active_limit_orders

-- What a trade has done to the execution.
pub record IsTraded (trade : TradeEvent) (x y : LatencyAwareExecution) : Type 0 where
  pub new : List Fill
  pub fills : y.fills ≡ x.fills ++ new
  pub within : passed new ≤ℤ trade.quantity
  pub passive : All (IsPassiveFill trade x.active_limit_orders) new
  pub sound : IsSound y

validate_quantity_ok : (q : Quantity) → validate_quantity q ≡ ok tt → pos 0 ≤ℤ q
unfolding validate_quantity
validate_quantity_ok q e = ground arith

-- Whatever trade the execution accepts in a sound state: the fills it adds together are no more than
-- the quantity of the trade; each is positive, for a resting order, at that order's limit and at the
-- time of the trade, and the trade was at or through that limit; no order is overfilled or leaves
-- the status machine, and no queue falls below zero.
pub process_trade-IsTraded :
    (x y : LatencyAwareExecution) (trade : TradeEvent)
    → IsSound x
    → process_trade x trade ≡ ok y
    → IsTraded trade x y
unfolding process_trade sum_of
process_trade-IsTraded x y trade s e =
    let (_, amount, e₁) = >>=-eq-ok (validate_quantity trade.quantity) _ e in
    let not_negative : pos 0 ≤ℤ trade.quantity = validate_quantity_ok trade.quantity amount in
    let (_, _, e₂) = >>=-eq-ok (validate_price_ticks trade.price_ticks) _ e₁ in
    elim (Bool-cases (eqb_ℤ trade.quantity (pos 0) || not (is_some trade.aggressor_side))) [
      | inl ignored ↦
          let same : x ≡ y = ground (arith, ignored) in
          subst (IsTraded trade x) same (record {
            new = [];
            fills = sym (++-nil x.fills);
            within = not_negative;
            passive = tt;
            sound = s;
          })
      | inr counts ↦
          let start : Matching = record {
            simulator = x.execution_simulator;
            orders = x.orders;
            fills = x.fills;
            remaining_trade_quantity = trade.quantity;
          } in
          let go : List ActiveLimitOrder × Matching → Result LatencyAwareExecution =
            λ (matched, m). keep_open m.orders matched >>= finish_trade x m in
          let e₃ : (match_all trade x.active_limit_orders start >>= go) ≡ ok y =
            ground (arith, counts) in
          let ((matched, m), all, e₄) =
            >>=-eq-ok (match_all trade x.active_limit_orders start) go e₃ in
          let (kept, left, e₅) = >>=-eq-ok (keep_open m.orders matched) (finish_trade x m) e₄ in
          let (t, queued) =
            match_all-Matches trade x.active_limit_orders matched start m s.queues not_negative
              s.orders all in
          subst (IsTraded trade x) (ok_eq _ y e₅) (record {
            new = t.new;
            fills = t.fills;
            within = omega (int_laws, t.spent, t.left);
            passive = t.whose;
            sound = record {
              orders = t.orders;
              queues = keep_open-All m.orders matched kept queued left;
            };
          })
    ]
