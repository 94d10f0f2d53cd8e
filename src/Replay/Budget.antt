-- ===== src/Replay/Budget.antt =====
-- That the handlers of `ReplayEngine::run` (src/replay_engine.cpp) only schedule, within a budget:
-- each intent pays for its order and for a cancel of that order.
use cpp_market_replay_engine.Base.{
  if◌then◌else◌, length, not_resting, Result, err, ok, throw_if, ◌>>=◌, >>=-eq-ok, ℕ, ◌+◌, ◌≡◌,
  refl, ◌∙◌, subst, Bool, true, false, not, ◌&&◌, ◌||◌, Option, none, some, List, [], ◌∷◌, arith,
}
use cpp_market_replay_engine.Types.{
  OrderId, OrderStatus, same_status, EventKey, same_key, LatencyNs,
}
use cpp_market_replay_engine.Latency.Growth.{is_pending, one_if, pending_count}
use cpp_market_replay_engine.Runner.Budget.{
  schedule_internal-length, Adds, Schedules-trans, submit_order_intent-Adds, IsPaid, IsBudgeted,
}
use cpp_market_replay_engine.QueueImbalance.{
  Doubles, QueueImbalanceStrategy, queue_imbalance_strategy,
}
use cpp_market_replay_engine.Replay.Config.{
  ScriptedIntentConfig, ScriptedIntent, make_scripted, emit_for_key, ReplayStrategy, keep_scripted,
  keep_imbalance, on_book_event, on_trade_event, replay_strategy,
}
use cpp_market_replay_engine.Market.{BookUpdateEvent, TradeEvent}
use cpp_market_replay_engine.OrderBook.{OrderBook}
use cpp_market_replay_engine.Strategy.{OrderIntent}
use cpp_market_replay_engine.EventLoop.{EventLoop}
use cpp_market_replay_engine.Latency.State.{
  LatencyAwareExecution, submit_order_intent, deactivate_active_limit_order, request_cancel,
}
use cpp_market_replay_engine.Latency.Changes.{submit_order_intent-Submits}
use cpp_market_replay_engine.QueueImbalance.Signal.{queue_imbalance_strategy-IsBudgeted}
use cpp_market_replay_engine.Replay.Engine.{emit_counted, is_active_resting_order, cancel_after}
use cpp_market_replay_engine.Order.{Order}
use cpp_market_replay_engine.Execution.{checked_add_latency, is_market}
use cpp_market_replay_engine.EventLoop.Scheduler.{ScheduledInternalEvent}
use cpp_market_replay_engine.EventLoop.Timely.{Schedules}
use cpp_market_replay_engine.Latency.Trade.{is_active_resting_status, find_order}

-- The scripted intents that were not emitted yet.
abbrev pub unemitted : List ScriptedIntent → ℕ
unemitted [] = 0
unemitted (i ∷ intents) = one_if (not i.emitted) + unemitted intents

pub unemitted-make_scripted :
    (intents : List ScriptedIntentConfig) → unemitted (make_scripted intents) ≡ length intents
unemitted-make_scripted [] = refl
unemitted-make_scripted (c ∷ intents) = omega (arith, unemitted-make_scripted intents)

-- Every emitted intent is marked, and no mark is taken back.
emit_for_key-spends :
    (key : EventKey) (intents : List ScriptedIntent)
    → let (marked, emitted) = emit_for_key key intents in
      length emitted + unemitted marked ≡ unemitted intents
unfolding emit_for_key
emit_for_key-spends key [] = refl
emit_for_key-spends key (i ∷ intents) =
    by_test (not i.emitted && same_key i.config.trigger_key key) refl
      (emit_for_key-spends key intents)
  where
    by_test :
        (fires : Bool)
        → (not i.emitted && same_key i.config.trigger_key key) ≡ fires
        → (let (marked, emitted) = emit_for_key key intents in
            length emitted + unemitted marked ≡ unemitted intents)
        → (let (marked, emitted) = emit_for_key key (i ∷ intents) in
            length emitted + unemitted marked ≡ unemitted (i ∷ intents))
    by_test true h rest =
        let first : not i.emitted ≡ true = ground arith in rw (h, first) (omega (arith, rest))
    by_test false h rest = rw (h) (omega (arith, rest))

module _ {D : Type 0} (doubles : Doubles D) where
  abbrev pub strategy_budget : ReplayStrategy D → ℕ
  strategy_budget (ReplayStrategy.scripted intents) = unemitted intents
  strategy_budget (ReplayStrategy.queue_imbalance s) = 0

  imbalance_kept :
      (s : QueueImbalanceStrategy D) (r : Result (QueueImbalanceStrategy D × List OrderIntent))
      → IsPaid 1 (λ _. 0) s r
      → IsPaid 1 strategy_budget (ReplayStrategy.queue_imbalance s) (r >>= keep_imbalance doubles)
  imbalance_kept s (ok (t, intents)) h = h
  imbalance_kept s (err e) h = tt

  emit_for_key-IsPaid :
      (key : EventKey) (intents : List ScriptedIntent)
      → IsPaid 1 strategy_budget
          (ReplayStrategy.scripted intents)
          (ok (emit_for_key key intents) >>= keep_scripted doubles)
  emit_for_key-IsPaid key intents = omega (arith, emit_for_key-spends key intents)

  on_book_event-IsPaid :
      (event : BookUpdateEvent) (book : OrderBook) (s : ReplayStrategy D)
      → IsPaid 1 strategy_budget s (on_book_event doubles event book s)
  unfolding on_book_event
  on_book_event-IsPaid event book (ReplayStrategy.scripted s) = emit_for_key-IsPaid event.key s
  on_book_event-IsPaid event book (ReplayStrategy.queue_imbalance s) =
      imbalance_kept s ((queue_imbalance_strategy doubles).on_book event book s)
        ((queue_imbalance_strategy-IsBudgeted doubles).on_book event book s)

  on_trade_event-IsPaid :
      (event : TradeEvent) (book : OrderBook) (s : ReplayStrategy D)
      → IsPaid 1 strategy_budget s (on_trade_event doubles event book s)
  unfolding on_trade_event
  on_trade_event-IsPaid event book (ReplayStrategy.scripted s) = emit_for_key-IsPaid event.key s
  on_trade_event-IsPaid event book (ReplayStrategy.queue_imbalance s) =
      imbalance_kept s ((queue_imbalance_strategy doubles).on_trade event book s)
        ((queue_imbalance_strategy-IsBudgeted doubles).on_trade event book s)

  -- The scripted strategy emits each intent at most once, and the queue imbalance strategy at most
  -- one for a market event.
  pub replay_strategy-IsBudgeted : IsBudgeted (replay_strategy doubles) 1 strategy_budget
  replay_strategy-IsBudgeted = record {
    on_book = on_book_event-IsPaid;
    on_trade = on_trade_event-IsPaid;
    on_timer = λ t event book s. omega arith;
  }

-- What emitting does: one event, one order and one count for each intent, and no fill.
pub record Emits (n : ℕ) (x y : LatencyAwareExecution) (a b : EventLoop) (count count' : ℕ)
    : Type 0 where
  pub adds : Adds n a b
  pub orders : length y.orders ≡ length x.orders + n
  pub pending : pending_count y.orders ≡ pending_count x.orders + n
  pub fills : y.fills ≡ x.fills
  pub counted : count' ≡ count + n

pub emit_counted-Emits :
    (intents : List OrderIntent) (x y : LatencyAwareExecution) (a b : EventLoop) (count count' : ℕ)
    → emit_counted intents x a count ≡ ok (y, b, count')
    → Emits (length intents) x y a b count count'
unfolding emit_counted
emit_counted-Emits [] x y a b count count' e =
    let (same_x, same_a, same_count) : (x ≡ y) × (a ≡ b) × (count ≡ count') = (cc, cc, cc) in
    subst (λ y. Emits 0 x y a b count count') same_x
      (subst (λ b. Emits 0 x x a b count count') same_a
        (record {
          adds = record { schedules = Schedules.nothing; added = omega arith };
          orders = omega arith;
          pending = omega arith;
          fills = refl;
          counted = omega (arith, same_count);
        }))
emit_counted-Emits (intent ∷ intents) x y a b count count' e =
    let ((s, x', mid), sent, rest) =
      >>=-eq-ok (submit_order_intent x intent x.config.order_latency a) _ e in
    let first = submit_order_intent-Adds x intent x.config.order_latency a s x' mid sent in
    let (orders, pending, fills) =
      submit_order_intent-Submits x x' intent x.config.order_latency a mid s sent in
    let others = emit_counted-Emits intents x' y mid b (count + 1) count' rest in
    record {
      adds = record {
        schedules = Schedules-trans first.schedules others.adds.schedules;
        added = omega (arith, first.added, others.adds.added);
      };
      orders = omega (arith, others.orders, orders);
      pending = omega (arith, others.pending, pending);
      fills = others.fills ∙ fills;
      counted = omega (arith, others.counted);
    }

request_cancel-Adds :
    (x : LatencyAwareExecution) (id : OrderId) (l : LatencyNs) (a b : EventLoop)
    (s : ScheduledInternalEvent)
    → request_cancel x id l a ≡ ok (s, b)
    → Adds 1 a b
unfolding request_cancel
request_cancel-Adds x id l a b s e =
    let ((i, o), _, e₁) = >>=-eq-ok (find_order id x.orders) _ e in
    let (_, _, e₂) =
      >>=-eq-ok (throw_if (not (is_active_resting_status o.status)) not_resting) _ e₁ in
    let (_, _, e₃) = >>=-eq-ok (deactivate_active_limit_order id x.active_limit_orders) _ e₂ in
    let (t, _, e₄) = >>=-eq-ok (checked_add_latency a.clock.now l) _ e₃ in
    record {
      schedules = Schedules.one_more _ _ s Schedules.nothing e₄;
      added = omega (arith, schedule_internal-length a b _ _ s e₄);
    }

resting_not_pending :
    (resting : Bool) (status : OrderStatus)
    → (resting
        && (same_status status OrderStatus.acknowledged
            || same_status status OrderStatus.partially_filled))
      ≡ true
    → same_status status OrderStatus.pending ≡ false
resting_not_pending true OrderStatus.acknowledged h = refl
resting_not_pending true OrderStatus.partially_filled h = refl
resting_not_pending true OrderStatus.new h = cc
resting_not_pending true OrderStatus.pending h = cc
resting_not_pending true OrderStatus.filled h = cc
resting_not_pending true OrderStatus.canceled h = cc
resting_not_pending true OrderStatus.rejected h = cc
resting_not_pending false status h = cc

-- A cancel is sent only for an order that is no longer pending.
pub cancel_after-Adds :
    (cancel : Option LatencyNs) (o : Order) (x : LatencyAwareExecution) (a b : EventLoop)
    → cancel_after cancel o x a ≡ ok b
    → Adds (one_if (not (is_pending o))) a b
unfolding cancel_after is_active_resting_order
cancel_after-Adds none o x a b e =
    let same : a ≡ b = cc in
    subst (Adds (one_if (not (is_pending o))) a) same
      (record { schedules = Schedules.nothing; added = omega arith })
cancel_after-Adds (some l) o x a b e = by_test (is_active_resting_order o) refl e
  where
    by_test :
        (active : Bool)
        → is_active_resting_order o ≡ active
        → (if active
            then (request_cancel x o.order_id l a >>= λ (_, scheduled). ok scheduled)
            else ok a)
          ≡ ok b
        → Adds (one_if (not (is_pending o))) a b
    by_test false h e =
        let same : a ≡ b = cc in
        subst (Adds (one_if (not (is_pending o))) a) same
          (record { schedules = Schedules.nothing; added = omega arith })
    by_test true h e =
        let ((s, scheduled), sent, e₁) = >>=-eq-ok (request_cancel x o.order_id l a) _ e in
        let same : scheduled ≡ b = cc in
        subst (Adds (one_if (not (is_pending o))) a) same (
          rw (resting_not_pending (not (is_market o.order_type)) o.status h)
            (request_cancel-Adds x o.order_id l a scheduled s sent))
