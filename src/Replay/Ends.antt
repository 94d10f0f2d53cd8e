-- ===== src/Replay/Ends.antt =====
-- That `ReplayEngine::run` of src/replay_engine.cpp ends: its handlers stay within the budget.
use cpp_market_replay_engine.Base.{
  length, Result, err, ok, >>=-eq-ok, ℕ, ◌+◌, ◌*◌, ◌≡◌, refl, ap, subst, Bool, true, false, not,
  Option, List, arith,
}
use cpp_market_replay_engine.Types.{LatencyNs}
use cpp_market_replay_engine.Market.{MarketEvent}
use cpp_market_replay_engine.OrderBook.{OrderBook}
use cpp_market_replay_engine.Strategy.{OrderIntent}
use cpp_market_replay_engine.EventLoop.{EventLoop}
use cpp_market_replay_engine.EventLoop.Scheduler.{InternalEventType, ScheduledInternalEvent, next}
use cpp_market_replay_engine.EventLoop.Timely.{Schedules, Behaves, IsScheduling}
use cpp_market_replay_engine.Latency.{process_order_arrival, process_cancel_arrival, process_trade}
use cpp_market_replay_engine.Latency.State.{LatencyAwareExecution}
use cpp_market_replay_engine.Latency.Growth.{is_pending, one_if, pending_count}
use cpp_market_replay_engine.Latency.Changes.{
  process_trade-Changes, process_order_arrival-Arrived, process_cancel_arrival-Changes,
}
use cpp_market_replay_engine.Runner.Budget.{IsPaid}
use cpp_market_replay_engine.QueueImbalance.{Doubles}
use cpp_market_replay_engine.Replay.Config.{ReplayStrategy}
use cpp_market_replay_engine.Replay.Engine.{
  Replaying, emit_counted, apply_new_fills, cancel_after, answer, settle_fills, replay_market,
  replay_arrival, replay_internal_type, replay_internal, replay_handlers,
}
use cpp_market_replay_engine.Replay.Budget.{
  strategy_budget, replay_strategy-IsBudgeted, emit_counted-Emits, cancel_after-Adds,
}

module _ {D : Type 0} (doubles : Doubles D) (cancel : Option LatencyNs) where
  -- Two events for an intent that is still to come, one for an order on its way.
  abbrev pub replay_budget : Replaying D → ℕ
  replay_budget s = strategy_budget doubles s.strategy * 2 + pending_count s.execution.orders

  answer-Behaves :
      (given : ℕ) (response : Result (ReplayStrategy D × List OrderIntent)) (a b : EventLoop)
      (s s' : Replaying D)
      → IsPaid given (strategy_budget doubles) s.strategy response
      → answer doubles cancel response a s ≡ ok (b, s')
      → Behaves (given * 2) replay_budget a b s s'
  unfolding answer
  answer-Behaves given (err e) a b s s' h e' = cc
  answer-Behaves given (ok (t, intents)) a b s s' h e =
      let ((y, mid, count), sent, e₁) =
        >>=-eq-ok (emit_counted intents s.execution a s.strategy_intents) _ e in
      let done = emit_counted-Emits intents s.execution y a mid s.strategy_intents count sent in
      let (same, strategy, execution) : (mid ≡ b) × (t ≡ s'.strategy) × (y ≡ s'.execution) =
        (cc, ground arith, ground arith) in
      record {
        schedules = subst (Schedules a) same done.adds.schedules;
        spends = omega (
          arith,
          done.adds.added,
          done.pending,
          h,
          ap (λ (l : EventLoop). length l.scheduler.queue) same,
          ap (strategy_budget doubles) strategy,
          ap (λ (x : LatencyAwareExecution). pending_count x.orders) execution,
        );
      }

  settle_fills_keeps :
      (x : LatencyAwareExecution) (s s' : Replaying D)
      → settle_fills doubles cancel x s ≡ ok s'
      → (s'.strategy ≡ s.strategy) × (s'.execution ≡ x)
  unfolding settle_fills
  settle_fills_keeps x s s' e =
      let ((count, p), _, e₁) =
        >>=-eq-ok (apply_new_fills x s.applied_fill_count s.portfolio) _ e in
      (ground arith, ground arith)

  replay_market-Behaves :
      (event : MarketEvent) (book : OrderBook) (a b : EventLoop) (s s' : Replaying D)
      → replay_market doubles cancel event book a s ≡ ok (b, s')
      → Behaves 2 replay_budget a b s s'
  unfolding replay_market
  replay_market-Behaves (MarketEvent.book_update e) book a b s s' h =
      answer-Behaves 1 _ a b s s' ((replay_strategy-IsBudgeted doubles).on_book e book s.strategy) h
  replay_market-Behaves (MarketEvent.trade e) book a b s s' h =
      let (x, traded, h₁) = >>=-eq-ok (process_trade s.execution e) _ h in
      let (settled, settles, h₂) = >>=-eq-ok (settle_fills doubles cancel x s) _ h₁ in
      let (strategy, execution) = settle_fills_keeps x s settled settles in
      let answered =
        answer-Behaves 1 _ a b settled s'
          ((replay_strategy-IsBudgeted doubles).on_trade e book settled.strategy) h₂ in
      record {
        schedules = answered.schedules;
        spends = omega (
          arith,
          answered.spends,
          ap (strategy_budget doubles) strategy,
          ap (λ (x : LatencyAwareExecution). pending_count x.orders) execution,
          (process_trade-Changes s.execution x e traded).pending,
        );
      }

  replay_arrival-Behaves :
      (event : ScheduledInternalEvent) (book : OrderBook) (a b : EventLoop) (s s' : Replaying D)
      → replay_arrival doubles cancel event book a s ≡ ok (b, s')
      → Behaves 0 replay_budget a b s s'
  unfolding replay_arrival
  replay_arrival-Behaves event book a b s s' h =
      let ((result, x), arrived, h₁) =
        >>=-eq-ok (process_order_arrival s.execution event book) _ h in
      let (settled, settles, h₂) = >>=-eq-ok (settle_fills doubles cancel x s) _ h₁ in
      let (strategy, execution) = settle_fills_keeps x s settled settles in
      let (next, cancels, h₃) = >>=-eq-ok (cancel_after cancel result.order x a) _ h₂ in
      let adds = cancel_after-Adds cancel result.order x a next cancels in
      let (same, state) : (next ≡ b) × (settled ≡ s') = (cc, cc) in
      record {
        schedules = subst (Schedules a) same adds.schedules;
        spends = omega (
          arith,
          adds.added,
          ap (λ (l : EventLoop). length l.scheduler.queue) same,
          ap replay_budget state,
          ap (strategy_budget doubles) strategy,
          ap (λ (x : LatencyAwareExecution). pending_count x.orders) execution,
          (process_order_arrival-Arrived s.execution x event book result arrived).pending,
          one_of (is_pending result.order),
        );
      }
    where
      one_of : (b : Bool) → one_if b + one_if (not b) ≡ 1
      one_of true = refl
      one_of false = refl

  replay_internal_type-Behaves :
      (type : InternalEventType) (event : ScheduledInternalEvent) (book : OrderBook)
      (a b : EventLoop) (s s' : Replaying D)
      → replay_internal_type doubles cancel type event book a s ≡ ok (b, s')
      → Behaves 0 replay_budget a b s s'
  replay_internal_type-Behaves InternalEventType.order_arrival event book a b s s' h =
      replay_arrival-Behaves event book a b s s' h
  replay_internal_type-Behaves InternalEventType.cancel_arrival event book a b s s' h =
      let (x, canceled, h₁) = >>=-eq-ok (process_cancel_arrival s.execution event) _ h in
      let (same, strategy, execution) : (a ≡ b) × (s.strategy ≡ s'.strategy) × (x ≡ s'.execution) =
        (cc, ground arith, ground arith) in
      record {
        schedules = subst (Schedules a) same Schedules.nothing;
        spends = omega (
          arith,
          ap (λ (l : EventLoop). length l.scheduler.queue) same,
          ap (strategy_budget doubles) strategy,
          ap (λ (x : LatencyAwareExecution). pending_count x.orders) execution,
          (process_cancel_arrival-Changes s.execution x event canceled).0.pending,
        );
      }
  replay_internal_type-Behaves InternalEventType.timer event book a b s s' h =
      answer-Behaves 0 _ a b s s'
        ((replay_strategy-IsBudgeted doubles).on_timer event.timestamp_ns event.event book
          s.strategy)
        h
  replay_internal_type-Behaves InternalEventType.user event book a b s s' h =
      let (same, state) : (a ≡ b) × (s ≡ s') = (cc, cc) in
      record {
        schedules = subst (Schedules a) same Schedules.nothing;
        spends =
            omega (
              arith,
              ap (λ (l : EventLoop). length l.scheduler.queue) same,
              ap replay_budget state,
            );
      }

  pub replay_handlers-IsScheduling : IsScheduling (replay_handlers doubles cancel) 2 replay_budget
  unfolding replay_internal
  replay_handlers-IsScheduling = record {
    on_market = replay_market-Behaves;
    on_internal = λ event book a b s s' h.
        replay_internal_type-Behaves event.event.event_type event book a b s s' h;
  }
