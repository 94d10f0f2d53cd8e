-- ===== src/Runner/Budget.antt =====
-- That the handlers of a latency-aware run only schedule, within the budget of the strategy.
use cpp_market_replay_engine.Base.{
  length, Result, err, ok, >>=-eq-ok, ℕ, suc, ◌+◌, ◌*◌, ◌≤◌, ◌<◌, ◌≡◌, refl, ap, subst, List, [],
  ◌∷◌, arith,
}
use cpp_market_replay_engine.Types.{TimestampNs, OrderStatus, LatencyNs}
use cpp_market_replay_engine.Market.{BookUpdateEvent, TradeEvent, MarketEvent}
use cpp_market_replay_engine.OrderBook.{OrderBook, empty_book}
use cpp_market_replay_engine.Order.{transition_to}
use cpp_market_replay_engine.Strategy.{OrderIntent}
use cpp_market_replay_engine.Execution.{create_order_from_intent}
use cpp_market_replay_engine.EventLoop.{EventLoop, make_event_loop, schedule_internal}
use cpp_market_replay_engine.EventLoop.Scheduler.{
  InternalEventType, InternalEvent, ScheduledInternalEvent, push, schedule,
}
use cpp_market_replay_engine.EventLoop.Timely.{
  Ascends, market_time, Schedules, Behaves, IsScheduling,
}
use cpp_market_replay_engine.Latency.State.{
  LatencyExecutionConfig, OrderSubmissionRecord, LatencyAwareExecution, make_execution,
  submit_order_intent,
}
use cpp_market_replay_engine.Runner.{
  Strategy, emit_all, Session, respond, on_market_event, on_event_type, on_internal_event,
  session_handlers, run_latency_aware_strategy,
}
use cpp_market_replay_engine.EventLoop.Ends.{Ended, run_from-Ended}
use cpp_market_replay_engine.Latency.{process_order_arrival, process_cancel_arrival, process_trade}

push-length :
    (e : ScheduledInternalEvent) (queue : List ScheduledInternalEvent)
    → length (push e queue) ≡ suc (length queue)
unfolding push
push-length e [] = refl
push-length e (x ∷ queue) = ground (arith, push-length e queue)

pub schedule_internal-length :
    (a b : EventLoop) (t : TimestampNs) (event : InternalEvent) (s : ScheduledInternalEvent)
    → schedule_internal a t event ≡ ok (s, b)
    → length b.scheduler.queue ≡ suc (length a.scheduler.queue)
unfolding schedule_internal schedule
schedule_internal-length a b t event s e = ground (
  arith,
  push-length
      (record {
        timestamp_ns = t;
        internal_sequence_id = a.scheduler.next_internal_sequence_id;
        event = event;
      })
      a.scheduler.queue,
)

-- Scheduling, and how many events it added at most.
pub record Adds (n : ℕ) (a b : EventLoop) : Type 0 where
  pub schedules : Schedules a b
  pub added : length b.scheduler.queue ≤ length a.scheduler.queue + n

pub Schedules-trans : {a b c : EventLoop} → Schedules a b → Schedules b c → Schedules a c
Schedules-trans r Schedules.nothing = r
Schedules-trans r (Schedules.one_more t event s q e) =
    Schedules.one_more t event s (Schedules-trans r q) e

pub submit_order_intent-Adds :
    (x : LatencyAwareExecution) (intent : OrderIntent) (l : LatencyNs) (a : EventLoop)
    (s : OrderSubmissionRecord) (y : LatencyAwareExecution) (b : EventLoop)
    → submit_order_intent x intent l a ≡ ok (s, y, b)
    → Adds 1 a b
unfolding submit_order_intent
submit_order_intent-Adds x intent l a s y b e =
    let ((created, sim), _, e₁) =
      >>=-eq-ok (create_order_from_intent x.execution_simulator intent l) _ e in
    let (order, _, e₂) = >>=-eq-ok (transition_to created OrderStatus.pending) _ e₁ in
    let ((arrival, scheduled), sent, e₃) =
      >>=-eq-ok (schedule_internal a order.exchange_arrival_timestamp_ns _) _ e₂ in
    let same : scheduled ≡ b = cc in
    subst (Adds 1 a) same (record {
      schedules = Schedules.one_more _ _ arrival Schedules.nothing sent;
      added = omega (arith, schedule_internal-length a scheduled _ _ arrival sent);
    })

emit_all-Adds :
    (intents : List OrderIntent) (x y : LatencyAwareExecution) (a b : EventLoop)
    → emit_all intents x a ≡ ok (y, b)
    → Adds (length intents) a b
unfolding emit_all
emit_all-Adds [] x y a b e =
    let same : a ≡ b = cc in
    subst (Adds 0 a) same (record { schedules = Schedules.nothing; added = omega arith })
emit_all-Adds (intent ∷ intents) x y a b e =
    let ((s, x', mid), sent, rest) =
      >>=-eq-ok (submit_order_intent x intent x.config.order_latency a) _ e in
    let first = submit_order_intent-Adds x intent x.config.order_latency a s x' mid sent in
    let others = emit_all-Adds intents x' y mid b rest in
    record {
      schedules = Schedules-trans first.schedules others.schedules;
      added = omega (arith, first.added, others.added);
    }

-- Each answer of a strategy pays for its intents from the budget and from what it is given.
abbrev pub IsPaid : {T : Type 0} → ℕ → (T → ℕ) → T → Result (T × List OrderIntent) → Type 0
IsPaid given budget s (ok (t, intents)) = length intents + budget t ≤ budget s + given
IsPaid given budget s (err e) = Unit {0}

-- A strategy that emits at most as many intents as the budget in its state allows, and `allowance`
-- more for each market event.
pub record IsBudgeted {T : Type 0} (strategy : Strategy T) (allowance : ℕ) (budget : T → ℕ)
    : Type 0 where
  pub on_book :
      (e : BookUpdateEvent) (book : OrderBook) (s : T)
      → IsPaid allowance budget s (strategy.on_book e book s)
  pub on_trade :
      (e : TradeEvent) (book : OrderBook) (s : T)
      → IsPaid allowance budget s (strategy.on_trade e book s)
  pub on_timer :
      (t : TimestampNs) (e : InternalEvent) (book : OrderBook) (s : T)
      → IsPaid 0 budget s (strategy.on_timer t e book s)

module _ {T : Type 0} (strategy : Strategy T) (allowance : ℕ) (budget : T → ℕ)
    (paid : IsBudgeted strategy allowance budget) where
  abbrev session_budget : Session T → ℕ
  session_budget s = budget s.strategy_state

  respond-Behaves :
      (given : ℕ) (answer : Result (T × List OrderIntent)) (x : LatencyAwareExecution)
      (a b : EventLoop) (s s' : Session T)
      → IsPaid given budget s.strategy_state answer
      → respond strategy answer x a ≡ ok (b, s')
      → Behaves given session_budget a b s s'
  unfolding respond
  respond-Behaves given (err e) x a b s s' h e' = cc
  respond-Behaves given (ok (t, intents)) x a b s s' h e =
      let ((y, mid), sent, e₁) = >>=-eq-ok (emit_all intents x a) _ e in
      let adds = emit_all-Adds intents x y a mid sent in
      let (same, state) : (mid ≡ b) × (t ≡ s'.strategy_state) = (cc, ground arith) in
      record {
        schedules = subst (Schedules a) same adds.schedules;
        spends = omega (
          arith,
          adds.added,
          h,
          ap (λ (l : EventLoop). length l.scheduler.queue) same,
          ap budget state,
        );
      }

  -- A handler that leaves the loop and the strategy alone.
  quiet :
      (a : EventLoop) (s s' : Session T)
      → s'.strategy_state ≡ s.strategy_state
      → Behaves 0 session_budget a a s s'
  quiet a s s' e = record { schedules = Schedules.nothing; spends = omega (arith, ap budget e) }

  on_market_event-Behaves :
      (event : MarketEvent) (book : OrderBook) (a b : EventLoop) (s s' : Session T)
      → on_market_event strategy event book a s ≡ ok (b, s')
      → Behaves allowance session_budget a b s s'
  unfolding on_market_event
  on_market_event-Behaves (MarketEvent.book_update e) book a b s s' h =
      respond-Behaves allowance (strategy.on_book e book s.strategy_state) s.execution a b s s'
        (paid.on_book e book s.strategy_state) h
  on_market_event-Behaves (MarketEvent.trade e) book a b s s' h =
      let (x, _, h₁) = >>=-eq-ok (process_trade s.execution e) _ h in
      respond-Behaves allowance (strategy.on_trade e book s.strategy_state) x a b s s'
        (paid.on_trade e book s.strategy_state) h₁

  on_event_type-Behaves :
      (type : InternalEventType) (event : ScheduledInternalEvent) (book : OrderBook)
      (a b : EventLoop) (s s' : Session T)
      → on_event_type strategy type event book a s ≡ ok (b, s')
      → Behaves 0 session_budget a b s s'
  on_event_type-Behaves InternalEventType.order_arrival event book a b s s' h =
      let ((_, x), _, h₁) = >>=-eq-ok (process_order_arrival s.execution event book) _ h in
      let (same, state) : (a ≡ b) × (s'.strategy_state ≡ s.strategy_state) = (cc, ground arith) in
      subst (λ l. Behaves 0 session_budget a l s s') same (quiet a s s' state)
  on_event_type-Behaves InternalEventType.cancel_arrival event book a b s s' h =
      let (x, _, h₁) = >>=-eq-ok (process_cancel_arrival s.execution event) _ h in
      let (same, state) : (a ≡ b) × (s'.strategy_state ≡ s.strategy_state) = (cc, ground arith) in
      subst (λ l. Behaves 0 session_budget a l s s') same (quiet a s s' state)
  on_event_type-Behaves InternalEventType.timer event book a b s s' h =
      respond-Behaves 0 (strategy.on_timer event.timestamp_ns event.event book s.strategy_state)
        s.execution a b s s' (paid.on_timer event.timestamp_ns event.event book s.strategy_state) h
  on_event_type-Behaves InternalEventType.user event book a b s s' h =
      let (same, state) : (a ≡ b) × (s'.strategy_state ≡ s.strategy_state) = (cc, ground arith) in
      subst (λ l. Behaves 0 session_budget a l s s') same (quiet a s s' state)

  session_handlers-IsScheduling : IsScheduling (session_handlers strategy) allowance session_budget
  unfolding on_internal_event
  session_handlers-IsScheduling = record {
    on_market = on_market_event-Behaves;
    on_internal =
        λ event book a b s s' h. on_event_type-Behaves event.event.event_type event book a b s s' h;
  }

  -- For a strategy that emits at most as many intents as its budget allows and `allowance` more for
  -- each market event, historical events in the order of their timestamps, and a queue fraction that
  -- the constructor accepts: the latency-aware run ends with fuel above the number of historical
  -- events and what their allowances and the budget come to. It ends with an
  -- exception that a book update or one of the session's handlers returns, or with a trace whose
  -- timestamps do not fall, whose market entries are the historical events, each once and in order,
  -- and with no scheduled event left.
  pub run_latency_aware_strategy-Ended :
      (fuel : ℕ) (events : List MarketEvent) (s : T) (config : LatencyExecutionConfig)
      (x : LatencyAwareExecution)
      → Ascends market_time 0 events
      → make_execution config ≡ ok x
      → length events * suc allowance + budget s < fuel
      → Ended
          (session_handlers strategy)
          events
          (run_latency_aware_strategy strategy fuel events s config)
  unfolding run_latency_aware_strategy
  run_latency_aware_strategy-Ended fuel events s config x sorted made enough =
      rw (run_latency_aware_strategy, made)
        (run_from-Ended (session_handlers strategy) allowance session_budget
          session_handlers-IsScheduling events fuel (make_event_loop events) empty_book
          (record { strategy_state = s; execution = x }) sorted Schedules.nothing (omega arith))
