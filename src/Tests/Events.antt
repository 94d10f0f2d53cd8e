-- ===== src/Tests/Events.antt =====
-- Tests of the event loop and of latency-aware runs.
use cpp_market_replay_engine.Runner.Collects.{Answered, run_strategy-Answered}
use cpp_market_replay_engine.Runner.Answers.{Relation, IsAnswering}
use cpp_market_replay_engine.Base.{
  length, length-append, pos, Result, ok, ◌>>=◌, >>=-eq-ok, ok_eq, ℕ, zero, suc, ◌+◌, ◌≤◌, ◌≡◌,
  refl, subst, true, Option, none, some, List, [], ◌∷◌, ◌++◌, map, arith,
}
use cpp_market_replay_engine.EventLoop.{
  EventTraceEntry, EventLoop, make_event_loop, schedule_internal, should_process_market_next,
  EventLoopHandlers, Running, market_step, internal_step, step, run,
}
use cpp_market_replay_engine.Strategy.{OrderIntent}
use cpp_market_replay_engine.Types.{
  TimestampNs, Side, OrderType, EventKey, validate_price_ticks, validate_quantity,
}
use cpp_market_replay_engine.Runner.Plain.{StrategyTimer, run_strategy}
use cpp_market_replay_engine.Runner.{Strategy, session_handlers, run_latency_aware_strategy}
use cpp_market_replay_engine.Base.Text.{Text}
use cpp_market_replay_engine.Base.Fnv.{fnv1a64}
use cpp_market_replay_engine.EventLoop.Trace.{canonical_trace, trace_hash}
use cpp_market_replay_engine.EventLoop.Traced.{run-canonical_trace}
use cpp_market_replay_engine.OrderBook.PriceMap.{assign}
use cpp_market_replay_engine.Latency.Queue.{make_queue_fraction}
use cpp_market_replay_engine.Market.{MarketEvent}
use cpp_market_replay_engine.EventLoop.Scheduler.{
  advance_to, InternalEventType, push, schedule, next,
}
use cpp_market_replay_engine.EventLoop.Timely.{
  Ascends, market_time, Schedules, Behaves, IsScheduling,
}
use cpp_market_replay_engine.Tests.Data.{update_at, trade_at}
use cpp_market_replay_engine.OrderBook.{empty_book, update_levels, apply}
use cpp_market_replay_engine.Execution.{make_simulator}
use cpp_market_replay_engine.EventLoop.Ends.{Ended, run_from-Ended}
use cpp_market_replay_engine.Latency.State.{
  LatencyExecutionConfig, LatencyAwareExecution, make_execution,
}
use cpp_market_replay_engine.Runner.Budget.{
  schedule_internal-length, IsPaid, IsBudgeted, run_latency_aware_strategy-Ended,
}

-- Two levels, then a trade at the first price.
abbrev history : List MarketEvent
history =
    MarketEvent.book_update (update_at 10 0 Side.buy 100 5)
    ∷ MarketEvent.book_update (update_at 20 0 Side.sell 102 4)
    ∷ MarketEvent.trade (trade_at 30 0 100 3 (some Side.sell))
    ∷ []

ascending : Ascends market_time 0 history
ascending = ground arith

-- Handlers over a number of timers that are left to set, one for each market event.
abbrev set_timer : EventLoop → ℕ → Result (EventLoop × ℕ)
set_timer loop zero = ok (loop, 0)
set_timer loop (suc n) = do
  (_, next) ←
      schedule_internal loop (loop.clock.now + 10)
        (record { event_type = InternalEventType.timer; label = []; order_id = none })
  ok (next, n)

abbrev stay : EventLoop → ℕ → Result (EventLoop × ℕ)
stay loop n = ok (loop, n)

abbrev timers : EventLoopHandlers ℕ
timers = record {
  updates_book = true;
  on_market = λ event book loop n. set_timer loop n;
  on_internal = λ event book loop n. stay loop n;
}

set_timer-Behaves :
    (a b : EventLoop) (n m : ℕ) → set_timer a n ≡ ok (b, m) → Behaves 0 (λ (k : ℕ). k) a b n m
set_timer-Behaves a b zero m e =
    let (same, none_left) : (a ≡ b) × (0 ≡ m) = ground arith in
    subst (λ l. Behaves 0 (λ (k : ℕ). k) a l 0 m) same
      (record { schedules = Schedules.nothing; spends = omega arith })
set_timer-Behaves a b (suc n) m e =
    let ((s, next), sent, e₁) = >>=-eq-ok (schedule_internal a (a.clock.now + 10) _) _ e in
    let (same, left) : (next ≡ b) × (n ≡ m) = ground arith in
    subst (λ l. Behaves 0 (λ (k : ℕ). k) a l (suc n) m) same
      (record {
        schedules = Schedules.one_more _ _ s Schedules.nothing sent;
        spends = omega (arith, schedule_internal-length a next _ _ s sent);
      })

unchanged : (a b : EventLoop) (n m : ℕ) → stay a n ≡ ok (b, m) → Behaves 0 (λ (k : ℕ). k) a b n m
unchanged a b n m e =
    let (same, left) : (a ≡ b) × (n ≡ m) = ground arith in
    subst (λ l. Behaves 0 (λ (k : ℕ). k) a l n m) same
      (record { schedules = Schedules.nothing; spends = omega arith })

timers-IsScheduling : IsScheduling timers 0 (λ n. n)
timers-IsScheduling = record {
  on_market = λ event book a b n m e. set_timer-Behaves a b n m e;
  on_internal = λ event book a b n m e. unchanged a b n m e;
}

abbrev start : Running ℕ
start = record { loop = make_event_loop history; book = empty_book; trace = []; state = 2 }

run_from-Ended_example : Ended timers history (run timers 6 start)
run_from-Ended_example =
    run_from-Ended timers 0 (λ n. n) timers-IsScheduling history 6 (make_event_loop history)
      empty_book 2 ascending Schedules.nothing (omega arith)

abbrev times : Option (Result (Running ℕ)) → List TimestampNs
times (some (ok r)) = map (λ e. e.timestamp_ns) r.trace
times _ = []

-- At 20 and at 30 the historical event comes before the timer.
times_of_run : times (run timers 6 start) ≡ 10 ∷ 20 ∷ 20 ∷ 30 ∷ 30 ∷ []
unfolding run step market_step internal_step should_process_market_next advance_to schedule_internal
    schedule push apply update_levels assign validate_price_ticks validate_quantity
times_of_run = refl

-- A strategy that answers each book update with a limit order, until its number is used up.
abbrev intent_at : EventKey → OrderIntent
intent_at key = record {
  side = Side.buy;
  quantity = pos 2;
  order_type = OrderType.limit;
  limit_price_ticks = some (pos 100);
  decision_timestamp_ns = key.timestamp_ns;
}

abbrev answer : EventKey → ℕ → Result (ℕ × List OrderIntent)
answer key zero = ok (0, [])
answer key (suc n) = ok (n, intent_at key ∷ [])

abbrev buyer : Strategy ℕ
buyer = record {
  on_book = λ e book n. answer e.key n;
  on_trade = λ e book n. ok (n, []);
  on_timer = λ t e book n. ok (n, []);
}

answer-IsPaid : (key : EventKey) (n : ℕ) → IsPaid 0 (λ (k : ℕ). k) n (answer key n)
answer-IsPaid key zero = omega arith
answer-IsPaid key (suc n) = omega arith

buyer-IsBudgeted : IsBudgeted buyer 0 (λ n. n)
buyer-IsBudgeted = record {
  on_book = λ e book n. answer-IsPaid e.key n;
  on_trade = λ e book n. omega arith;
  on_timer = λ t e book n. omega arith;
}

abbrev config : LatencyExecutionConfig
config = record {
  order_latency = record { count = 5 };
  fee_model = record { fee_rate_ppm = pos 2500 };
  queue_fraction_ppm = pos 500000;
  cancel_latency = record { count = 0 };
}

abbrev pub execution : LatencyAwareExecution
execution = record {
  config = config;
  queue_fraction = record { ppm = pos 500000 };
  execution_simulator = make_simulator (record { fee_rate_ppm = pos 2500 });
  orders = [];
  submissions = [];
  executions = [];
  fills = [];
  active_limit_orders = [];
}

configured : make_execution config ≡ ok execution
unfolding make_execution make_queue_fraction
configured = refl

run_latency_aware_strategy-Ended_example :
    Ended (session_handlers buyer) history (run_latency_aware_strategy buyer 5 history 1 config)
run_latency_aware_strategy-Ended_example =
    run_latency_aware_strategy-Ended buyer 0 (λ n. n) buyer-IsBudgeted 5 history 1 config execution
      ascending configured (omega arith)

abbrev one_timer : List StrategyTimer
one_timer = record { timestamp_ns = 20; label = [] } ∷ []

-- What the buyer has left and what it has emitted are one together, and it emits no more than one
-- intent for each call.
abbrev IsSpent : Relation ℕ
IsSpent n intents es = (n + length intents ≡ 1) × (length intents ≤ length es)

answer-IsSpent :
    (key : EventKey) (n m : ℕ) (intents more : List OrderIntent) (es : List EventTraceEntry)
    (entry : EventTraceEntry)
    → IsSpent n intents es
    → answer key n ≡ ok (m, more)
    → IsSpent m (intents ++ more) (es ++ entry ∷ [])
answer-IsSpent key n m intents more es entry (h, g) e =
    let (counts, few) = answered key n m more e in
    (
      omega (arith, h, counts, length-append intents more),
      omega (arith, g, few, length-append intents more, length-append es (entry ∷ [])),
    )
  where
    answered :
        (key : EventKey) (n m : ℕ) (more : List OrderIntent)
        → answer key n ≡ ok (m, more)
        → (m + length more ≡ n) × (length more ≤ 1)
    answered key zero m more e =
        subst (λ (x : ℕ × List OrderIntent). (x.0 + length x.1 ≡ 0) × (length x.1 ≤ 1))
          (ok_eq _ (m, more) e) (omega arith, omega arith)
    answered key (suc n) m more e =
        subst (λ (x : ℕ × List OrderIntent). (x.0 + length x.1 ≡ suc n) × (length x.1 ≤ 1))
          (ok_eq _ (m, more) e) (omega arith, omega arith)

silent-IsSpent :
    (n m : ℕ) (intents more : List OrderIntent) (es : List EventTraceEntry)
    (entry : EventTraceEntry)
    → IsSpent n intents es
    → ◌≡◌ {A = Result (ℕ × List OrderIntent)} (ok (n, [])) (ok (m, more))
    → IsSpent m (intents ++ more) (es ++ entry ∷ [])
silent-IsSpent n m intents more es entry (h, g) e =
    subst (λ (x : ℕ × List OrderIntent). IsSpent x.0 (intents ++ x.1) (es ++ entry ∷ []))
      (ok_eq _ (m, more) e)
      (
        omega (arith, h, length-append intents []),
        omega (arith, g, length-append intents [], length-append es (entry ∷ [])),
      )

buyer-IsAnswering : IsAnswering buyer IsSpent
buyer-IsAnswering = record {
  on_book = λ e book n m intents more es h k. answer-IsSpent e.key n m intents more es _ h k;
  on_trade = λ e book n m intents more es h k. silent-IsSpent n m intents more es _ h k;
  on_timer = λ e book n m intents more es h k. silent-IsSpent n m intents more es _ h k;
}

run_strategy-Answered_example :
    Answered buyer IsSpent history one_timer (run_strategy buyer 5 history one_timer 1)
run_strategy-Answered_example =
    run_strategy-Answered buyer IsSpent buyer-IsAnswering 5 history one_timer 1
      (omega arith, omega arith) ascending (omega arith)

-- What a run that ends with a result leaves.
abbrev or_start : Option (Result (Running ℕ)) → Running ℕ
or_start (some (ok r)) = r
or_start _ = start

abbrev finished : Running ℕ
finished = or_start (run timers 6 start)

run-canonical_trace_example :
    (text : Text) × (canonical_trace finished.trace ≡ ok text)
    × (trace_hash finished.trace ≡ ok (fnv1a64 text))
unfolding run step market_step internal_step should_process_market_next advance_to schedule_internal
    schedule push apply update_levels assign validate_price_ticks validate_quantity
run-canonical_trace_example = run-canonical_trace timers 6 start finished refl refl
