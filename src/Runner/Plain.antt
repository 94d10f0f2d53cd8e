-- ===== src/Runner/Plain.antt =====
-- `run_strategy` and `VectorIntentSink` of src/strategy.cpp: a strategy over the market events and
-- some timers, its intents only collected.
use cpp_market_replay_engine.Base.{
  length, set, Result, err, ok, ◌>>=◌, Result-cases, ℕ, ◌+◌, ◌<◌, ◌≡◌, refl, subst, inl, inr, true,
  Option, none, some, List, [], ◌∷◌, ◌++◌, arith,
}
use cpp_market_replay_engine.Base.Text.{Text}
use cpp_market_replay_engine.Types.{TimestampNs}
use cpp_market_replay_engine.Market.{MarketEvent}
use cpp_market_replay_engine.OrderBook.{OrderBook, empty_book}
use cpp_market_replay_engine.Strategy.{OrderIntent}
use cpp_market_replay_engine.EventLoop.{
  EventLoop, make_event_loop, schedule_internal, EventLoopHandlers, Running, run,
}
use cpp_market_replay_engine.EventLoop.Scheduler.{
  InternalEventType, InternalEvent, ScheduledInternalEvent, schedule, next,
}
use cpp_market_replay_engine.EventLoop.Timely.{
  Ascends, market_time, Schedules, Behaves, IsScheduling,
}
use cpp_market_replay_engine.Runner.{Strategy}
use cpp_market_replay_engine.Runner.Budget.{schedule_internal-length, Adds, Schedules-trans}
use cpp_market_replay_engine.EventLoop.Ends.{Ended, run_from-Ended}

pub record StrategyTimer : Type 0 where
  pub timestamp_ns : TimestampNs
  pub label : Text

-- The strategy's state and the sink.
pub record Collected (T : Type 0) : Type 0 where
  pub strategy_state : T
  pub intents : List OrderIntent

unfoldable pub schedule_timers : List StrategyTimer → EventLoop → Result EventLoop
schedule_timers [] loop = ok loop
schedule_timers (timer ∷ timers) loop = do
  (_, next) ←
      schedule_internal loop timer.timestamp_ns
        (record { event_type = InternalEventType.timer; label = timer.label; order_id = none })
  schedule_timers timers next

module _ {T : Type 0} (strategy : Strategy T) where
  -- A handler's call of the strategy, whose intents go to the sink.
  unfoldable pub collect :
      Result (T × List OrderIntent)
      → EventLoop
      → List OrderIntent
      → Result (EventLoop × Collected T)
  collect answer loop intents = do
    (state, more) ← answer
    ok (loop, record { strategy_state = state; intents = intents ++ more })

  abbrev pub collect_market :
      MarketEvent → OrderBook → EventLoop → Collected T → Result (EventLoop × Collected T)
  collect_market (MarketEvent.book_update e) book loop s =
      collect (strategy.on_book e book s.strategy_state) loop s.intents
  collect_market (MarketEvent.trade e) book loop s =
      collect (strategy.on_trade e book s.strategy_state) loop s.intents

  abbrev pub collect_timer :
      InternalEventType
      → ScheduledInternalEvent
      → OrderBook
      → EventLoop
      → Collected T
      → Result (EventLoop × Collected T)
  collect_timer InternalEventType.timer event book loop s =
      collect (strategy.on_timer event.timestamp_ns event.event book s.strategy_state) loop
        s.intents
  collect_timer _ event book loop s = ok (loop, s)

  abbrev pub collecting_handlers : EventLoopHandlers (Collected T)
  collecting_handlers = record {
    updates_book = true;
    on_market = collect_market;
    on_internal = λ event book loop s. collect_timer event.event.event_type event book loop s;
  }

  unfoldable pub run_strategy :
      ℕ → List MarketEvent → List StrategyTimer → T → Option (Result (Running (Collected T)))
  run_strategy fuel historical_events timers state =
      elim (schedule_timers timers (make_event_loop historical_events)) [
        | err e ↦ some (err e)
        | ok loop ↦ run collecting_handlers fuel (record {
          loop = loop;
          book = empty_book;
          trace = [];
          state = record { strategy_state = state; intents = [] };
        })
      ]

abbrev timer_event : StrategyTimer → InternalEvent
timer_event timer = record {
  event_type = InternalEventType.timer;
  label = timer.label;
  order_id = none;
}

schedule_internal_ok :
    (a : EventLoop) (t : TimestampNs) (event : InternalEvent)
    → a.clock.now ≡ 0
    → (s : ScheduledInternalEvent) × (b : EventLoop) × (schedule_internal a t event ≡ ok (s, b))
      × (b.clock.now ≡ 0)
unfolding schedule_internal schedule
schedule_internal_ok a t event z = elim (Result-cases (schedule_internal a t event)) [
  | inl ((s, b), sent) ↦ (s, b, sent, ground (arith, sent))
  | inr (e, refused) ↦ absurd (ground (arith, refused))
]

-- The timers of a loop at time zero are all accepted.
pub schedule_timers_ok :
    (timers : List StrategyTimer) (a : EventLoop)
    → a.clock.now ≡ 0
    → (b : EventLoop) × (schedule_timers timers a ≡ ok b) × Adds (length timers) a b
unfolding schedule_timers
schedule_timers_ok [] a z = (a, refl, record { schedules = Schedules.nothing; added = omega arith })
schedule_timers_ok (timer ∷ timers) a z =
    let (s, next, sent, still) = schedule_internal_ok a timer.timestamp_ns (timer_event timer) z in
    let (b, others, adds) = schedule_timers_ok timers next still in
    (
      b,
      rw (sent) others,
      record {
        schedules =
            Schedules-trans
              (Schedules.one_more timer.timestamp_ns (timer_event timer) s Schedules.nothing sent)
              adds.schedules;
        added = omega (
          arith,
          adds.added,
          schedule_internal-length a next timer.timestamp_ns (timer_event timer) s sent,
        );
      },
    )

module _ {T : Type 0} (strategy : Strategy T) where
  collect-Behaves :
      (answer : Result (T × List OrderIntent)) (a b : EventLoop) (intents : List OrderIntent)
      (s s' : Collected T)
      → collect strategy answer a intents ≡ ok (b, s')
      → Behaves 0 (λ _. 0) a b s s'
  unfolding collect
  collect-Behaves (err e) a b intents s s' h = cc
  collect-Behaves (ok (t, more)) a b intents s s' h =
      let same : a ≡ b = ground arith in
      subst (λ l. Behaves 0 (λ _. 0) a l s s') same
        (record { schedules = Schedules.nothing; spends = omega arith })

  collect_market-Behaves :
      (event : MarketEvent) (book : OrderBook) (a b : EventLoop) (s s' : Collected T)
      → collect_market strategy event book a s ≡ ok (b, s')
      → Behaves 0 (λ _. 0) a b s s'
  collect_market-Behaves (MarketEvent.book_update e) book a b s s' h =
      collect-Behaves (strategy.on_book e book s.strategy_state) a b s.intents s s' h
  collect_market-Behaves (MarketEvent.trade e) book a b s s' h =
      collect-Behaves (strategy.on_trade e book s.strategy_state) a b s.intents s s' h

  ignored-Behaves :
      (a b : EventLoop) (s s' : Collected T)
      → collect_timer strategy InternalEventType.user
          (record {
            timestamp_ns = 0;
            internal_sequence_id = 0;
            event = record { event_type = InternalEventType.user; label = []; order_id = none };
          })
          empty_book
          a
          s
        ≡ ok (b, s')
      → Behaves 0 (λ _. 0) a b s s'
  ignored-Behaves a b s s' h =
      let same : a ≡ b = ground arith in
      subst (λ l. Behaves 0 (λ _. 0) a l s s') same
        (record { schedules = Schedules.nothing; spends = omega arith })

  collect_timer-Behaves :
      (type : InternalEventType) (event : ScheduledInternalEvent) (book : OrderBook)
      (a b : EventLoop) (s s' : Collected T)
      → collect_timer strategy type event book a s ≡ ok (b, s')
      → Behaves 0 (λ _. 0) a b s s'
  collect_timer-Behaves InternalEventType.timer event book a b s s' h =
      collect-Behaves (strategy.on_timer event.timestamp_ns event.event book s.strategy_state) a b
        s.intents s s' h
  collect_timer-Behaves InternalEventType.order_arrival event book a b s s' h =
      ignored-Behaves a b s s' h
  collect_timer-Behaves InternalEventType.cancel_arrival event book a b s s' h =
      ignored-Behaves a b s s' h
  collect_timer-Behaves InternalEventType.user event book a b s s' h = ignored-Behaves a b s s' h

  -- For every strategy, all timers, and historical events in the order of their timestamps: the run
  -- ends with fuel above the number of events and timers, with an exception that a book update or
  -- the strategy returns, or with a trace whose timestamps do not fall, whose market entries are the
  -- historical events, each once and in order, and with no timer left.
  pub run_strategy-Ended :
      (fuel : ℕ) (events : List MarketEvent) (timers : List StrategyTimer) (s : T)
      → Ascends market_time 0 events
      → length events + length timers < fuel
      → Ended (collecting_handlers strategy) events (run_strategy strategy fuel events timers s)
  unfolding run_strategy
  run_strategy-Ended fuel events timers s sorted enough =
      let (loop, set, adds) = schedule_timers_ok timers (make_event_loop events) refl in
      let only : IsScheduling (collecting_handlers strategy) 0 (λ _. 0) = record {
        on_market = collect_market-Behaves;
        on_internal = λ event book a b s s' h.
            collect_timer-Behaves event.event.event_type event book a b s s' h;
      } in
      rw (run_strategy, set)
        (run_from-Ended (collecting_handlers strategy) 0 (λ _. 0) only events fuel loop empty_book
          (record { strategy_state = s; intents = [] }) sorted adds.schedules
          (omega (arith, adds.added)))
