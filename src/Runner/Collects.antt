-- ===== src/Runner/Collects.antt =====
-- What a run of `run_strategy` of src/strategy.cpp leaves: the strategy called for each event and each
-- timer, and a sink that holds what it answered.
use mathlib.Core.List.{Perm}
use cpp_market_replay_engine.Base.{
  length, set, ++-nil, Error, Result, err, ok, ℕ, ◌+◌, ◌<◌, ◌≡◌, refl, sym, ap, ◌∙◌, subst, Option,
  some, List, [], ◌++◌, map,
}
use cpp_market_replay_engine.Market.{MarketEvent}
use cpp_market_replay_engine.OrderBook.{empty_book}
use cpp_market_replay_engine.EventLoop.{
  trace_internal_event, EventLoop, make_event_loop, Running, run,
}
use cpp_market_replay_engine.EventLoop.Timely.{Ascends, market_time}
use cpp_market_replay_engine.EventLoop.Run.{Replayed}
use cpp_market_replay_engine.EventLoop.Ends.{Ended}
use cpp_market_replay_engine.EventLoop.Refusals.{Refused}
use cpp_market_replay_engine.Runner.{Strategy}
use cpp_market_replay_engine.Runner.Plain.{
  StrategyTimer, Collected, schedule_timers, collecting_handlers, run_strategy, schedule_timers_ok,
  run_strategy-Ended,
}
use cpp_market_replay_engine.Runner.Timers.{
  internal_entries, timer_entries, queued, schedule_timers-queued, schedule_timers-IsTimer,
}
use cpp_market_replay_engine.Runner.Answers.{Relation, IsAnswering, run-Holds}

-- How `run_strategy` ends: with the replay over, each timer taken once, and the relation between the
-- state of the strategy, the sink and the trace; or with the exception of the book or of the strategy.
pub data Answered {T : Type 0} (strategy : Strategy T) (R : Relation T) (events : List MarketEvent)
    (timers : List StrategyTimer) : Option (Result (Running (Collected T))) → Type 0 where
  over :
      (r : Running (Collected T))
      → Replayed events r
      → Perm (internal_entries r.trace) (timer_entries 0 timers)
      → R r.state.strategy_state r.state.intents r.trace
      → Answered strategy R events timers (some (ok r))
  refused :
      (e : Error)
      → Refused (collecting_handlers strategy) e
      → Answered strategy R events timers (some (err e))

module _ {T : Type 0} (strategy : Strategy T) (R : Relation T)
    (answers : IsAnswering strategy R) where
  Ended-Answered :
      (fuel : ℕ) (events : List MarketEvent) (timers : List StrategyTimer) (s : T)
      (loop : EventLoop) (outcome : Option (Result (Running (Collected T))))
      → R s [] []
      → schedule_timers timers (make_event_loop events) ≡ ok loop
      → run (collecting_handlers strategy) fuel (record {
        loop = loop;
        book = empty_book;
        trace = [];
        state = record { strategy_state = s; intents = [] };
      })
        ≡ outcome
      → Ended (collecting_handlers strategy) events outcome
      → Answered strategy R events timers outcome
  Ended-Answered fuel events timers s loop outcome at_start set h (Ended.refused e bad) =
      Answered.refused e bad
  Ended-Answered fuel events timers s loop outcome at_start set h (Ended.over r replayed) =
      let timed = schedule_timers-IsTimer timers (make_event_loop events) loop refl tt set in
      let (taken, _, held) =
        run-Holds strategy R answers fuel (queued loop) _ r (refl, timed, at_start) h in
      let none_left : queued r.loop ≡ [] = ap (map trace_internal_event) replayed.drained in
      let all_taken : internal_entries r.trace ≡ queued loop =
        sym (++-nil (internal_entries r.trace))
        ∙ ap (λ es. internal_entries r.trace ++ es) (sym none_left)
        ∙ taken in
      let scheduled = schedule_timers-queued timers (make_event_loop events) loop refl set in
      let each_once : Perm (queued loop) (timer_entries 0 timers) =
        subst (Perm (queued loop)) (++-nil (timer_entries 0 timers)) scheduled in
      Answered.over r replayed
        (subst (λ es. Perm es (timer_entries 0 timers)) (sym all_taken) each_once) held

  -- For every strategy, and every relation between its state, its intents and the entries of its calls
  -- that holds at the start and that each of its answers keeps; for all timers, and historical events
  -- in the order of their timestamps: with fuel above the number of events and timers the run ends. It
  -- ends with an exception that a book update or the strategy returns, or with a trace whose timestamps
  -- do not fall, whose market entries are the historical events, each once and in order, whose other
  -- entries are the timers, each once at its time and with its label and number, with nothing left, and
  -- with the relation between the last state, the intents in the sink and the whole trace.
  pub run_strategy-Answered :
      (fuel : ℕ) (events : List MarketEvent) (timers : List StrategyTimer) (s : T)
      → R s [] []
      → Ascends market_time 0 events
      → length events + length timers < fuel
      → Answered strategy R events timers (run_strategy strategy fuel events timers s)
  unfolding run_strategy
  run_strategy-Answered fuel events timers s at_start sorted enough =
      let (loop, set, adds) = schedule_timers_ok timers (make_event_loop events) refl in
      let ended = run_strategy-Ended strategy fuel events timers s sorted enough in
      rw (run_strategy, set)
        (Ended-Answered fuel events timers s loop _ at_start set refl
          (rw (run_strategy, set) at ended))
