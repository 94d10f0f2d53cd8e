-- ===== src/EventLoop/Ends.antt =====
-- That every run of the event loop ends, and how.
use cpp_market_replay_engine.Base.{
  length, take_all, Error, Result, err, ok, ℕ, zero, suc, ◌+◌, ◌-◌, ◌*◌, ◌≤◌, ◌<◌, ◌≡◌, refl, ap,
  ◌∙◌, Bool, true, false, Option, some, List, [], map, arith,
}
use cpp_market_replay_engine.Market.{MarketEvent}
use cpp_market_replay_engine.EventLoop.{
  EventLoop, make_event_loop, EventLoopHandlers, Running, has_work, step, run,
}
use cpp_market_replay_engine.EventLoop.Timely.{
  Ascends, market_time, Schedules, Schedules-Keeps, IsScheduling,
}
use cpp_market_replay_engine.EventLoop.Steps.{step-Stepped}
use cpp_market_replay_engine.EventLoop.Refusals.{Refused, step-Refused}
use cpp_market_replay_engine.EventLoop.Run.{
  market_entry, IsOngoing, Replayed, market_left, Stepped-progress, Stepped-IsOngoing,
}
use cpp_market_replay_engine.OrderBook.{OrderBook}

-- How a run ends: with the replay over, or with the exception of the book or of a handler.
pub data Ended {S : Type 0} (handlers : EventLoopHandlers S) (events : List MarketEvent)
    : Option (Result (Running S)) → Type 0 where
  over : (r : Running S) → Replayed events r → Ended handlers events (some (ok r))
  refused : (e : Error) → Refused handlers e → Ended handlers events (some (err e))

idle : (loop : EventLoop) → has_work loop ≡ false → loop.scheduler.queue ≡ []
idle loop w = ground arith

module _ {S : Type 0} (allowance : ℕ) (budget : S → ℕ) (events : List MarketEvent) where
  -- The events that a run may still take.
  abbrev work_left : Running S → ℕ
  work_left r =
      market_left allowance budget events r.loop.next_market_index
      + (length r.loop.scheduler.queue + budget r.state)

  all_left : market_left allowance budget events 0 ≡ length events * suc allowance
  all_left = ap (λ n. n * suc allowance) same
    where
      same : length events - 0 ≡ length events
      same = omega arith

  over_end :
      (r : Running S)
      → IsOngoing events r
      → has_work r.loop ≡ false
      → length events ≤ r.loop.next_market_index
  over_end r o w = ground (arith, o.same)

  finished : (r : Running S) → IsOngoing events r → has_work r.loop ≡ false → Replayed events r
  finished r o w = record {
    ordered = o.ordered;
    replayed =
        o.replayed
        ∙ ap (map market_entry) (take_all events r.loop.next_market_index (over_end r o w));
    drained = idle r.loop w;
  }

module _ {S : Type 0} (handlers : EventLoopHandlers S) (allowance : ℕ) (budget : S → ℕ)
    (only : IsScheduling handlers allowance budget) (events : List MarketEvent) where
  run-Ended :
      (fuel : ℕ) (r : Running S)
      → IsOngoing events r
      → work_left allowance budget events r < fuel
      → Ended handlers events (run handlers fuel r)
  unfolding run
  run-Ended zero r o enough = absurd (omega arith)
  run-Ended (suc fuel) r o enough =
      by_work (λ r' o' e'. run-Ended fuel r' o' e') (has_work r.loop) refl
    where
      Rest : Type 0
      Rest =
          (r' : Running S)
          → IsOngoing events r'
          → work_left allowance budget events r' < fuel
          → Ended handlers events (run handlers fuel r')

      by_step :
          Rest
          → has_work r.loop ≡ true
          → (n : Result (Running S)) → step handlers r ≡ n
          → Ended handlers events
              (elim n [ ok after ↦ run handlers fuel after | err e ↦ some (err e) ])
      by_step rest w (ok r') e =
          let s = step-Stepped handlers allowance budget only r r' o.timely e in
          rest r' (Stepped-IsOngoing allowance budget events r r' s o)
            (omega (arith, Stepped-progress allowance budget events r r' s o, s.scheduled.spends))
      by_step rest w (err x) e = Ended.refused x (step-Refused handlers r o.timely x w e)

      by_work :
          Rest
          → (b : Bool) → has_work r.loop ≡ b
          → Ended handlers events (elim b [
            | false ↦ some (ok r)
            | true ↦ elim (step handlers r) [
              | ok after ↦ run handlers fuel after
              | err e ↦ some (err e)
            ]
          ])
      by_work rest false w = Ended.over r (finished allowance budget events r o w)
      by_work rest true w = by_step rest w (step handlers r) refl

  -- For handlers that only schedule events, no more than their budget allows and, for each market
  -- event, `allowance` more, and historical events in the order of their timestamps: a run that
  -- starts with fuel for the historical events and their allowances, the events scheduled before it
  -- and the budget ends. It ends with an exception that a book update
  -- or a handler returns, or with a trace whose timestamps do not fall, whose market entries are the
  -- historical events, each once and in order, and with no scheduled event left.
  pub run_from-Ended :
      (fuel : ℕ) (loop : EventLoop) (book : OrderBook) (s : S)
      → Ascends market_time 0 events
      → Schedules (make_event_loop events) loop
      → length events * suc allowance + length loop.scheduler.queue + budget s < fuel
      → Ended handlers events
          (run handlers fuel (record { loop = loop; book = book; trace = []; state = s }))
  run_from-Ended fuel loop book s sorted scheduled enough =
      let k = Schedules-Keeps tt scheduled in
      run-Ended fuel _
        (record {
          same = k.events;
          timely = record { queue = k.timely; market = rw (k.clock, k.index, k.events) (sorted) };
          within = rw (k.index) (omega arith);
          ordered = tt;
          past = tt;
          replayed = rw (k.index) (refl);
        })
        (rw (k.index) (omega (arith, all_left allowance budget events)))
