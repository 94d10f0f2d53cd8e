-- ===== src/EventLoop/Timely.antt =====
-- Time in the event loop: the pending events lie ahead of the clock, and scheduling keeps that.
use cpp_market_replay_engine.Base.{
  length, drop, ok, ℕ, ◌+◌, ◌≤◌, ◌≡◌, refl, ◌∙◌, List, [], ◌∷◌, arith,
}
use cpp_market_replay_engine.Types.{TimestampNs}
use cpp_market_replay_engine.Market.{MarketEvent, event_key}
use cpp_market_replay_engine.OrderBook.{OrderBook}
use cpp_market_replay_engine.EventLoop.Scheduler.{
  InternalEvent, ScheduledInternalEvent, push, schedule,
}
use cpp_market_replay_engine.EventLoop.{EventLoop, schedule_internal, EventLoopHandlers}

-- Timestamps do not fall along a list, from `t` on.
module _ {A : Type 0} (time : A → TimestampNs) where
  abbrev pub Ascends : TimestampNs → List A → Type 0
  Ascends t [] = Unit {0}
  Ascends t (e ∷ es) = (t ≤ time e) × Ascends (time e) es

abbrev pub market_time : MarketEvent → TimestampNs
market_time e = (event_key e).timestamp_ns

abbrev pub scheduled_time : ScheduledInternalEvent → TimestampNs
scheduled_time e = e.timestamp_ns

abbrev pub pending_market : EventLoop → List MarketEvent
pending_market loop = drop loop.next_market_index loop.historical_events

-- Nothing pending is in the past.
pub record IsTimely (loop : EventLoop) : Type 0 where
  pub queue : Ascends scheduled_time loop.clock.now loop.scheduler.queue
  pub market : Ascends market_time loop.clock.now (pending_market loop)

pub push-Ascends :
    (t : TimestampNs) (e : ScheduledInternalEvent) (queue : List ScheduledInternalEvent)
    → t ≤ e.timestamp_ns
    → Ascends scheduled_time t queue
    → Ascends scheduled_time t (push e queue)
unfolding push
push-Ascends t e [] h a = (h, tt)
push-Ascends t e (x ∷ queue) h a = ground (arith, push-Ascends x.timestamp_ns e queue)

-- What a handler may do to the loop: schedule internal events, any number of times.
pub data Schedules (loop : EventLoop) : EventLoop → Type 0 where
  nothing : Schedules loop loop
  one_more :
      {a b : EventLoop} (t : TimestampNs) (event : InternalEvent) (s : ScheduledInternalEvent)
      → Schedules loop a
      → schedule_internal a t event ≡ ok (s, b)
      → Schedules loop b

-- What scheduling leaves alone, and that it keeps the pending events ahead.
pub record Keeps (a b : EventLoop) : Type 0 where
  pub clock : b.clock ≡ a.clock
  pub events : b.historical_events ≡ a.historical_events
  pub index : b.next_market_index ≡ a.next_market_index
  pub timely : Ascends scheduled_time b.clock.now b.scheduler.queue

schedule_internal-Keeps :
    (a b : EventLoop) (t : TimestampNs) (event : InternalEvent) (s : ScheduledInternalEvent)
    → Ascends scheduled_time a.clock.now a.scheduler.queue
    → schedule_internal a t event ≡ ok (s, b)
    → Keeps a b
unfolding schedule_internal schedule
schedule_internal-Keeps a b t event s h e = ground (
  arith,
  push-Ascends a.clock.now
      (record {
        timestamp_ns = t;
        internal_sequence_id = a.scheduler.next_internal_sequence_id;
        event = event;
      })
      a.scheduler.queue,
)

pub Schedules-Keeps :
    {a b : EventLoop}
    → Ascends scheduled_time a.clock.now a.scheduler.queue
    → Schedules a b
    → Keeps a b
Schedules-Keeps h Schedules.nothing = record {
  clock = refl;
  events = refl;
  index = refl;
  timely = h;
}
Schedules-Keeps {a} {b} h (Schedules.one_more {a = m} t event s r e) =
    let k = Schedules-Keeps h r in
    let l = schedule_internal-Keeps m b t event s k.timely e in
    record {
      clock = l.clock ∙ k.clock;
      events = l.events ∙ k.events;
      index = l.index ∙ k.index;
      timely = l.timely;
    }

-- A handler's call only schedules, and each event that it schedules is paid from the budget or from
-- what the call is given in addition.
pub record Behaves {S : Type 0} (given : ℕ) (budget : S → ℕ) (a b : EventLoop) (s s' : S)
    : Type 0 where
  pub schedules : Schedules a b
  pub spends : length b.scheduler.queue + budget s' ≤ length a.scheduler.queue + budget s + given

-- Handlers that only schedule, as many events as the budget in their state allows, and `allowance`
-- more for each market event.
pub record IsScheduling {S : Type 0} (handlers : EventLoopHandlers S) (allowance : ℕ)
    (budget : S → ℕ) : Type 0 where
  pub on_market :
      (event : MarketEvent) (book : OrderBook) (loop loop' : EventLoop) (s s' : S)
      → handlers.on_market event book loop s ≡ ok (loop', s')
      → Behaves allowance budget loop loop' s s'
  pub on_internal :
      (event : ScheduledInternalEvent) (book : OrderBook) (loop loop' : EventLoop) (s s' : S)
      → handlers.on_internal event book loop s ≡ ok (loop', s')
      → Behaves 0 budget loop loop' s s'
