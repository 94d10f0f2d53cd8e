-- ===== src/EventLoop/Scheduler.antt =====
-- The simulation clock (include/replay/simulation_clock.hpp, src/simulation_clock.cpp) and the
-- scheduler of internal events (include/replay/event_loop.hpp, src/event_loop.cpp). The
-- std::priority_queue is a list in the order in which it is popped.
use cpp_market_replay_engine.Base.{
  ltb, ◌==◌, if◌then◌else◌, clock_backward, schedule_in_past, scheduler_empty, Result, ok, err, ℕ,
  Bool, not, Option, List, [], ◌∷◌,
}
use cpp_market_replay_engine.Base.Text.{Text}
use cpp_market_replay_engine.Types.{increment, TimestampNs, OrderId}

pub record SimulationClock : Type 0 where
  pub now : TimestampNs

unfoldable pub advance_to : SimulationClock → TimestampNs → Result SimulationClock
advance_to clock timestamp_ns =
    if ltb timestamp_ns clock.now then err clock_backward else ok (record { now = timestamp_ns })

pub data InternalEventType : Type 0 where
  timer order_arrival cancel_arrival user : InternalEventType

pub record InternalEvent : Type 0 where
  pub event_type : InternalEventType
  pub label : Text
  pub order_id : Option OrderId

pub record ScheduledInternalEvent : Type 0 where
  pub timestamp_ns : TimestampNs
  pub internal_sequence_id : ℕ
  pub event : InternalEvent

-- `LaterScheduledEvent`: `lhs` is popped after `rhs`.
abbrev pub later : ScheduledInternalEvent → ScheduledInternalEvent → Bool
later lhs rhs =
    if not (lhs.timestamp_ns == rhs.timestamp_ns)
    then ltb rhs.timestamp_ns lhs.timestamp_ns
    else ltb rhs.internal_sequence_id lhs.internal_sequence_id

-- `queue_.push`
unfoldable pub push :
    ScheduledInternalEvent → List ScheduledInternalEvent → List ScheduledInternalEvent
push e [] = e ∷ []
push e (x ∷ queue) = if later e x then x ∷ push e queue else e ∷ x ∷ queue

pub record InternalEventScheduler : Type 0 where
  pub next_internal_sequence_id : ℕ
  pub queue : List ScheduledInternalEvent

unfoldable pub schedule :
    InternalEventScheduler
    → TimestampNs
    → InternalEvent
    → TimestampNs
    → Result (ScheduledInternalEvent × InternalEventScheduler)
schedule s timestamp_ns event current_time_ns =
    let scheduled : ScheduledInternalEvent = record {
      timestamp_ns = timestamp_ns;
      internal_sequence_id = s.next_internal_sequence_id;
      event = event;
    } in
    if ltb timestamp_ns current_time_ns
    then err schedule_in_past
    else ok (
      scheduled,
      record {
        next_internal_sequence_id = increment s.next_internal_sequence_id;
        queue = push scheduled s.queue;
      },
    )

abbrev pub next_of : List ScheduledInternalEvent → Result ScheduledInternalEvent
next_of [] = err scheduler_empty
next_of (e ∷ queue) = ok e

-- `InternalEventScheduler::next`
abbrev pub next : InternalEventScheduler → Result ScheduledInternalEvent
next s = next_of s.queue

abbrev pub pop_of :
    InternalEventScheduler
    → List ScheduledInternalEvent
    → Result (ScheduledInternalEvent × InternalEventScheduler)
pop_of s [] = err scheduler_empty
pop_of s (e ∷ queue) = ok (e, record s { queue = queue })

abbrev pub pop_next :
    InternalEventScheduler → Result (ScheduledInternalEvent × InternalEventScheduler)
pop_next s = pop_of s s.queue
