-- ===== src/EventLoop.antt =====
-- include/replay/event_loop.hpp and src/event_loop.cpp: the merge of the historical market events
-- with the scheduled internal events. The handlers are functions on a state of their own and on the
-- loop; the order book that the loop updates is passed to them. The loop runs on fuel, where `none`
-- says that the fuel ran out.
pub mod Scheduler
pub mod Timely
pub mod Steps
pub mod Refusals
pub mod Run
pub mod Ends
pub mod Keeps
pub mod Trace
pub mod Traced
use cpp_market_replay_engine.Base.{
  ltb, leb, if◌then◌else◌, length, get_elem?, market_exhausted, Result, ok, err, ◌>>=◌, ◌>>◌, ℕ,
  zero, suc, ◌+◌, Bool, true, false, not, ◌||◌, Option, none, some, List, [], ◌∷◌, ◌++◌,
}
use cpp_market_replay_engine.Base.Text.{Text}
use cpp_market_replay_engine.Types.{TimestampNs, EventKey}
use cpp_market_replay_engine.Market.{MarketEvent, MarketEventType, event_type, event_key}
use cpp_market_replay_engine.OrderBook.{OrderBook, apply}
use cpp_market_replay_engine.EventLoop.Scheduler.{
  SimulationClock, advance_to, InternalEventType, InternalEvent, ScheduledInternalEvent,
  InternalEventScheduler, schedule, next, pop_next,
}

pub data TraceEventKind : Type 0 where
  book_update trade timer order_arrival cancel_arrival user : TraceEventKind

pub data TraceEventClass : Type 0 where
  market internal : TraceEventClass

abbrev pub trace_kind_for_market : MarketEventType → TraceEventKind
trace_kind_for_market MarketEventType.book_updates = TraceEventKind.book_update
trace_kind_for_market MarketEventType.trades = TraceEventKind.trade

abbrev pub trace_kind_for_internal : InternalEventType → TraceEventKind
trace_kind_for_internal InternalEventType.timer = TraceEventKind.timer
trace_kind_for_internal InternalEventType.order_arrival = TraceEventKind.order_arrival
trace_kind_for_internal InternalEventType.cancel_arrival = TraceEventKind.cancel_arrival
trace_kind_for_internal InternalEventType.user = TraceEventKind.user

pub record EventTraceEntry : Type 0 where
  pub event_class : TraceEventClass
  pub kind : TraceEventKind
  pub timestamp_ns : TimestampNs
  pub sequence_id : ℕ
  pub label : Text

abbrev pub trace_market_event : EventKey → MarketEventType → EventTraceEntry
trace_market_event key type = record {
  event_class = TraceEventClass.market;
  kind = trace_kind_for_market type;
  timestamp_ns = key.timestamp_ns;
  sequence_id = key.sequence_id;
  label = [];
}

abbrev pub trace_internal_event : ScheduledInternalEvent → EventTraceEntry
trace_internal_event e = record {
  event_class = TraceEventClass.internal;
  kind = trace_kind_for_internal e.event.event_type;
  timestamp_ns = e.timestamp_ns;
  sequence_id = e.internal_sequence_id;
  label = e.event.label;
}

pub record EventLoop : Type 0 where
  pub historical_events : List MarketEvent
  pub next_market_index : ℕ
  pub clock : SimulationClock
  pub scheduler : InternalEventScheduler

-- The constructor.
abbrev pub make_event_loop : List MarketEvent → EventLoop
make_event_loop events = record {
  historical_events = events;
  next_market_index = 0;
  clock = record { now = 0 };
  scheduler = record { next_internal_sequence_id = 0; queue = [] };
}

unfoldable pub schedule_internal :
    EventLoop → TimestampNs → InternalEvent → Result (ScheduledInternalEvent × EventLoop)
schedule_internal loop timestamp_ns event = do
  (scheduled, scheduler) ← schedule loop.scheduler timestamp_ns event loop.clock.now
  ok (scheduled, record loop { scheduler = scheduler })

abbrev pub is_idle : List ScheduledInternalEvent → Bool
is_idle [] = true
is_idle (e ∷ queue) = false

abbrev pub has_pending_internal_events : EventLoop → Bool
has_pending_internal_events loop = not (is_idle loop.scheduler.queue)

abbrev pub or_exhausted : Option MarketEvent → Result MarketEvent
or_exhausted none = err market_exhausted
or_exhausted (some e) = ok e

abbrev pub next_market_event : EventLoop → Result MarketEvent
next_market_event loop = or_exhausted (get_elem? loop.historical_events loop.next_market_index)

unfoldable pub should_process_market_next : EventLoop → Result Bool
should_process_market_next loop =
    if leb (length loop.historical_events) loop.next_market_index
    then ok false
    else if is_idle loop.scheduler.queue
    then ok true
    else do
      historical ← next_market_event loop
      scheduled ← next loop.scheduler
      ok (leb (event_key historical).timestamp_ns scheduled.timestamp_ns)

-- The handlers of a run over a state `S`.
pub record EventLoopHandlers (S : Type 0) : Type 0 where
  pub updates_book : Bool
  pub on_market : MarketEvent → OrderBook → EventLoop → S → Result (EventLoop × S)
  pub on_internal : ScheduledInternalEvent → OrderBook → EventLoop → S → Result (EventLoop × S)

-- What changes during a run.
pub record Running (S : Type 0) : Type 0 where
  pub loop : EventLoop
  pub book : OrderBook
  pub trace : List EventTraceEntry
  pub state : S

abbrev pub update_book : Bool → OrderBook → MarketEvent → Result OrderBook
update_book true book (MarketEvent.book_update e) = apply book e
update_book true book (MarketEvent.trade e) = ok book
update_book false book event = ok book

-- The test of the loop.
abbrev pub has_work : EventLoop → Bool
has_work loop =
    ltb loop.next_market_index (length loop.historical_events) || has_pending_internal_events loop

module _ {S : Type 0} (handlers : EventLoopHandlers S) where
  -- The body of the loop for a market event, and for an internal event.
  unfoldable pub market_step : Running S → Result (Running S)
  market_step r = do
    event ← next_market_event r.loop
    clock ← advance_to r.loop.clock (event_key event).timestamp_ns
    book ← update_book handlers.updates_book r.book event
    (loop, state) ←
        handlers.on_market event book
          (record r.loop { clock = clock; next_market_index = r.loop.next_market_index + 1 })
          r.state
    ok (record {
      loop = loop;
      book = book;
      trace = r.trace ++ trace_market_event (event_key event) (event_type event) ∷ [];
      state = state;
    })

  unfoldable pub internal_step : Running S → Result (Running S)
  internal_step r = do
    (event, scheduler) ← pop_next r.loop.scheduler
    clock ← advance_to r.loop.clock event.timestamp_ns
    (loop, state) ←
        handlers.on_internal event r.book (record r.loop { clock = clock; scheduler = scheduler })
          r.state
    ok (record {
      loop = loop;
      book = r.book;
      trace = r.trace ++ trace_internal_event event ∷ [];
      state = state;
    })

  unfoldable pub step : Running S → Result (Running S)
  step r = do
    market_next ← should_process_market_next r.loop
    if market_next then market_step r else internal_step r

  -- `EventLoop::run`
  unfoldable pub run : ℕ → Running S → Option (Result (Running S))
  run zero r = none
  run (suc fuel) r = elim (has_work r.loop) [
    | false ↦ some (ok r)
    | true ↦ elim (step r) [ ok after ↦ run fuel after | err e ↦ some (err e) ]
  ]
