-- ===== src/EventLoop/Steps.antt =====
-- One round of the event loop: which event it takes, and what it leaves.
use cpp_market_replay_engine.Base.{
  if◌then◌else◌, length, get_elem?, drop, ok, >>=-eq-ok, ok_eq, ℕ, zero, suc, ◌+◌, ◌≤◌, ◌<◌, ◌≡◌,
  refl, sym, ap, subst, ◌⊎◌, inl, inr, Bool, true, false, some, List, [], ◌∷◌, ◌++◌, arith,
}
use cpp_market_replay_engine.Types.{TimestampNs}
use cpp_market_replay_engine.Market.{MarketEvent, event_type, event_key}
use cpp_market_replay_engine.EventLoop.Scheduler.{
  SimulationClock, advance_to, ScheduledInternalEvent, InternalEventScheduler, pop_next,
}
use cpp_market_replay_engine.EventLoop.Timely.{
  Ascends, market_time, scheduled_time, pending_market, IsTimely, Behaves, IsScheduling,
}
use cpp_market_replay_engine.EventLoop.{
  EventTraceEntry, trace_market_event, trace_internal_event, EventLoop, next_market_event,
  should_process_market_next, EventLoopHandlers, Running, update_book, market_step, internal_step,
  step,
}

abbrev pub entry_time : EventTraceEntry → TimestampNs
entry_time e = e.timestamp_ns

-- The round took a historical event that no scheduled event comes before.
pub record TookMarket (a mid : EventLoop) (entry : EventTraceEntry) : Type 0 where
  pub event : MarketEvent
  pub is_next : get_elem? a.historical_events a.next_market_index ≡ some event
  pub is_entry : entry ≡ trace_market_event (event_key event) (event_type event)
  pub first : Ascends scheduled_time (market_time event) a.scheduler.queue
  pub moved : mid.next_market_index ≡ suc a.next_market_index
  pub kept : mid.scheduler ≡ a.scheduler

-- The round took the first scheduled event, which comes before every historical event that is left.
pub record TookInternal (a mid : EventLoop) (entry : EventTraceEntry) : Type 0 where
  pub event : ScheduledInternalEvent
  pub rest : List ScheduledInternalEvent
  pub is_next : a.scheduler.queue ≡ event ∷ rest
  pub is_entry : entry ≡ trace_internal_event event
  pub first : Ascends market_time (suc event.timestamp_ns) (pending_market a)
  pub same_index : mid.next_market_index ≡ a.next_market_index
  pub popped : mid.scheduler.queue ≡ rest

pub record Stepped {S : Type 0} (allowance : ℕ) (budget : S → ℕ) (r r' : Running S) : Type 0 where
  pub entry : EventTraceEntry
  pub mid : EventLoop
  pub traced : r'.trace ≡ r.trace ++ entry ∷ []
  pub ahead : r.loop.clock.now ≤ entry.timestamp_ns
  pub advanced : mid.clock.now ≡ entry.timestamp_ns
  pub same_events : mid.historical_events ≡ r.loop.historical_events
  pub given : ℕ
  pub took :
      (TookMarket r.loop mid entry × (given ≡ allowance))
      ⊎ (TookInternal r.loop mid entry × (given ≡ 0))
  pub scheduled : Behaves given budget mid r'.loop r.state r'.state

advance_to_ok :
    (c d : SimulationClock) (t : TimestampNs) → advance_to c t ≡ ok d → (c.now ≤ t) × (d.now ≡ t)
unfolding advance_to
advance_to_ok c d t e = ground arith

next_market_event_ok :
    (loop : EventLoop) (e : MarketEvent)
    → next_market_event loop ≡ ok e
    → get_elem? loop.historical_events loop.next_market_index ≡ some e
next_market_event_ok loop e h = ground arith

pub pop_next_ok :
    (s : InternalEventScheduler) (e : ScheduledInternalEvent) (t : InternalEventScheduler)
    → pop_next s ≡ ok (e, t)
    → s.queue ≡ e ∷ t.queue
pop_next_ok s e t h = ground arith

-- Where the historical event is chosen, the scheduled events are not before it.
market_before :
    (loop : EventLoop) (e : MarketEvent) (queue : List ScheduledInternalEvent)
    → loop.scheduler.queue ≡ queue
    → Ascends scheduled_time loop.clock.now queue
    → get_elem? loop.historical_events loop.next_market_index ≡ some e
    → should_process_market_next loop ≡ ok true
    → Ascends scheduled_time (market_time e) queue
unfolding should_process_market_next
market_before loop e [] q v h c = tt
market_before loop e (x ∷ queue) q v h c = ground arith

-- What is left from a position on.
pub record Found (events : List MarketEvent) (i : ℕ) : Type 0 where
  pub m : MarketEvent
  pub within : i < length events
  pub found : get_elem? events i ≡ some m
  pub left : drop i events ≡ m ∷ drop (suc i) events

pub left_cases :
    (events : List MarketEvent) (i : ℕ)
    → ((drop i events ≡ []) × (length events ≤ i)) ⊎ Found events i
left_cases [] zero = inl (refl, omega arith)
left_cases [] (suc i) = inl (refl, omega arith)
left_cases (x ∷ events) zero =
    inr (record { m = x; within = omega arith; found = refl; left = refl })
left_cases (x ∷ events) (suc i) = elim (left_cases events i) [
  | inl (nil, over) ↦ inl (nil, omega arith)
  | inr f ↦
      inr (record { m = f.m; within = omega (arith, f.within); found = f.found; left = f.left })
]

-- Where the scheduled event is chosen, every historical event that is left is after it.
internal_before :
    (loop : EventLoop) (e : ScheduledInternalEvent) (rest : List ScheduledInternalEvent)
    → Ascends market_time loop.clock.now (pending_market loop)
    → loop.scheduler.queue ≡ e ∷ rest
    → should_process_market_next loop ≡ ok false
    → Ascends market_time (suc e.timestamp_ns) (pending_market loop)
unfolding should_process_market_next
internal_before loop e rest v h c =
    elim (left_cases loop.historical_events loop.next_market_index) [
      | inl (nil, over) ↦ subst (Ascends market_time (suc e.timestamp_ns)) (sym nil) tt
      | inr f ↦ ground (arith, f.within, f.found, f.left)
    ]

module _ {S : Type 0} (handlers : EventLoopHandlers S) (allowance : ℕ) (budget : S → ℕ)
    (only : IsScheduling handlers allowance budget) where
  market_step-Stepped :
      (r r' : Running S)
      → IsTimely r.loop
      → should_process_market_next r.loop ≡ ok true
      → market_step handlers r ≡ ok r'
      → Stepped allowance budget r r'
  unfolding market_step
  market_step-Stepped r r' v c h =
      let (event, found, h₁) = >>=-eq-ok (next_market_event r.loop) _ h in
      let (clock, moved, h₂) = >>=-eq-ok (advance_to r.loop.clock (market_time event)) _ h₁ in
      let (book, _, h₃) = >>=-eq-ok (update_book handlers.updates_book r.book event) _ h₂ in
      let mid = record r.loop { clock = clock; next_market_index = r.loop.next_market_index + 1 } in
      let ((loop, state), handled, h₄) =
        >>=-eq-ok (handlers.on_market event book mid r.state) _ h₃ in
      let result = ok_eq _ r' h₄ in
      let (behind, now) = advance_to_ok r.loop.clock clock (market_time event) moved in
      let next = next_market_event_ok r.loop event found in
      record {
        entry = trace_market_event (event_key event) (event_type event);
        mid = mid;
        traced = ap (λ (x : Running S). x.trace) (sym result);
        ahead = behind;
        advanced = now;
        same_events = refl;
        given = allowance;
        took = inl (
            (
              record {
                event = event;
                is_next = next;
                is_entry = refl;
                first = market_before r.loop event r.loop.scheduler.queue refl v.queue next c;
                moved = omega arith;
                kept = refl;
              },
              refl,
            ));
        scheduled =
            subst (λ (x : Running S). Behaves allowance budget mid x.loop r.state x.state) result
              (only.on_market event book mid loop r.state state handled);
      }

  internal_step-Stepped :
      (r r' : Running S)
      → IsTimely r.loop
      → should_process_market_next r.loop ≡ ok false
      → internal_step handlers r ≡ ok r'
      → Stepped allowance budget r r'
  unfolding internal_step
  internal_step-Stepped r r' v c h =
      let ((event, scheduler), popped, h₁) = >>=-eq-ok (pop_next r.loop.scheduler) _ h in
      let (clock, moved, h₂) = >>=-eq-ok (advance_to r.loop.clock event.timestamp_ns) _ h₁ in
      let mid = record r.loop { clock = clock; scheduler = scheduler } in
      let ((loop, state), handled, h₃) =
        >>=-eq-ok (handlers.on_internal event r.book mid r.state) _ h₂ in
      let result = ok_eq _ r' h₃ in
      let (behind, now) = advance_to_ok r.loop.clock clock event.timestamp_ns moved in
      let is_first = pop_next_ok r.loop.scheduler event scheduler popped in
      record {
        entry = trace_internal_event event;
        mid = mid;
        traced = ap (λ (x : Running S). x.trace) (sym result);
        ahead = behind;
        advanced = now;
        same_events = refl;
        given = 0;
        took = inr (
            (
              record {
                event = event;
                rest = scheduler.queue;
                is_next = is_first;
                is_entry = refl;
                first = internal_before r.loop event scheduler.queue v.market is_first c;
                same_index = refl;
                popped = refl;
              },
              refl,
            ));
        scheduled =
            subst (λ (x : Running S). Behaves 0 budget mid x.loop r.state x.state) result
              (only.on_internal event r.book mid loop r.state state handled);
      }

  pub step-Stepped :
      (r r' : Running S) → IsTimely r.loop → step handlers r ≡ ok r' → Stepped allowance budget r r'
  unfolding step
  step-Stepped r r' v h =
      let (choice, chosen, h₁) = >>=-eq-ok (should_process_market_next r.loop) _ h in
      step_cases choice chosen h₁
    where
      step_cases :
          (choice : Bool)
          → should_process_market_next r.loop ≡ ok choice
          → (if choice then market_step handlers r else internal_step handlers r) ≡ ok r'
          → Stepped allowance budget r r'
      step_cases true c e = market_step-Stepped r r' v c e
      step_cases false c e = internal_step-Stepped r r' v c e
