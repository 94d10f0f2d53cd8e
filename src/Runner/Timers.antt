-- ===== src/Runner/Timers.antt =====
-- The timers of `run_strategy` of src/strategy.cpp as scheduled events, and as entries of the trace.
use mathlib.Core.List.Perm
use mathlib.Core.List.{Perm, perm_middle}
use cpp_market_replay_engine.Base.{
  ltb, Bool-cases, All, ok, ok_eq, ℕ, ◌≡◌, refl, ap, ◌∙◌, subst, inl, inr, false, none, List, [],
  ◌∷◌, ◌++◌, map, arith,
}
use cpp_market_replay_engine.Types.{increment}
use cpp_market_replay_engine.EventLoop.{
  TraceEventKind, TraceEventClass, EventTraceEntry, trace_internal_event, EventLoop,
  schedule_internal,
}
use cpp_market_replay_engine.EventLoop.Scheduler.{
  InternalEventType, ScheduledInternalEvent, later, push, schedule,
}
use cpp_market_replay_engine.Runner.Plain.{StrategyTimer, schedule_timers}

-- The entries of the trace that stand for scheduled events.
abbrev pub keep_internal :
    TraceEventClass → EventTraceEntry → List EventTraceEntry → List EventTraceEntry
keep_internal TraceEventClass.market e es = es
keep_internal TraceEventClass.internal e es = e ∷ es

abbrev pub internal_entries : List EventTraceEntry → List EventTraceEntry
internal_entries [] = []
internal_entries (e ∷ es) = keep_internal e.event_class e (internal_entries es)

-- One entry for each timer, at its time and with its label, numbered from `i` on.
abbrev pub timer_entries : ℕ → List StrategyTimer → List EventTraceEntry
timer_entries i [] = []
timer_entries i (timer ∷ timers) =
    record {
      event_class = TraceEventClass.internal;
      kind = TraceEventKind.timer;
      timestamp_ns = timer.timestamp_ns;
      sequence_id = i;
      label = timer.label;
    }
    ∷ timer_entries (increment i) timers

pub internal_entries-append :
    (es fs : List EventTraceEntry)
    → internal_entries (es ++ fs) ≡ internal_entries es ++ internal_entries fs
internal_entries-append [] fs = refl
internal_entries-append (x ∷ es) fs =
    ap (keep_internal x.event_class x) (internal_entries-append es fs)
    ∙ kept x.event_class (internal_entries es)
  where
    kept :
        (c : TraceEventClass) (l : List EventTraceEntry)
        → keep_internal c x (l ++ internal_entries fs) ≡ keep_internal c x l ++ internal_entries fs
    kept TraceEventClass.market l = refl
    kept TraceEventClass.internal l = refl

abbrev pub queued : EventLoop → List EventTraceEntry
queued loop = map trace_internal_event loop.scheduler.queue

push-Perm :
    (e : ScheduledInternalEvent) (queue : List ScheduledInternalEvent)
    → Perm (push e queue) (e ∷ queue)
unfolding push
push-Perm e [] = Perm.refl (e ∷ [])
push-Perm e (x ∷ queue) = elim (Bool-cases (later e x)) [
  | inl after ↦ rw (after) (Perm.trans (Perm.cons x (push-Perm e queue)) (Perm.swap e x queue))
  | inr before ↦ rw (before) (Perm.refl (e ∷ x ∷ queue))
]

-- The loop with one more scheduled event.
abbrev with_event : EventLoop → ScheduledInternalEvent → EventLoop
with_event loop e = record loop {
  scheduler = record {
    next_internal_sequence_id = increment loop.scheduler.next_internal_sequence_id;
    queue = push e loop.scheduler.queue;
  };
}

abbrev timer_scheduled : ℕ → StrategyTimer → ScheduledInternalEvent
timer_scheduled i timer = record {
  timestamp_ns = timer.timestamp_ns;
  internal_sequence_id = i;
  event = record { event_type = InternalEventType.timer; label = timer.label; order_id = none };
}

pub schedule_timers-queued :
    (timers : List StrategyTimer) (a b : EventLoop)
    → a.clock.now ≡ 0
    → schedule_timers timers a ≡ ok b
    → Perm (queued b) (timer_entries a.scheduler.next_internal_sequence_id timers ++ queued a)
unfolding schedule_timers schedule_internal schedule
schedule_timers-queued [] a b z h =
    subst (λ x. Perm (queued x) (queued a)) (ok_eq a b h) (Perm.refl (queued a))
schedule_timers-queued (timer ∷ timers) a b z h =
    let e = timer_scheduled a.scheduler.next_internal_sequence_id timer in
    let early : ltb timer.timestamp_ns a.clock.now ≡ false = rw (z) (ground arith) in
    let rest = schedule_timers-queued timers (with_event a e) b z (rw (early) at h) in
    Perm.trans rest (
      Perm.trans
        (Perm.append_left (timer_entries (increment a.scheduler.next_internal_sequence_id) timers)
          (Perm.map trace_internal_event (push-Perm e a.scheduler.queue)))
        (perm_middle (timer_entries (increment a.scheduler.next_internal_sequence_id) timers)
          (queued a)))

-- A scheduled event that is a timer.
abbrev pub IsTimer : ScheduledInternalEvent → Type 0
IsTimer e = e.event.event_type ≡ InternalEventType.timer

push-IsTimer :
    (e : ScheduledInternalEvent) (queue : List ScheduledInternalEvent)
    → IsTimer e
    → All IsTimer queue
    → All IsTimer (push e queue)
unfolding push
push-IsTimer e [] h all = (h, tt)
push-IsTimer e (x ∷ queue) h all = elim (Bool-cases (later e x)) [
  | inl after ↦ rw (after) (all.0, push-IsTimer e queue h all.1)
  | inr before ↦ rw (before) (h, all)
]

pub schedule_timers-IsTimer :
    (timers : List StrategyTimer) (a b : EventLoop)
    → a.clock.now ≡ 0
    → All IsTimer a.scheduler.queue
    → schedule_timers timers a ≡ ok b
    → All IsTimer b.scheduler.queue
unfolding schedule_timers schedule_internal schedule
schedule_timers-IsTimer [] a b z all h =
    subst (λ x. All IsTimer x.scheduler.queue) (ok_eq a b h) all
schedule_timers-IsTimer (timer ∷ timers) a b z all h =
    let e = timer_scheduled a.scheduler.next_internal_sequence_id timer in
    let early : ltb timer.timestamp_ns a.clock.now ≡ false = rw (z) (ground arith) in
    schedule_timers-IsTimer timers (with_event a e) b z (push-IsTimer e a.scheduler.queue refl all)
      (rw (early) at h)
