-- ===== src/EventLoop/Run.antt =====
-- Whole runs of the event loop: that they end, and what they leave.
use native.Mathlib.Numerals.{unary_clauses}
use cpp_market_replay_engine.Base.{
  ◌*◌, length, get_elem?, take, ++-nil, All, All-append, drop, drop-get_elem?, ℕ, zero, suc, ◌+◌,
  ◌-◌, ◌≤◌, ◌<◌, ◌≡◌, refl, ap, ◌∙◌, subst, inl, inr, some, List, [], ◌∷◌, ◌++◌, map, arith,
}
use cpp_market_replay_engine.Types.{TimestampNs}
use cpp_market_replay_engine.Market.{MarketEvent, event_type, event_key}
use cpp_market_replay_engine.EventLoop.{
  TraceEventClass, EventTraceEntry, trace_market_event, EventLoop, Running,
}
use cpp_market_replay_engine.EventLoop.Timely.{
  Ascends, market_time, scheduled_time, pending_market, IsTimely, Schedules-Keeps,
}
use cpp_market_replay_engine.EventLoop.Steps.{entry_time, TookMarket, TookInternal, Stepped}
use native.Mathlib.Numerals.{unary_clauses}
use cpp_market_replay_engine.Base.{
  length, get_elem?, take, ++-nil, All, All-append, drop, drop-get_elem?, ℕ, zero, suc, ◌+◌, ◌-◌,
  ◌*◌, ◌≤◌, ◌<◌, ◌≡◌, refl, ap, ◌∙◌, subst, inl, inr, some, List, [], ◌∷◌, ◌++◌, map, arith,
}

-- The entries of the trace that stand for historical events.
abbrev pub keep_market :
    TraceEventClass → EventTraceEntry → List EventTraceEntry → List EventTraceEntry
keep_market TraceEventClass.market e es = e ∷ es
keep_market TraceEventClass.internal e es = es

abbrev pub market_entries : List EventTraceEntry → List EventTraceEntry
market_entries [] = []
market_entries (e ∷ es) = keep_market e.event_class e (market_entries es)

abbrev pub market_entry : MarketEvent → EventTraceEntry
market_entry e = trace_market_event (event_key e) (event_type e)

-- Where a run stands in the replay of `events`.
pub record IsOngoing {S : Type 0} (events : List MarketEvent) (r : Running S) : Type 0 where
  pub same : r.loop.historical_events ≡ events
  pub timely : IsTimely r.loop
  pub within : r.loop.next_market_index ≤ length events
  pub ordered : Ascends entry_time 0 r.trace
  pub past : All (λ e. e.timestamp_ns ≤ r.loop.clock.now) r.trace
  pub replayed : market_entries r.trace ≡ map market_entry (take r.loop.next_market_index events)

-- A replay that is over.
pub record Replayed {S : Type 0} (events : List MarketEvent) (r : Running S) : Type 0 where
  pub ordered : Ascends entry_time 0 r.trace
  pub replayed : market_entries r.trace ≡ map market_entry events
  pub drained : r.loop.scheduler.queue ≡ []

Ascends-snoc :
    (t : TimestampNs) (es : List EventTraceEntry) (e : EventTraceEntry)
    → t ≤ e.timestamp_ns
    → Ascends entry_time t es
    → All (λ x. x.timestamp_ns ≤ e.timestamp_ns) es
    → Ascends entry_time t (es ++ e ∷ [])
Ascends-snoc t [] e h a b = (h, tt)
Ascends-snoc t (x ∷ es) e h (at, rest) (b, bs) = (at, Ascends-snoc x.timestamp_ns es e b rest bs)

Ascends-below :
    (t u : TimestampNs) (es : List MarketEvent)
    → u ≤ t
    → Ascends market_time t es
    → Ascends market_time u es
Ascends-below t u [] h a = tt
Ascends-below t u (x ∷ es) h (at, rest) = (omega arith, rest)

get_elem?-within :
    (es : List MarketEvent) (i : ℕ) (e : MarketEvent) → get_elem? es i ≡ some e → i < length es
get_elem?-within [] i e h = cc
get_elem?-within (x ∷ es) zero e h = omega arith
get_elem?-within (x ∷ es) (suc i) e h = omega (arith, get_elem?-within es i e h)

All-later :
    (t u : TimestampNs) (es : List EventTraceEntry)
    → t ≤ u
    → All (λ x. x.timestamp_ns ≤ t) es
    → All (λ x. x.timestamp_ns ≤ u) es
All-later t u [] h a = tt
All-later t u (x ∷ es) h (a, rest) = (omega arith, All-later t u es h rest)

keep_market-append :
    (c : TraceEventClass) (e : EventTraceEntry) (es fs : List EventTraceEntry)
    → keep_market c e (es ++ fs) ≡ keep_market c e es ++ fs
keep_market-append TraceEventClass.market e es fs = refl
keep_market-append TraceEventClass.internal e es fs = refl

market_entries-append :
    (es fs : List EventTraceEntry)
    → market_entries (es ++ fs) ≡ market_entries es ++ market_entries fs
market_entries-append [] fs = refl
market_entries-append (x ∷ es) fs =
    ap (keep_market x.event_class x) (market_entries-append es fs)
    ∙ keep_market-append x.event_class x (market_entries es) (market_entries fs)

map-append :
    (es fs : List MarketEvent)
    → map market_entry (es ++ fs) ≡ map market_entry es ++ map market_entry fs
map-append [] fs = refl
map-append (x ∷ es) fs = ap (λ l. market_entry x ∷ l) (map-append es fs)

module _ {S : Type 0} (allowance : ℕ) (budget : S → ℕ) (events : List MarketEvent) where
  -- What a round has done when the handler is called.
  pub record Advanced (r r' : Running S) (mid : EventLoop) : Type 0 where
    pub timely : IsTimely mid
    pub within : mid.next_market_index ≤ length events
    pub replayed : market_entries r'.trace ≡ map market_entry (take mid.next_market_index events)

  TookMarket-Advanced :
      (r r' : Running S) (s : Stepped allowance budget r r')
      → IsOngoing events r
      → TookMarket r.loop s.mid s.entry
      → Advanced r r' s.mid
  TookMarket-Advanced r r' s o t =
      let i = r.loop.next_market_index in
      let found : get_elem? events i ≡ some t.event =
        subst (λ es. get_elem? es i ≡ some t.event) o.same t.is_next in
      let (left, taken) = drop-get_elem? events i t.event found in
      let ahead : Ascends market_time r.loop.clock.now (t.event ∷ drop (suc i) events) =
        subst (Ascends market_time r.loop.clock.now) (ap (drop i) o.same ∙ left) o.timely.market in
      record {
        timely = record {
          queue = rw (s.advanced, t.is_entry, t.kept) (t.first);
          market = rw (s.advanced, t.is_entry, t.moved, s.same_events, o.same) (ahead.1);
        };
        within = rw (t.moved) (get_elem?-within events i t.event found);
        replayed =
            rw (s.traced, t.moved, taken, t.is_entry, market_entries-append, map-append, o.replayed)
              refl;
      }

  TookInternal-Advanced :
      (r r' : Running S) (s : Stepped allowance budget r r')
      → IsOngoing events r
      → TookInternal r.loop s.mid s.entry
      → Advanced r r' s.mid
  TookInternal-Advanced r r' s o t =
      let first_left : Ascends scheduled_time r.loop.clock.now (t.event ∷ t.rest) =
        subst (Ascends scheduled_time r.loop.clock.now) t.is_next o.timely.queue in
      let later_left =
        Ascends-below _ t.event.timestamp_ns (pending_market r.loop) (omega arith) t.first in
      record {
        timely = record {
          queue = rw (s.advanced, t.is_entry, t.popped) (first_left.1);
          market = rw (s.advanced, t.is_entry, t.same_index, s.same_events) (later_left);
        };
        within = rw (t.same_index) (o.within);
        replayed =
            rw (s.traced, t.same_index, t.is_entry, market_entries-append, o.replayed) (++-nil _);
      }

  Advanced-IsOngoing :
      (r r' : Running S) (s : Stepped allowance budget r r')
      → IsOngoing events r
      → Advanced r r' s.mid
      → IsOngoing events r'
  Advanced-IsOngoing r r' s o a =
      let k = Schedules-Keeps a.timely.queue s.scheduled.schedules in
      let seen = All-later r.loop.clock.now s.entry.timestamp_ns r.trace s.ahead o.past in
      record {
        same = k.events ∙ s.same_events ∙ o.same;
        timely = record {
          queue = k.timely;
          market = rw (k.clock, k.events, k.index) (a.timely.market);
        };
        within = rw (k.index) (a.within);
        ordered = rw (s.traced) (Ascends-snoc 0 r.trace s.entry (omega arith) o.ordered seen);
        past =
            rw (s.traced, k.clock, s.advanced)
              (All-append _ r.trace (s.entry ∷ []) seen (omega arith, tt));
        replayed = rw (k.index) (a.replayed);
      }

  pub Stepped-Advanced :
      (r r' : Running S) (s : Stepped allowance budget r r')
      → IsOngoing events r
      → Advanced r r' s.mid
  Stepped-Advanced r r' s o = elim s.took [
    | inl (t, _) ↦ TookMarket-Advanced r r' s o t
    | inr (t, _) ↦ TookInternal-Advanced r r' s o t
  ]

  -- The events that may still come, for historical events that are left from `i` on.
  abbrev pub market_left : ℕ → ℕ
  market_left i = (length events - i) * suc allowance

  one_less : (i : ℕ) → i < length events → market_left i ≡ suc allowance + market_left (suc i)
  one_less i h = rw (fewer) (simp unary_clauses (omega arith))
    where
      fewer : length events - i ≡ suc (length events - suc i)
      fewer = omega arith

  -- A round makes progress: the next event is taken from the historical ones, or from the queue.
  pub Stepped-progress :
      (r r' : Running S) (s : Stepped allowance budget r r')
      → IsOngoing events r
      → market_left r'.loop.next_market_index + length s.mid.scheduler.queue + s.given
        < market_left r.loop.next_market_index + length r.loop.scheduler.queue
  Stepped-progress r r' s o =
      let a = Stepped-Advanced r r' s o in
      let k = Schedules-Keeps a.timely.queue s.scheduled.schedules in
      elim s.took [
        | inl (t, given) ↦
            rw (k.index, t.moved, t.kept, given)
              (omega (
                arith,
                one_less r.loop.next_market_index
                    (omega (arith, subst (λ i. i ≤ length events) t.moved a.within)),
              ))
        | inr (t, given) ↦ rw (k.index, t.same_index, t.popped, t.is_next, given) (omega arith)
      ]

  pub Stepped-IsOngoing :
      (r r' : Running S) → Stepped allowance budget r r' → IsOngoing events r → IsOngoing events r'
  Stepped-IsOngoing r r' s o = Advanced-IsOngoing r r' s o (Stepped-Advanced r r' s o)
