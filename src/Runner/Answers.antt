-- ===== src/Runner/Answers.antt =====
-- What the handlers of `run_strategy` of src/strategy.cpp keep: the timers that were taken and that are
-- left, and every relation that the answers of the strategy keep.
use mathlib.Core.List.{append_assoc}
use cpp_market_replay_engine.Base.{
  ++-nil, All, Result, err, ok, >>=-eq-ok, ok_eq, ℕ, ◌≡◌, refl, sym, ap, ◌∙◌, subst, true, some,
  List, [], ◌∷◌, ◌++◌, map,
}
use cpp_market_replay_engine.Market.{BookUpdateEvent, TradeEvent, MarketEvent, event_key}
use cpp_market_replay_engine.Strategy.{OrderIntent}
use cpp_market_replay_engine.OrderBook.{OrderBook}
use cpp_market_replay_engine.EventLoop.{
  EventTraceEntry, trace_internal_event, EventLoop, next_market_event, Running, update_book,
  market_step, internal_step, run,
}
use cpp_market_replay_engine.EventLoop.Scheduler.{advance_to, ScheduledInternalEvent, pop_next}
use cpp_market_replay_engine.EventLoop.Keeps.{run-holds}
use cpp_market_replay_engine.EventLoop.Steps.{pop_next_ok}
use cpp_market_replay_engine.EventLoop.Run.{market_entry}
use cpp_market_replay_engine.Runner.{Strategy}
use cpp_market_replay_engine.Runner.Plain.{
  Collected, collect, collect_market, collect_timer, collecting_handlers,
}
use cpp_market_replay_engine.Runner.Timers.{
  internal_entries, internal_entries-append, queued, IsTimer,
}

-- A relation between the state of a strategy, the intents that it has emitted and the entries of the
-- events that it was called for, which each of its answers keeps.
abbrev pub Relation : Type 0 → Type 1
Relation T = T → List OrderIntent → List EventTraceEntry → Type 0

pub record IsAnswering {T : Type 0} (strategy : Strategy T) (R : Relation T) : Type 0 where
  pub on_book :
      (e : BookUpdateEvent) (book : OrderBook) (s t : T) (intents more : List OrderIntent)
      (es : List EventTraceEntry)
      → R s intents es
      → strategy.on_book e book s ≡ ok (t, more)
      → R t (intents ++ more) (es ++ market_entry (MarketEvent.book_update e) ∷ [])
  pub on_trade :
      (e : TradeEvent) (book : OrderBook) (s t : T) (intents more : List OrderIntent)
      (es : List EventTraceEntry)
      → R s intents es
      → strategy.on_trade e book s ≡ ok (t, more)
      → R t (intents ++ more) (es ++ market_entry (MarketEvent.trade e) ∷ [])
  pub on_timer :
      (e : ScheduledInternalEvent) (book : OrderBook) (s t : T) (intents more : List OrderIntent)
      (es : List EventTraceEntry)
      → R s intents es
      → strategy.on_timer e.timestamp_ns e.event book s ≡ ok (t, more)
      → R t (intents ++ more) (es ++ trace_internal_event e ∷ [])

module _ {T : Type 0} (strategy : Strategy T) (R : Relation T)
    (answers : IsAnswering strategy R) where
  -- What a handler leaves: the loop as it was, and the relation.
  abbrev Left : EventLoop → EventLoop → Collected T → List EventTraceEntry → Type 0
  Left a b s es = (a ≡ b) × R s.strategy_state s.intents es

  collect-Left :
      (answer : Result (T × List OrderIntent)) (a b : EventLoop) (intents : List OrderIntent)
      (s : Collected T) (es : List EventTraceEntry)
      → ((t : T) (more : List OrderIntent) → answer ≡ ok (t, more) → R t (intents ++ more) es)
      → collect strategy answer a intents ≡ ok (b, s)
      → Left a b s es
  unfolding collect
  collect-Left (err e) a b intents s es keeps h = cc
  collect-Left (ok (t, more)) a b intents s es keeps h =
      subst (λ (x : EventLoop × Collected T). Left a x.0 x.1 es) (ok_eq _ (b, s) h)
        (refl, keeps t more refl)

  market-Left :
      (event : MarketEvent) (book : OrderBook) (a b : EventLoop) (s s' : Collected T)
      (es : List EventTraceEntry)
      → R s.strategy_state s.intents es
      → collect_market strategy event book a s ≡ ok (b, s')
      → Left a b s' (es ++ market_entry event ∷ [])
  market-Left (MarketEvent.book_update e) book a b s s' es held h =
      collect-Left (strategy.on_book e book s.strategy_state) a b s.intents s' _
        (λ t more k. answers.on_book e book s.strategy_state t s.intents more es held k) h
  market-Left (MarketEvent.trade e) book a b s s' es held h =
      collect-Left (strategy.on_trade e book s.strategy_state) a b s.intents s' _
        (λ t more k. answers.on_trade e book s.strategy_state t s.intents more es held k) h

  timer-Left :
      (e : ScheduledInternalEvent) (book : OrderBook) (a b : EventLoop) (s s' : Collected T)
      (es : List EventTraceEntry)
      → IsTimer e
      → R s.strategy_state s.intents es
      → collect_timer strategy e.event.event_type e book a s ≡ ok (b, s')
      → Left a b s' (es ++ trace_internal_event e ∷ [])
  timer-Left e book a b s s' es is_timer held h =
      collect-Left (strategy.on_timer e.timestamp_ns e.event book s.strategy_state) a b s.intents s'
        _ (λ t more k. answers.on_timer e book s.strategy_state t s.intents more es held k)
        (subst (λ type. collect_timer strategy type e book a s ≡ ok (b, s')) is_timer h)

  -- The scheduled events are timers, those that were taken and those that are left are all of them,
  -- and the relation holds of the trace.
  abbrev pub Holds : List EventTraceEntry → Running (Collected T) → Type 0
  Holds all r =
      (internal_entries r.trace ++ queued r.loop ≡ all)
      × All IsTimer r.loop.scheduler.queue
      × R r.state.strategy_state r.state.intents r.trace

  market_step-Holds :
      (all : List EventTraceEntry) (r r' : Running (Collected T))
      → Holds all r
      → market_step (collecting_handlers strategy) r ≡ ok r'
      → Holds all r'
  unfolding market_step
  market_step-Holds all r r' (taken, timers, held) h =
      let (event, _, h₁) = >>=-eq-ok (next_market_event r.loop) _ h in
      let (clock, _, h₂) =
        >>=-eq-ok (advance_to r.loop.clock (event_key event).timestamp_ns) _ h₁ in
      let (book, _, h₃) = >>=-eq-ok (update_book true r.book event) _ h₂ in
      let ((loop, state), handled, h₄) =
        >>=-eq-ok (collect_market strategy event book _ r.state) _ h₃ in
      let (same, kept) = market-Left event book _ loop r.state state r.trace held handled in
      subst (Holds all) (ok_eq _ r' h₄) (
        rw (internal_entries-append, ← same)
            (ap (λ es. es ++ queued r.loop) (++-nil (internal_entries r.trace)) ∙ taken),
        rw (← same) timers,
        kept,
      )

  internal_step-Holds :
      (all : List EventTraceEntry) (r r' : Running (Collected T))
      → Holds all r
      → internal_step (collecting_handlers strategy) r ≡ ok r'
      → Holds all r'
  unfolding internal_step
  internal_step-Holds all r r' (taken, timers, held) h =
      let ((event, scheduler), popped, h₁) = >>=-eq-ok (pop_next r.loop.scheduler) _ h in
      let (clock, _, h₂) = >>=-eq-ok (advance_to r.loop.clock event.timestamp_ns) _ h₁ in
      let ((loop, state), handled, h₃) =
        >>=-eq-ok (collect_timer strategy event.event.event_type event r.book _ r.state) _ h₂ in
      let first = pop_next_ok r.loop.scheduler event scheduler popped in
      let (is_timer, others) = subst (All IsTimer) first timers in
      let (same, kept) =
        timer-Left event r.book _ loop r.state state r.trace is_timer held handled in
      let left : queued r.loop
          ≡ trace_internal_event event ∷ map trace_internal_event scheduler.queue =
        ap (map trace_internal_event) first in
      subst (Holds all) (ok_eq _ r' h₃) (
        rw (internal_entries-append, ← same)
            (append_assoc (internal_entries r.trace) (trace_internal_event event ∷ []) _
              ∙ ap (λ es. internal_entries r.trace ++ es) (sym left)
              ∙ taken),
        rw (← same) others,
        kept,
      )

  pub run-Holds :
      (fuel : ℕ) (all : List EventTraceEntry) (r r' : Running (Collected T))
      → Holds all r
      → run (collecting_handlers strategy) fuel r ≡ some (ok r')
      → Holds all r'
  run-Holds fuel all r r' h ended =
      run-holds (collecting_handlers strategy) (Holds all)
        (record { market = market_step-Holds all; internal = internal_step-Holds all }) fuel r r' h
        ended
