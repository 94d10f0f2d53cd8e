-- ===== src/EventLoop/Traced.antt =====
-- The canonical trace of a run, and the text of a hash.
use cpp_market_replay_engine.Base.Fnv.{fnv1a64}
use cpp_market_replay_engine.Base.Text.{Text, codes}
use cpp_market_replay_engine.EventLoop.{
  trace_kind_for_internal, EventTraceEntry, trace_market_event, trace_internal_event,
  next_market_event, EventLoopHandlers, Running, update_book, market_step, internal_step, run,
}
use cpp_market_replay_engine.EventLoop.Trace.{
  is_market_kind, trace_fields, canonical_trace_line, canonical_trace, trace_hash,
}
use cpp_market_replay_engine.EventLoop.Keeps.{run-holds}
use cpp_market_replay_engine.EventLoop.Scheduler.{
  advance_to, InternalEventType, ScheduledInternalEvent, pop_next,
}
use cpp_market_replay_engine.Types.{EventKey}
use cpp_market_replay_engine.Market.{MarketEventType, event_type, event_key}
use cpp_market_replay_engine.Base.{
  All, All-append, ok, >>=-eq-ok, ok_eq, ℕ, ◌≡◌, refl, sym, subst, false, some, List, [], ◌∷◌, ◌++◌,
}

-- An entry whose class and kind belong together.
abbrev IsKinded : EventTraceEntry → Type 0
IsKinded entry = (text : Text) × (canonical_trace_line entry ≡ ok text)

market-IsKinded : (key : EventKey) (type : MarketEventType) → IsKinded (trace_market_event key type)
unfolding canonical_trace_line
market-IsKinded key MarketEventType.book_updates = (_, refl)
market-IsKinded key MarketEventType.trades = (_, refl)

internal_kind : (type : InternalEventType) → is_market_kind (trace_kind_for_internal type) ≡ false
internal_kind InternalEventType.timer = refl
internal_kind InternalEventType.order_arrival = refl
internal_kind InternalEventType.cancel_arrival = refl
internal_kind InternalEventType.user = refl

internal-IsKinded : (event : ScheduledInternalEvent) → IsKinded (trace_internal_event event)
unfolding canonical_trace_line
internal-IsKinded event =
    let entry = trace_internal_event event in
    (
      codes "I," ++ (trace_fields entry ++ (b',' ∷ entry.label)),
      rw (internal_kind event.event.event_type) refl,
    )

module _ {S : Type 0} (handlers : EventLoopHandlers S) where
  market_step-traced :
      (r r' : Running S)
      → All IsKinded r.trace
      → market_step handlers r ≡ ok r'
      → All IsKinded r'.trace
  unfolding market_step
  market_step-traced r r' p h =
      let (event, _, h₁) = >>=-eq-ok (next_market_event r.loop) _ h in
      let (clock, _, h₂) =
        >>=-eq-ok (advance_to r.loop.clock (event_key event).timestamp_ns) _ h₁ in
      let (book, _, h₃) = >>=-eq-ok (update_book handlers.updates_book r.book event) _ h₂ in
      let ((loop, state), _, h₄) = >>=-eq-ok (handlers.on_market event book _ r.state) _ h₃ in
      subst (λ (x : Running S). All IsKinded x.trace) (ok_eq _ r' h₄)
        (All-append IsKinded r.trace _ p (market-IsKinded (event_key event) (event_type event), tt))

  internal_step-traced :
      (r r' : Running S)
      → All IsKinded r.trace
      → internal_step handlers r ≡ ok r'
      → All IsKinded r'.trace
  unfolding internal_step
  internal_step-traced r r' p h =
      let ((event, scheduler), _, h₁) = >>=-eq-ok (pop_next r.loop.scheduler) _ h in
      let (clock, _, h₂) = >>=-eq-ok (advance_to r.loop.clock event.timestamp_ns) _ h₁ in
      let ((loop, state), _, h₃) = >>=-eq-ok (handlers.on_internal event r.book _ r.state) _ h₂ in
      subst (λ (x : Running S). All IsKinded x.trace) (ok_eq _ r' h₃)
        (All-append IsKinded r.trace _ p (internal-IsKinded event, tt))

  run-traced :
      (fuel : ℕ) (r r' : Running S)
      → All IsKinded r.trace
      → run handlers fuel r ≡ some (ok r')
      → All IsKinded r'.trace
  run-traced fuel r r' p h =
      run-holds handlers (λ x. All IsKinded x.trace)
        (record { market = market_step-traced; internal = internal_step-traced }) fuel r r' p h

canonical_trace_found :
    (trace : List EventTraceEntry)
    → All IsKinded trace
    → (text : Text) × (canonical_trace trace ≡ ok text) × (trace_hash trace ≡ ok (fnv1a64 text))
unfolding canonical_trace trace_hash
canonical_trace_found [] h = ([], refl, refl)
canonical_trace_found (entry ∷ trace) ((line, found), h) =
    let (text, more, _) = canonical_trace_found trace h in
    (line ++ (10 ∷ text), rw (found, more) refl, rw (found, more) refl)

-- Whatever the handlers do, a run that starts with an empty trace and ends with a result has a
-- canonical trace: no entry has a kind that is refused, and the hash is that of its text.
pub run-canonical_trace :
    {S : Type 0} (handlers : EventLoopHandlers S) (fuel : ℕ) (r r' : Running S)
    → r.trace ≡ []
    → run handlers fuel r ≡ some (ok r')
    → (text : Text) × (canonical_trace r'.trace ≡ ok text)
      × (trace_hash r'.trace ≡ ok (fnv1a64 text))
run-canonical_trace handlers fuel r r' empty h =
    canonical_trace_found r'.trace
      (run-traced handlers fuel r r' (subst (All IsKinded) (sym empty) tt) h)
