-- ===== src/EventLoop/Keeps.antt =====
-- Invariants of the state of the handlers over a run of src/event_loop.cpp.
use cpp_market_replay_engine.Base.{
  if◌then◌else◌, Result, err, ok, >>=-eq-ok, ok_eq, ℕ, zero, suc, ◌≡◌, refl, subst, Bool, true,
  false, some,
}
use cpp_market_replay_engine.Market.{MarketEvent, event_key}
use cpp_market_replay_engine.OrderBook.{OrderBook}
use cpp_market_replay_engine.EventLoop.{
  EventLoop, next_market_event, should_process_market_next, EventLoopHandlers, Running, update_book,
  has_work, market_step, internal_step, step, run,
}
use cpp_market_replay_engine.EventLoop.Scheduler.{
  advance_to, ScheduledInternalEvent, next, pop_next,
}

-- A property of a run that each kind of round keeps.
pub record IsKept {S : Type 0} (handlers : EventLoopHandlers S) (P : Running S → Type 0)
    : Type 0 where
  pub market : (r r' : Running S) → P r → market_step handlers r ≡ ok r' → P r'
  pub internal : (r r' : Running S) → P r → internal_step handlers r ≡ ok r' → P r'

module _ {S : Type 0} (handlers : EventLoopHandlers S) (P : Running S → Type 0)
    (holds : IsKept handlers P) where
  step-holds : (r r' : Running S) → P r → step handlers r ≡ ok r' → P r'
  unfolding step
  step-holds r r' p h =
      let (choice, _, h₁) = >>=-eq-ok (should_process_market_next r.loop) _ h in by_choice choice h₁
    where
      by_choice :
          (choice : Bool)
          → (if choice then market_step handlers r else internal_step handlers r) ≡ ok r'
          → P r'
      by_choice true e = holds.market r r' p e
      by_choice false e = holds.internal r r' p e

  -- What every round keeps holds at the end of a run.
  pub run-holds : (fuel : ℕ) (r r' : Running S) → P r → run handlers fuel r ≡ some (ok r') → P r'
  unfolding run
  run-holds zero r r' p h = cc
  run-holds (suc fuel) r r' p h =
      by_work (has_work r.loop) h (λ next q g. run-holds fuel next r' q g)
    where
      by_step :
          (n : Result (Running S))
          → step handlers r ≡ n
          → elim n [ ok after ↦ run handlers fuel after | err e ↦ some (err e) ] ≡ some (ok r')
          → ((next : Running S) → P next → run handlers fuel next ≡ some (ok r') → P r')
          → P r'
      by_step (ok next) e h rest = rest next (step-holds r next p e) h
      by_step (err x) e h rest = cc

      by_work :
          (b : Bool)
          → elim b [
            | false ↦ some (ok r)
            | true ↦ elim (step handlers r) [
              | ok after ↦ run handlers fuel after
              | err e ↦ some (err e)
            ]
          ]
            ≡ some (ok r')
          → ((next : Running S) → P next → run handlers fuel next ≡ some (ok r') → P r')
          → P r'
      by_work false h rest = let same : r ≡ r' = cc in subst P same p
      by_work true h rest = by_step (step handlers r) refl h rest

-- Handlers that keep a property of their state.
pub record IsKeeping {S : Type 0} (handlers : EventLoopHandlers S) (P : S → Type 0) : Type 0 where
  pub on_market :
      (event : MarketEvent) (book : OrderBook) (loop loop' : EventLoop) (s s' : S)
      → P s
      → handlers.on_market event book loop s ≡ ok (loop', s')
      → P s'
  pub on_internal :
      (event : ScheduledInternalEvent) (book : OrderBook) (loop loop' : EventLoop) (s s' : S)
      → P s
      → handlers.on_internal event book loop s ≡ ok (loop', s')
      → P s'

module _ {S : Type 0} (handlers : EventLoopHandlers S) (P : S → Type 0)
    (keeps : IsKeeping handlers P) where
  market_step-keeps : (r r' : Running S) → P r.state → market_step handlers r ≡ ok r' → P r'.state
  unfolding market_step
  market_step-keeps r r' p h =
      let (event, _, h₁) = >>=-eq-ok (next_market_event r.loop) _ h in
      let (clock, _, h₂) =
        >>=-eq-ok (advance_to r.loop.clock (event_key event).timestamp_ns) _ h₁ in
      let (book, _, h₃) = >>=-eq-ok (update_book handlers.updates_book r.book event) _ h₂ in
      let ((loop, state), handled, h₄) = >>=-eq-ok (handlers.on_market event book _ r.state) _ h₃ in
      subst (λ (x : Running S). P x.state) (ok_eq _ r' h₄)
        (keeps.on_market event book _ loop r.state state p handled)

  internal_step-keeps :
      (r r' : Running S) → P r.state → internal_step handlers r ≡ ok r' → P r'.state
  unfolding internal_step
  internal_step-keeps r r' p h =
      let ((event, scheduler), _, h₁) = >>=-eq-ok (pop_next r.loop.scheduler) _ h in
      let (clock, _, h₂) = >>=-eq-ok (advance_to r.loop.clock event.timestamp_ns) _ h₁ in
      let ((loop, state), handled, h₃) =
        >>=-eq-ok (handlers.on_internal event r.book _ r.state) _ h₂ in
      subst (λ (x : Running S). P x.state) (ok_eq _ r' h₃)
        (keeps.on_internal event r.book _ loop r.state state p handled)

  -- What every call of a handler keeps holds at the end of a run.
  pub run-keeps :
      (fuel : ℕ) (r r' : Running S) → P r.state → run handlers fuel r ≡ some (ok r') → P r'.state
  run-keeps fuel r r' p h =
      run-holds handlers (λ x. P x.state)
        (record { market = market_step-keeps; internal = internal_step-keeps }) fuel r r' p h
