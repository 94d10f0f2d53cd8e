-- ===== src/EventLoop/Refusals.antt =====
-- Where a round of the event loop fails: only in the order book and in the handlers.
use cpp_market_replay_engine.Base.{
  if◌then◌else◌, Error, Result, ok, err, ◌>>=◌, >>=-eq-err, ◌≤◌, ◌≡◌, inl, inr, Bool, true, false,
  arith,
}
use cpp_market_replay_engine.Types.{TimestampNs}
use cpp_market_replay_engine.Market.{MarketEvent}
use cpp_market_replay_engine.OrderBook.{OrderBook}
use cpp_market_replay_engine.EventLoop.{
  EventLoop, next_market_event, should_process_market_next, EventLoopHandlers, Running, update_book,
  has_work, market_step, internal_step, step,
}
use cpp_market_replay_engine.EventLoop.Scheduler.{
  SimulationClock, advance_to, ScheduledInternalEvent, pop_next,
}
use cpp_market_replay_engine.EventLoop.Steps.{pop_next_ok, Found, left_cases}
use cpp_market_replay_engine.EventLoop.Timely.{market_time, IsTimely}

-- The exception of a book update or of a handler.
pub data Refused {S : Type 0} (handlers : EventLoopHandlers S) (e : Error) : Type 0 where
  by_book :
      (book : OrderBook) (event : MarketEvent)
      → update_book handlers.updates_book book event ≡ err e
      → Refused handlers e
  by_on_market :
      (event : MarketEvent) (book : OrderBook) (loop : EventLoop) (s : S)
      → handlers.on_market event book loop s ≡ err e
      → Refused handlers e
  by_on_internal :
      (event : ScheduledInternalEvent) (book : OrderBook) (loop : EventLoop) (s : S)
      → handlers.on_internal event book loop s ≡ err e
      → Refused handlers e

advance_to-accepts :
    (c : SimulationClock) (t : TimestampNs) (e : Error) → c.now ≤ t → advance_to c t ≡ err e → ⊥
unfolding advance_to
advance_to-accepts c t e h f = ground arith

-- A choice is made, and it is one that can be carried out.
market_chosen :
    (loop : EventLoop)
    → should_process_market_next loop ≡ ok true
    → Found loop.historical_events loop.next_market_index
unfolding should_process_market_next
market_chosen loop c = elim (left_cases loop.historical_events loop.next_market_index) [
  | inl (nil, over) ↦ absurd (ground arith)
  | inr f ↦ f
]

internal_chosen :
    (loop : EventLoop) (e : Error)
    → has_work loop ≡ true
    → should_process_market_next loop ≡ ok false
    → pop_next loop.scheduler ≡ err e
    → ⊥
unfolding should_process_market_next
internal_chosen loop e w c p = elim (left_cases loop.historical_events loop.next_market_index) [
  | inl (nil, over) ↦ ground arith
  | inr f ↦ ground (arith, f.within, f.found)
]

choice_made : (loop : EventLoop) (e : Error) → should_process_market_next loop ≡ err e → ⊥
unfolding should_process_market_next
choice_made loop e c = elim (left_cases loop.historical_events loop.next_market_index) [
  | inl (nil, over) ↦ ground arith
  | inr f ↦ ground (arith, f.within, f.found)
]

-- What follows the handler returns, so an exception there is the handler's.
handler_err :
    {A B : Type 0} {e : Error} (m : Result A) (f : A → B)
    → (m >>= λ a. ok (f a)) ≡ err e
    → m ≡ err e
handler_err (ok a) f h = cc
handler_err (err x) f h = cc

module _ {S : Type 0} (handlers : EventLoopHandlers S) (r : Running S) (v : IsTimely r.loop)
    (e : Error) where
  market_step-Refused :
      Found r.loop.historical_events r.loop.next_market_index
      → market_step handlers r ≡ err e
      → Refused handlers e
  unfolding market_step
  market_step-Refused f h = elim (>>=-eq-err (next_market_event r.loop) _ h) [
    | inl none_left ↦ absurd (ground (arith, f.found))
    | inr (event, found, h₁) ↦
        elim (>>=-eq-err (advance_to r.loop.clock (market_time event)) _ h₁) [
          | inl backward ↦ absurd (
              advance_to-accepts r.loop.clock (market_time event) e
                (ground (arith, f.found, f.left, v.market)) backward)
          | inr (clock, _, h₂) ↦
              elim (>>=-eq-err (update_book handlers.updates_book r.book event) _ h₂) [
                | inl bad ↦ Refused.by_book r.book event bad
                | inr (book, _, h₃) ↦ Refused.by_on_market event book _ r.state (handler_err _ _ h₃)
              ]
        ]
  ]

  internal_step-Refused :
      has_work r.loop ≡ true
      → should_process_market_next r.loop ≡ ok false
      → internal_step handlers r ≡ err e
      → Refused handlers e
  unfolding internal_step
  internal_step-Refused w c h = elim (>>=-eq-err (pop_next r.loop.scheduler) _ h) [
    | inl nothing_left ↦ absurd (internal_chosen r.loop e w c nothing_left)
    | inr ((event, scheduler), popped, h₁) ↦
        elim (>>=-eq-err (advance_to r.loop.clock event.timestamp_ns) _ h₁) [
          | inl backward ↦ absurd (
              advance_to-accepts r.loop.clock event.timestamp_ns e
                (ground (arith, v.queue, pop_next_ok r.loop.scheduler event scheduler popped))
                backward)
          | inr (clock, _, h₂) ↦ Refused.by_on_internal event r.book _ r.state (handler_err _ _ h₂)
        ]
  ]

  pub step-Refused : has_work r.loop ≡ true → step handlers r ≡ err e → Refused handlers e
  unfolding step
  step-Refused w h = elim (>>=-eq-err (should_process_market_next r.loop) _ h) [
    | inl undecided ↦ absurd (choice_made r.loop e undecided)
    | inr (choice, chosen, h₁) ↦ step_cases choice chosen h₁
  ]
    where
      step_cases :
          (choice : Bool)
          → should_process_market_next r.loop ≡ ok choice
          → (if choice then market_step handlers r else internal_step handlers r) ≡ err e
          → Refused handlers e
      step_cases true c h₁ = market_step-Refused (market_chosen r.loop c) h₁
      step_cases false c h₁ = internal_step-Refused w c h₁
