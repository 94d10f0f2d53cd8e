-- ===== src/Replay/Accounted.antt =====
-- That the portfolio of `ReplayEngine::run` (src/replay_engine.cpp) is at all times what the fills
-- of the execution make of the initial cash, and that each intent has become one order.

use cpp_market_replay_engine.Portfolio.{Portfolio, make_portfolio, apply_fill}
use cpp_market_replay_engine.Latency.Changes.{
  process_trade-Changes, process_order_arrival-Arrived, process_cancel_arrival-Changes,
}
use cpp_market_replay_engine.Base.{
  length, length-append, drop, ℤ, Result, err, ok, >>=-eq-ok, ok_eq, ℕ, ◌+◌, ◌≡◌, refl, sym, ap,
  ◌∙◌, subst, Option, List, [], ◌∷◌, ◌++◌, arith,
}
use cpp_market_replay_engine.Types.{LatencyNs}
use cpp_market_replay_engine.Fill.{Fill}
use cpp_market_replay_engine.Portfolio.Accounts.{apply_fills}
use cpp_market_replay_engine.EventLoop.Scheduler.{InternalEventType, ScheduledInternalEvent, next}
use cpp_market_replay_engine.Latency.State.{LatencyAwareExecution}
use cpp_market_replay_engine.QueueImbalance.{Doubles}
use cpp_market_replay_engine.Replay.Engine.{
  Replaying, emit_counted, apply_from, apply_new_fills, cancel_after, answer, settle_fills,
  replay_market, replay_arrival, replay_internal_type, replay_internal, replay_handlers,
}
use cpp_market_replay_engine.Market.{MarketEvent}
use cpp_market_replay_engine.OrderBook.{OrderBook}
use cpp_market_replay_engine.Strategy.{OrderIntent}
use cpp_market_replay_engine.EventLoop.{EventLoop}
use cpp_market_replay_engine.EventLoop.Keeps.{IsKeeping}
use cpp_market_replay_engine.Latency.{process_order_arrival, process_cancel_arrival, process_trade}
use cpp_market_replay_engine.Replay.Config.{ReplayStrategy}
use cpp_market_replay_engine.Replay.Budget.{emit_counted-Emits}

apply_from-apply_fills :
    (fs : List Fill) (n m : ℕ) (p q : Portfolio)
    → apply_from fs n p ≡ ok (m, q)
    → (m ≡ n + length fs) × (apply_fills p fs ≡ ok q)
unfolding apply_from apply_fills
apply_from-apply_fills [] n m p q e =
    let (same_n, same_p) : (n ≡ m) × (p ≡ q) = (cc, cc) in (omega (arith, same_n), ap ok same_p)
apply_from-apply_fills (f ∷ fs) n m p q e =
    let (next, applied, e₁) = >>=-eq-ok (apply_fill p f) _ e in
    let (count, rest) = apply_from-apply_fills fs (n + 1) m next q e₁ in
    (omega (arith, count), rw (applied) rest)

apply_fills-append :
    (fs gs : List Fill) (p q r : Portfolio)
    → apply_fills p fs ≡ ok q
    → apply_fills q gs ≡ ok r
    → apply_fills p (fs ++ gs) ≡ ok r
unfolding apply_fills
apply_fills-append [] gs p q r h g = rw (ok_eq p q h) g
apply_fills-append (f ∷ fs) gs p q r h g =
    let (next, applied, rest) = >>=-eq-ok (apply_fill p f) _ h in
    rw (applied) (apply_fills-append fs gs next q r rest g)

drop-length : (fs gs : List Fill) → drop (length fs) (fs ++ gs) ≡ gs
drop-length [] gs = refl
drop-length (f ∷ fs) gs = drop-length fs gs

-- The portfolio is what the fills make of the cash `c`, none is applied twice or left out, and the
-- counted intents are the orders.
pub record IsAccounted (c : ℤ) {D : Type 0} (s : Replaying D) : Type 0 where
  pub applied : apply_fills (make_portfolio c) s.execution.fills ≡ ok s.portfolio
  pub count : s.applied_fill_count ≡ length s.execution.fills
  pub intents : s.strategy_intents ≡ length s.execution.orders

module _ {D : Type 0} (doubles : Doubles D) (cancel : Option LatencyNs) (c : ℤ) where
  settle_fills-IsAccounted :
      (x : LatencyAwareExecution) (s s' : Replaying D) (new : List Fill)
      → IsAccounted c s
      → length x.orders ≡ length s.execution.orders
      → x.fills ≡ s.execution.fills ++ new
      → settle_fills doubles cancel x s ≡ ok s'
      → IsAccounted c s'
  unfolding settle_fills apply_new_fills
  settle_fills-IsAccounted x s s' new a orders fills e =
      let fs = s.execution.fills in
      let ((count, p), settles, e₁) =
        >>=-eq-ok (apply_new_fills x s.applied_fill_count s.portfolio) _ e in
      let left : drop s.applied_fill_count x.fills ≡ new =
        ap (λ n. drop n x.fills) a.count ∙ ap (drop (length fs)) fills ∙ drop-length fs new in
      let (counted, portfolio) =
        apply_from-apply_fills (drop s.applied_fill_count x.fills) s.applied_fill_count count
          s.portfolio p settles in
      let result = ok_eq _ s' e₁ in
      subst (IsAccounted c) result (record {
        applied =
            ap (apply_fills (make_portfolio c)) fills
            ∙ apply_fills-append fs new (make_portfolio c) s.portfolio p a.applied
                (rw (← left) portfolio);
        count =
            counted
            ∙ ap (λ l. s.applied_fill_count + length l) left
            ∙ ap (λ n. n + length new) a.count
            ∙ sym (length-append fs new)
            ∙ ap length (sym fills);
        intents = a.intents ∙ sym orders;
      })

  answer-IsAccounted :
      (response : Result (ReplayStrategy D × List OrderIntent)) (a b : EventLoop)
      (s s' : Replaying D)
      → IsAccounted c s
      → answer doubles cancel response a s ≡ ok (b, s')
      → IsAccounted c s'
  unfolding answer
  answer-IsAccounted (err e) a b s s' h e' = cc
  answer-IsAccounted (ok (t, intents)) a b s s' h e =
      let ((y, mid, count), sent, e₁) =
        >>=-eq-ok (emit_counted intents s.execution a s.strategy_intents) _ e in
      let done = emit_counted-Emits intents s.execution y a mid s.strategy_intents count sent in
      let result : record s { strategy = t; execution = y; strategy_intents = count } ≡ s' = cc in
      subst (IsAccounted c) result (record {
        applied = rw (done.fills) h.applied;
        count = h.count ∙ ap length (sym done.fills);
        intents = done.counted ∙ ap (λ n. n + length intents) h.intents ∙ sym done.orders;
      })

  replay_market-IsAccounted :
      (event : MarketEvent) (book : OrderBook) (a b : EventLoop) (s s' : Replaying D)
      → IsAccounted c s
      → replay_market doubles cancel event book a s ≡ ok (b, s')
      → IsAccounted c s'
  unfolding replay_market
  replay_market-IsAccounted (MarketEvent.book_update e) book a b s s' h e' =
      answer-IsAccounted _ a b s s' h e'
  replay_market-IsAccounted (MarketEvent.trade e) book a b s s' h e' =
      let (x, traded, h₁) = >>=-eq-ok (process_trade s.execution e) _ e' in
      let (settled, settles, h₂) = >>=-eq-ok (settle_fills doubles cancel x s) _ h₁ in
      let changes = process_trade-Changes s.execution x e traded in
      answer-IsAccounted _ a b settled s'
        (settle_fills-IsAccounted x s settled changes.new h changes.count changes.fills settles) h₂

  replay_internal_type-IsAccounted :
      (type : InternalEventType) (event : ScheduledInternalEvent) (book : OrderBook)
      (a b : EventLoop) (s s' : Replaying D)
      → IsAccounted c s
      → replay_internal_type doubles cancel type event book a s ≡ ok (b, s')
      → IsAccounted c s'
  unfolding replay_arrival
  replay_internal_type-IsAccounted InternalEventType.order_arrival event book a b s s' h e =
      let ((result, x), arrived, h₁) =
        >>=-eq-ok (process_order_arrival s.execution event book) _ e in
      let (settled, settles, h₂) = >>=-eq-ok (settle_fills doubles cancel x s) _ h₁ in
      let (next, _, h₃) = >>=-eq-ok (cancel_after cancel result.order x a) _ h₂ in
      let g = process_order_arrival-Arrived s.execution x event book result arrived in
      let same : settled ≡ s' = cc in
      subst (IsAccounted c) same
        (settle_fills-IsAccounted x s settled result.fills h g.count g.fills settles)
  replay_internal_type-IsAccounted InternalEventType.cancel_arrival event book a b s s' h e =
      let (x, canceled, h₁) = >>=-eq-ok (process_cancel_arrival s.execution event) _ e in
      let (g, fills) = process_cancel_arrival-Changes s.execution x event canceled in
      let result : record s { execution = x } ≡ s' = cc in
      subst (IsAccounted c) result (record {
        applied = rw (fills) h.applied;
        count = h.count ∙ ap length (sym fills);
        intents = h.intents ∙ sym g.count;
      })
  replay_internal_type-IsAccounted InternalEventType.timer event book a b s s' h e =
      answer-IsAccounted _ a b s s' h e
  replay_internal_type-IsAccounted InternalEventType.user event book a b s s' h e =
      let same : s ≡ s' = cc in subst (IsAccounted c) same h

  pub replay_handlers-IsKeeping : IsKeeping (replay_handlers doubles cancel) (IsAccounted c)
  unfolding replay_internal
  replay_handlers-IsKeeping = record {
    on_market = replay_market-IsAccounted;
    on_internal = λ event book a b s s' h e.
        replay_internal_type-IsAccounted event.event.event_type event book a b s s' h e;
  }
