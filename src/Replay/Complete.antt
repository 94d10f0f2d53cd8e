-- ===== src/Replay/Complete.antt =====
-- How `ReplayEngine::run` of src/replay_engine.cpp ends: with a replay of the merged history, or with
-- the exception of one of its calls.
use cpp_market_replay_engine.Base.{
  length, Error, Result, err, ok, >>=-eq-err, ℕ, ◌+◌, ◌*◌, ◌<◌, ◌≡◌, refl, sym, ap, subst, inl, inr,
  Option, some, List, ◌++◌, arith,
}
use cpp_market_replay_engine.Market.{MarketEvent}
use cpp_market_replay_engine.OrderBook.{OrderBook}
use cpp_market_replay_engine.Portfolio.{Portfolio}
use cpp_market_replay_engine.Portfolio.Mark.{mark_to_market}
use cpp_market_replay_engine.EventLoop.{EventLoop, make_event_loop, EventLoopHandlers, Running, run}
use cpp_market_replay_engine.EventLoop.Timely.{Ascends, market_time, Schedules}
use cpp_market_replay_engine.EventLoop.Run.{Replayed}
use cpp_market_replay_engine.EventLoop.Refusals.{Refused}
use cpp_market_replay_engine.EventLoop.Ends.{Ended, run_from-Ended}
use cpp_market_replay_engine.EventLoop.Keeps.{run-keeps}
use cpp_market_replay_engine.QueueImbalance.{Doubles}
use cpp_market_replay_engine.Replay.{merge_events}
use cpp_market_replay_engine.Replay.Merge.{merge_events-length, IsMerged, merge_events-IsMerged}
use cpp_market_replay_engine.Replay.Config.{ReplayConfig}
use cpp_market_replay_engine.Replay.Engine.{Replaying, replay_handlers}
use cpp_market_replay_engine.Replay.Outcome.{
  final_portfolio_mark, ReplayRunResult, start_replay, finish_replay, finish_run, replay_events,
  replay_feeds,
}
use cpp_market_replay_engine.Replay.Ends.{replay_budget, replay_handlers-IsScheduling}
use cpp_market_replay_engine.Replay.Accounted.{IsAccounted, replay_handlers-IsKeeping}
use cpp_market_replay_engine.Replay.Returned.{
  IsReplay, IsStart, start_replay-IsStart, finish_replay-IsReplay,
}

-- How a run ends.
pub data ReplayEnded {D : Type 0} (doubles : Doubles D) (config : ReplayConfig D)
    (book_updates trades : List MarketEvent) : Option (Result (ReplayRunResult D)) → Type 0 where
  over :
      (history : List MarketEvent) (result : ReplayRunResult D)
      → IsMerged book_updates trades history
      → IsReplay config history result
      → ReplayEnded doubles config book_updates trades (some (ok result))
  not_merged :
      (e : Error)
      → merge_events book_updates trades ≡ err e
      → ReplayEnded doubles config book_updates trades (some (err e))
  not_started :
      (e : Error) (history : List MarketEvent)
      → start_replay doubles config history ≡ err e
      → ReplayEnded doubles config book_updates trades (some (err e))
  refused :
      (e : Error)
      → Refused (replay_handlers doubles config.cancel_after_arrival) e
      → ReplayEnded doubles config book_updates trades (some (err e))
  not_marked :
      (e : Error) (p : Portfolio) (book : OrderBook)
      → mark_to_market p book ≡ err e
      → ReplayEnded doubles config book_updates trades (some (err e))

module _ {D : Type 0} (doubles : Doubles D) (config : ReplayConfig D) where
  -- How a run from a start ends.
  run-Ended :
      (fuel : ℕ) (history : List MarketEvent) (r : Running (Replaying D))
      → Ascends market_time 0 history
      → IsStart doubles config history r
      → length history * 3 + length config.scripted_intents * 2 < fuel
      → Ended
          (replay_handlers doubles config.cancel_after_arrival)
          history
          (run (replay_handlers doubles config.cancel_after_arrival) fuel r)
  run-Ended fuel history r sorted start enough =
      let handlers = replay_handlers doubles config.cancel_after_arrival in
      let idle : length r.loop.scheduler.queue ≡ 0 =
        ap (λ (l : EventLoop). length l.scheduler.queue) start.same_loop in
      subst (λ t. Ended handlers history (run handlers fuel (record r { trace = t })))
        (sym start.same_trace)
        (run_from-Ended handlers 2 (replay_budget doubles config.cancel_after_arrival)
          (replay_handlers-IsScheduling doubles config.cancel_after_arrival) history fuel r.loop
          r.book r.state sorted
          (subst (Schedules (make_event_loop history)) (sym start.same_loop) Schedules.nothing)
          (omega (arith, idle, start.budget, enough)))

  finished-ReplayEnded :
      (book_updates trades history : List MarketEvent) (r : Running (Replaying D))
      → IsMerged book_updates trades history
      → Replayed history r
      → IsAccounted config.initial_cash r.state
      → ReplayEnded doubles config book_updates trades
          (some (finish_replay doubles config history r))
  unfolding finish_replay
  finished-ReplayEnded book_updates trades history r merged done a =
      by_result (finish_replay doubles config history r) refl
    where
      refusal :
          (e : Error)
          → finish_replay doubles config history r ≡ err e
          → mark_to_market r.state.portfolio r.book ≡ err e
      refusal e h = elim (>>=-eq-err (final_portfolio_mark r.state.portfolio r.book) _ h) [
        | inl m ↦ m
        | inr (mark, _, g) ↦ absurd (cc)
      ]

      by_result :
          (result : Result (ReplayRunResult D))
          → finish_replay doubles config history r ≡ result
          → ReplayEnded doubles config book_updates trades (some result)
      by_result (ok result) e =
          ReplayEnded.over history result merged
            (finish_replay-IsReplay doubles config history r result done a e)
      by_result (err x) e = ReplayEnded.not_marked x r.state.portfolio r.book (refusal x e)

  run-ReplayEnded :
      (book_updates trades history : List MarketEvent) (r : Running (Replaying D)) (fuel : ℕ)
      → IsMerged book_updates trades history
      → IsStart doubles config history r
      → length history * 3 + length config.scripted_intents * 2 < fuel
      → ReplayEnded doubles config book_updates trades (
          finish_run doubles config history
            (run (replay_handlers doubles config.cancel_after_arrival) fuel r))
  run-ReplayEnded book_updates trades history r fuel merged start enough =
      by_end (run handlers fuel r) refl (run-Ended fuel history r merged.ascends start enough)
    where
      handlers : EventLoopHandlers (Replaying D)
      handlers = replay_handlers doubles config.cancel_after_arrival

      by_end :
          (o : Option (Result (Running (Replaying D))))
          → run handlers fuel r ≡ o
          → Ended handlers history o
          → ReplayEnded doubles config book_updates trades (finish_run doubles config history o)
      by_end _ e (Ended.over last done) =
          finished-ReplayEnded book_updates trades history last merged done (
            run-keeps handlers (IsAccounted config.initial_cash)
              (replay_handlers-IsKeeping doubles config.cancel_after_arrival config.initial_cash)
              fuel r last start.accounted e)
      by_end _ e (Ended.refused x why) = ReplayEnded.refused x why

-- For all feeds and every configuration: with fuel above three for each event and two for each
-- scripted intent the run ends. It ends with the exception of the merge, of the set-up, of a book
-- update, of a handler or of the final mark; or with a result whose trace replays the merged history
-- in the order of time, whose portfolio holds the accounts of the returned fills from the initial
-- cash on, each applied once, whose mark is that portfolio's at the final book, and whose metrics
-- count the events, the orders by their final status, the fills, and one order for each intent.
pub replay_feeds-ReplayEnded :
    {D : Type 0} (doubles : Doubles D) (config : ReplayConfig D)
    (book_updates trades : List MarketEvent) (fuel : ℕ)
    → length (book_updates ++ trades) * 3 + length config.scripted_intents * 2 < fuel
    → ReplayEnded doubles config book_updates trades
        (replay_feeds doubles fuel config book_updates trades)
unfolding replay_feeds replay_events
replay_feeds-ReplayEnded {D} doubles config book_updates trades fuel enough =
    by_merge (merge_events book_updates trades) refl
  where
    by_start :
        (history : List MarketEvent)
        → IsMerged book_updates trades history
        → length history ≡ length (book_updates ++ trades)
        → (r : Result (Running (Replaying D))) → start_replay doubles config history ≡ r
        → ReplayEnded doubles config book_updates trades (elim r [
          | err e ↦ some (err e)
          | ok r ↦
              finish_run doubles config history
                (run (replay_handlers doubles config.cancel_after_arrival) fuel r)
        ])
    by_start history merged same (err x) e = ReplayEnded.not_started x history e
    by_start history merged same (ok r) e =
        run-ReplayEnded doubles config book_updates trades history r fuel merged
          (start_replay-IsStart doubles config history r e) (omega (arith, same, enough))

    by_merge :
        (m : Result (List MarketEvent))
        → merge_events book_updates trades ≡ m
        → ReplayEnded doubles config book_updates trades
            (elim m [ err e ↦ some (err e) | ok events ↦ replay_events doubles fuel config events ])
    by_merge (err x) e = ReplayEnded.not_merged x e
    by_merge (ok history) e =
        by_start history (merge_events-IsMerged book_updates trades history e)
          (merge_events-length book_updates trades history e) (start_replay doubles config history)
          refl
