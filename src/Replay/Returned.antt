-- ===== src/Replay/Returned.antt =====
-- The result of `ReplayEngine::run` of src/replay_engine.cpp: what it starts from, and what the end
-- of the event loop is made into.
use cpp_market_replay_engine.Base.{
  if◌then◌else◌, length, ok, ◌>>=◌, >>=-eq-ok, ok_eq, suc, ◌+◌, ◌-◌, ◌*◌, ◌≤◌, ◌≡◌, refl, ap, ◌∙◌,
  subst, Bool, true, false, List, [], ◌∷◌, map, arith,
}
use cpp_market_replay_engine.Types.{OrderStatus}
use cpp_market_replay_engine.Market.{MarketEvent}
use cpp_market_replay_engine.Portfolio.Mark.{mark_to_market}
use cpp_market_replay_engine.Portfolio.Accounts.{Accounts, apply_fills, apply_fills-Accounts}
use cpp_market_replay_engine.Execution.Fee.{make_fee_model}
use cpp_market_replay_engine.EventLoop.{make_event_loop, Running}
use cpp_market_replay_engine.EventLoop.Timely.{Ascends}
use cpp_market_replay_engine.EventLoop.Steps.{entry_time}
use cpp_market_replay_engine.EventLoop.Run.{market_entries, market_entry, Replayed}
use cpp_market_replay_engine.Latency.State.{
  LatencyExecutionConfig, LatencyAwareExecution, make_execution,
}
use cpp_market_replay_engine.Latency.Queue.{make_queue_fraction}
use cpp_market_replay_engine.QueueImbalance.{Doubles, make_queue_imbalance}
use cpp_market_replay_engine.Replay.Config.{
  ReplayConfig, is_scripted, make_scripted, ReplayStrategy, imbalance_config, make_strategy,
}
use cpp_market_replay_engine.Replay.Engine.{Replaying}
use cpp_market_replay_engine.Replay.Outcome.{
  empty_metrics, count_market_events, final_portfolio_mark, ReplayRunResult, start_replay,
  final_metrics, finish_replay,
}
use cpp_market_replay_engine.Replay.Budget.{unemitted-make_scripted, strategy_budget}
use cpp_market_replay_engine.Replay.Ends.{replay_budget}
use cpp_market_replay_engine.Replay.Accounted.{IsAccounted}
use cpp_market_replay_engine.Replay.Metrics.{
  with_status, updates_in, trades_in, count_order_statuses-Counts, count_market_events-counts,
  market_entries-shorter,
}

-- The result of a run over a merged history.
pub record IsReplay {D : Type 0} (config : ReplayConfig D) (history : List MarketEvent)
    (result : ReplayRunResult D) : Type 0 where
  -- The trace is in the order of time, and holds each historical event once and in order.
  pub ordered : Ascends entry_time 0 result.trace
  pub replayed : market_entries result.trace ≡ map market_entry history
  -- The portfolio holds the accounts of the fills, each applied once, and is what is marked.
  pub accounts : Accounts config.initial_cash result.fills result.portfolio
  pub marked : mark_to_market result.portfolio result.final_book ≡ ok result.final_mark
  -- The metrics count what they are named for; each intent has become one order.
  pub market_events : result.metrics.market_events_processed ≡ length history
  pub book_updates : result.metrics.book_updates_processed ≡ updates_in history
  pub trades : result.metrics.trades_processed ≡ trades_in history
  pub internal_events :
      result.metrics.market_events_processed + result.metrics.internal_events_processed
      ≡ length result.trace
  pub intents : result.metrics.strategy_intents ≡ length result.final_orders
  pub submitted : result.metrics.orders_submitted ≡ length result.final_orders
  pub filled : result.metrics.orders_filled ≡ with_status OrderStatus.filled result.final_orders
  pub partially_filled :
      result.metrics.orders_partially_filled
      ≡ with_status OrderStatus.partially_filled result.final_orders
  pub canceled :
      result.metrics.orders_canceled ≡ with_status OrderStatus.canceled result.final_orders
  pub rejected :
      result.metrics.orders_rejected ≡ with_status OrderStatus.rejected result.final_orders
  pub fills : result.metrics.fills ≡ length result.fills

module _ {D : Type 0} (doubles : Doubles D) (config : ReplayConfig D) where
  -- What a run starts from.
  pub record IsStart (history : List MarketEvent) (r : Running (Replaying D)) : Type 0 where
    pub same_loop : r.loop ≡ make_event_loop history
    pub same_trace : r.trace ≡ []
    pub accounted : IsAccounted config.initial_cash r.state
    pub budget :
        replay_budget doubles config.cancel_after_arrival r.state
        ≤ length config.scripted_intents * 2

  make_strategy_budget :
      (s : ReplayStrategy D)
      → make_strategy doubles config ≡ ok s
      → strategy_budget doubles s ≤ length config.scripted_intents
  unfolding make_strategy
  make_strategy_budget s e = by_type (is_scripted config.strategy_type) e
    where
      by_type :
          (scripted : Bool)
          → (if scripted
              then ok (ReplayStrategy.scripted (make_scripted config.scripted_intents))
              else (make_queue_imbalance doubles (imbalance_config doubles config) >>= λ s.
                  ok (ReplayStrategy.queue_imbalance s)))
            ≡ ok s
          → strategy_budget doubles s ≤ length config.scripted_intents
      by_type true e =
          subst (λ s. strategy_budget doubles s ≤ length config.scripted_intents) (ok_eq _ s e)
            (omega (arith, unemitted-make_scripted config.scripted_intents))
      by_type false e =
          let (t, _, e₁) =
            >>=-eq-ok (make_queue_imbalance doubles (imbalance_config doubles config)) _ e in
          subst (λ s. strategy_budget doubles s ≤ length config.scripted_intents) (ok_eq _ s e₁)
            (omega arith)

  make_execution_empty :
      (c : LatencyExecutionConfig) (x : LatencyAwareExecution)
      → make_execution c ≡ ok x
      → (x.orders ≡ []) × (x.fills ≡ [])
  unfolding make_execution
  make_execution_empty c x e =
      let (fraction, _, e₁) = >>=-eq-ok (make_queue_fraction c.queue_fraction_ppm) _ e in
      (ground arith, ground arith)

  pub start_replay-IsStart :
      (history : List MarketEvent) (r : Running (Replaying D))
      → start_replay doubles config history ≡ ok r
      → IsStart history r
  unfolding start_replay apply_fills
  start_replay-IsStart history r e =
      let (fee_model, _, e₁) = >>=-eq-ok (make_fee_model config.fee_rate_ppm) _ e in
      let (execution, made, e₂) = >>=-eq-ok (make_execution _) _ e₁ in
      let (strategy, chosen, e₃) = >>=-eq-ok (make_strategy doubles config) _ e₂ in
      let (no_orders, no_fills) = make_execution_empty _ execution made in
      let budget = make_strategy_budget strategy chosen in
      subst (IsStart history) (ok_eq _ r e₃) (record {
        same_loop = refl;
        same_trace = refl;
        accounted = record {
          applied = rw (no_fills) refl;
          count = rw (no_fills) refl;
          intents = rw (no_orders) refl;
        };
        budget = rw (no_orders) (omega (arith, budget));
      })

  -- The result that a replay to its end is made into.
  pub finish_replay-IsReplay :
      (history : List MarketEvent) (r : Running (Replaying D)) (result : ReplayRunResult D)
      → Replayed history r
      → IsAccounted config.initial_cash r.state
      → finish_replay doubles config history r ≡ ok result
      → IsReplay config history result
  unfolding finish_replay final_metrics
  finish_replay-IsReplay history r result done a e =
      let (mark, marked, e₁) = >>=-eq-ok (final_portfolio_mark r.state.portfolio r.book) _ e in
      let orders = r.state.execution.orders in
      let (updates, trades, no_filled, no_partial, no_canceled, no_rejected) =
        count_market_events-counts history empty_metrics in
      let counted =
        count_order_statuses-Counts orders (record (count_market_events history empty_metrics) {
          market_events_processed = length history;
          internal_events_processed = length r.trace - length history;
          strategy_intents = r.state.strategy_intents;
          orders_submitted = length orders;
          fills = length r.state.execution.fills;
        }) in
      let longer = market_entries-shorter r.trace in
      subst (IsReplay config history) (ok_eq _ result e₁) (record {
        ordered = done.ordered;
        replayed = done.replayed;
        accounts =
            apply_fills-Accounts config.initial_cash r.state.execution.fills r.state.portfolio
              a.applied;
        marked = marked;
        market_events = counted.market_events;
        book_updates = omega (arith, counted.book_updates, updates);
        trades = omega (arith, counted.trades, trades);
        internal_events = omega (
          arith,
          counted.market_events,
          counted.internal_events,
          longer,
          ap length done.replayed,
          length-map history,
        );
        intents = counted.intents ∙ a.intents;
        submitted = counted.submitted;
        filled = omega (arith, counted.filled, no_filled);
        partially_filled = omega (arith, counted.partially_filled, no_partial);
        canceled = omega (arith, counted.canceled, no_canceled);
        rejected = omega (arith, counted.rejected, no_rejected);
        fills = counted.fills;
      })
    where
      length-map : (events : List MarketEvent) → length (map market_entry events) ≡ length events
      length-map [] = refl
      length-map (x ∷ events) = ap suc (length-map events)
