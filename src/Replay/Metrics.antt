-- ===== src/Replay/Metrics.antt =====
-- What the metrics of `ReplayEngine::run` (src/replay_engine.cpp) count.
use cpp_market_replay_engine.Base.{
  length, ℕ, ◌+◌, ◌≤◌, ◌≡◌, refl, ◌∙◌, Bool, true, false, not, List, [], ◌∷◌, arith,
}
use cpp_market_replay_engine.Types.{OrderStatus, same_status}
use cpp_market_replay_engine.Market.{MarketEvent, MarketEventType, event_type}
use cpp_market_replay_engine.Order.{Order}
use cpp_market_replay_engine.EventLoop.{TraceEventClass, EventTraceEntry}
use cpp_market_replay_engine.EventLoop.Run.{keep_market, market_entries}
use cpp_market_replay_engine.Latency.Growth.{one_if}
use cpp_market_replay_engine.Replay.Engine.{ReplayMetrics}
use cpp_market_replay_engine.Replay.Outcome.{
  count_event_type, count_market_events, count_status, count_order_statuses,
}

-- The orders of a status, and the events of a kind.
abbrev pub with_status : OrderStatus → List Order → ℕ
with_status status [] = 0
with_status status (o ∷ orders) = one_if (same_status o.status status) + with_status status orders

abbrev is_update : MarketEventType → Bool
is_update MarketEventType.book_updates = true
is_update MarketEventType.trades = false

abbrev pub updates_in : List MarketEvent → ℕ
updates_in [] = 0
updates_in (e ∷ events) = one_if (is_update (event_type e)) + updates_in events

abbrev pub trades_in : List MarketEvent → ℕ
trades_in [] = 0
trades_in (e ∷ events) = one_if (not (is_update (event_type e))) + trades_in events

pub updates_and_trades :
    (events : List MarketEvent) → updates_in events + trades_in events ≡ length events
updates_and_trades [] = refl
updates_and_trades (e ∷ events) =
    omega (arith, updates_and_trades events, one (is_update (event_type e)))
  where
    one : (b : Bool) → one_if b + one_if (not b) ≡ 1
    one true = refl
    one false = refl

-- The four counts of final statuses; the other metrics are those of `m`.
pub record CountsStatuses (orders : List Order) (m m' : ReplayMetrics) : Type 0 where
  pub filled : m'.orders_filled ≡ m.orders_filled + with_status OrderStatus.filled orders
  pub partially_filled :
      m'.orders_partially_filled
      ≡ m.orders_partially_filled + with_status OrderStatus.partially_filled orders
  pub canceled : m'.orders_canceled ≡ m.orders_canceled + with_status OrderStatus.canceled orders
  pub rejected : m'.orders_rejected ≡ m.orders_rejected + with_status OrderStatus.rejected orders
  pub market_events : m'.market_events_processed ≡ m.market_events_processed
  pub book_updates : m'.book_updates_processed ≡ m.book_updates_processed
  pub trades : m'.trades_processed ≡ m.trades_processed
  pub internal_events : m'.internal_events_processed ≡ m.internal_events_processed
  pub intents : m'.strategy_intents ≡ m.strategy_intents
  pub submitted : m'.orders_submitted ≡ m.orders_submitted
  pub fills : m'.fills ≡ m.fills

count_status_one :
    (o : Order) (m : ReplayMetrics) → CountsStatuses (o ∷ []) m (count_status o.status m)
count_status_one o m = by_status o.status
  where
    by_status :
        (status : OrderStatus)
        → CountsStatuses (record o { status = status } ∷ []) m (count_status status m)
    by_status OrderStatus.new = ground arith
    by_status OrderStatus.pending = ground arith
    by_status OrderStatus.acknowledged = ground arith
    by_status OrderStatus.partially_filled = ground arith
    by_status OrderStatus.filled = ground arith
    by_status OrderStatus.canceled = ground arith
    by_status OrderStatus.rejected = ground arith

pub count_order_statuses-Counts :
    (orders : List Order) (m : ReplayMetrics)
    → CountsStatuses orders m (count_order_statuses orders m)
unfolding count_order_statuses
count_order_statuses-Counts [] m = ground arith
count_order_statuses-Counts (o ∷ orders) m =
    let one = count_status_one o m in
    let rest = count_order_statuses-Counts orders (count_status o.status m) in
    record {
      filled = omega (arith, one.filled, rest.filled);
      partially_filled = omega (arith, one.partially_filled, rest.partially_filled);
      canceled = omega (arith, one.canceled, rest.canceled);
      rejected = omega (arith, one.rejected, rest.rejected);
      market_events = rest.market_events ∙ one.market_events;
      book_updates = rest.book_updates ∙ one.book_updates;
      trades = rest.trades ∙ one.trades;
      internal_events = rest.internal_events ∙ one.internal_events;
      intents = rest.intents ∙ one.intents;
      submitted = rest.submitted ∙ one.submitted;
      fills = rest.fills ∙ one.fills;
    }

pub count_market_events-counts :
    (events : List MarketEvent) (m : ReplayMetrics)
    → let m' = count_market_events events m in
      (m'.book_updates_processed ≡ m.book_updates_processed + updates_in events)
      × (m'.trades_processed ≡ m.trades_processed + trades_in events)
      × (m'.orders_filled ≡ m.orders_filled)
      × (m'.orders_partially_filled ≡ m.orders_partially_filled)
      × (m'.orders_canceled ≡ m.orders_canceled)
      × (m'.orders_rejected ≡ m.orders_rejected)
unfolding count_market_events
count_market_events-counts [] m = (omega arith, omega arith, refl, refl, refl, refl)
count_market_events-counts (MarketEvent.book_update e ∷ events) m =
    let (u, t, a, b, c, d) =
      count_market_events-counts events (count_event_type MarketEventType.book_updates m) in
    (omega (arith, u), omega (arith, t), a, b, c, d)
count_market_events-counts (MarketEvent.trade e ∷ events) m =
    let (u, t, a, b, c, d) =
      count_market_events-counts events (count_event_type MarketEventType.trades m) in
    (omega (arith, u), omega (arith, t), a, b, c, d)

pub market_entries-shorter : (es : List EventTraceEntry) → length (market_entries es) ≤ length es
market_entries-shorter [] = omega arith
market_entries-shorter (e ∷ es) =
    omega (arith, market_entries-shorter es, at_most_one e.event_class e (market_entries es))
  where
    at_most_one :
        (c : TraceEventClass) (e : EventTraceEntry) (es : List EventTraceEntry)
        → length (keep_market c e es) ≤ length es + 1
    at_most_one TraceEventClass.market e es = omega arith
    at_most_one TraceEventClass.internal e es = omega arith
