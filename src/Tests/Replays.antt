-- ===== src/Tests/Replays.antt =====
-- Tests of the replay engine and of its strategies.
use cpp_market_replay_engine.Market.{PriceFieldFormat, MarketEvent}
use cpp_market_replay_engine.Base.{
  ℤ, pos, negsuc, pos_part, ◌+ℤ◌, ◌-ℤ◌, ◌*ℤ◌, quot, ltb_ℤ, Result, ok, ℕ, ◌≡◌, refl, Option, none,
  some, List, [], ◌∷◌, arith,
}
use cpp_market_replay_engine.Execution.Fee.{
  make_fee_model, checked_notional, checked_fee_numerator, checked_fee_from_128, calculate_fee,
}
use cpp_market_replay_engine.Latency.Queue.{
  make_queue_fraction, checked_queue_ahead_from_128, initial_queue_ahead,
}
use cpp_market_replay_engine.Portfolio.Mark.{
  mark_mid_x2, lot_unrealized_x2, unrealized_x2, mark_at, mark_to_market,
}
use cpp_market_replay_engine.Portfolio.Lots.{
  checked_to_accounting_amount, checked_to_accounting_x2, checked_accounting_add,
  checked_accounting_sub, checked_accounting_x2, net_quantity, match_lots,
}
use cpp_market_replay_engine.OrderBook.{
  update_levels, apply, quantity_at, bid_quantity_at, ask_quantity_at, spread_ticks,
  mid_price_x2_ticks, is_crossed,
}
use cpp_market_replay_engine.Base.Text.{codes, digits}
use cpp_market_replay_engine.EventLoop.{
  schedule_internal, should_process_market_next, market_step, internal_step, step, run,
}
use cpp_market_replay_engine.EventLoop.Scheduler.{advance_to, push, schedule}
use cpp_market_replay_engine.Execution.{
  checked_add_latency, create_order_from_intent, create_fill, make_fill,
}
use cpp_market_replay_engine.Latency.{
  visible_quantity_at_limit, rest_limit_order, settle_arrival, process_limit_order_arrival,
  execute_arrival, process_order_arrival, process_cancel_arrival, process_trade,
}
use cpp_market_replay_engine.Latency.State.{
  make_execution, submit_order_intent, deactivate_active_limit_order, request_cancel,
}
use cpp_market_replay_engine.Latency.Trade.{
  find_order, after_passive_fill, fill_order, fill_passive, consume_queue, match_active, match_all,
  keep_open,
}
use cpp_market_replay_engine.Replay.{
  event_less, insert_event, stable_sort, has_duplicate_key, merge_events,
}
use cpp_market_replay_engine.Replay.Config.{
  ReplayConfig, emit_for_key, make_strategy, on_book_event, on_trade_event,
}
use cpp_market_replay_engine.Replay.Engine.{
  emit_counted, apply_from, apply_new_fills, is_active_resting_order, cancel_after, answer,
  settle_fills, replay_market, replay_arrival, replay_internal,
}
use cpp_market_replay_engine.Replay.Outcome.{
  count_market_events, count_order_statuses, ReplayRunResult, start_replay, final_metrics,
  finish_replay, replay_events, replay_feeds,
}
use cpp_market_replay_engine.Types.{
  Side, OrderType, same_key, key_less, validate_price_ticks, validate_quantity,
}
use cpp_market_replay_engine.OrderBook.Apply.{IsValid}
use cpp_market_replay_engine.QueueImbalance.{Doubles, QueueImbalanceStrategy, on_book_update}
use cpp_market_replay_engine.QueueImbalance.Signal.{Signals, on_book_update-Signals}
use cpp_market_replay_engine.Replay.Complete.{ReplayEnded, replay_feeds-ReplayEnded}
use cpp_market_replay_engine.Tests.Data.{quoted_book, key_at, update_at, trade_at}
use cpp_market_replay_engine.Latency.Arrival.{cross_depth}
use cpp_market_replay_engine.Order.{
  make_order, remaining_quantity, transition_to, record_fill_quantity,
}
use cpp_market_replay_engine.OrderBook.PriceMap.{assign, erase, find}
use cpp_market_replay_engine.Portfolio.{
  validate_fill_for_accounting, checked_notional_amount, inventory, apply_buy_lot, apply_sell_lot,
  record_ledger_entry, settle, apply_fill,
}

-- Floating-point numbers as fractions.
abbrev pub Fraction : Type 0
Fraction = ℤ × ℤ

abbrev pub fractions : Doubles Fraction
fractions = record {
  from_int64 = λ n. (n, pos 1);
  divide = λ (a, b) (c, d). (a *ℤ d, b *ℤ c);
  is_above = λ (a, b) (c, d). ltb_ℤ (c *ℤ b) (a *ℤ d);
}

abbrev imbalance : QueueImbalanceStrategy Fraction
imbalance = record {
  config = record {
    depth_levels = 2;
    buy_threshold = (pos 1, pos 20);
    sell_threshold = (negsuc 0, pos 20);
    order_quantity = pos 3;
    order_type = OrderType.market;
    limit_price_ticks = none;
  };
  last_queue_imbalance = none;
}

quoted_book-IsValid : IsValid quoted_book
quoted_book-IsValid = ground arith

on_book_update-Signals_example :
    Signals fractions imbalance.config quoted_book 10
      (on_book_update fractions (update_at 10 0 Side.buy 100 5) quoted_book imbalance)
on_book_update-Signals_example =
    on_book_update-Signals fractions (update_at 10 0 Side.buy 100 5) quoted_book imbalance
      quoted_book-IsValid

abbrev pub config : ReplayConfig Fraction
config = record {
  book_updates_path = codes "book.csv";
  trades_path = codes "trades.csv";
  output_directory = codes "out";
  feed_parser = record { tick_size = codes "0.01"; price_format = PriceFieldFormat.ticks };
  strategy_type = codes "scripted";
  queue_imbalance_depth_levels = 1;
  queue_imbalance_buy_threshold = (pos 1, pos 4);
  queue_imbalance_sell_threshold = (negsuc 0, pos 4);
  strategy_order_quantity = pos 1;
  strategy_order_type = OrderType.market;
  strategy_limit_price_ticks = none;
  order_latency = record { count = 5 };
  cancel_after_arrival = some (record { count = 5 });
  queue_fraction_ppm = pos 500000;
  fee_rate_ppm = pos 2500;
  initial_cash = pos 100000;
  scripted_intents =
      record {
        trigger_key = key_at 10 0;
        side = Side.buy;
        order_type = OrderType.limit;
        quantity = pos 2;
        limit_price_ticks = some (pos 100);
      }
      ∷ [];
}

abbrev pub book_feed : List MarketEvent
book_feed =
    MarketEvent.book_update (update_at 10 0 Side.buy 100 5)
    ∷ MarketEvent.book_update (update_at 30 0 Side.sell 102 4)
    ∷ []

abbrev pub trade_feed : List MarketEvent
trade_feed = MarketEvent.trade (trade_at 18 0 100 4 (some Side.sell)) ∷ []

-- The limit order arrives at 15 behind a queue of 3 (rounded half of 5), the trade at 18 of 4 fills
-- 1 of it, and the cancel at 20 takes back the rest.
replay_feeds-ReplayEnded_example :
    ReplayEnded fractions config book_feed trade_feed
      (replay_feeds fractions 20 config book_feed trade_feed)
replay_feeds-ReplayEnded_example =
    replay_feeds-ReplayEnded fractions config book_feed trade_feed 20 (omega arith)

abbrev outcome : Option (Result (ReplayRunResult Fraction)) → List ℕ
outcome (some (ok r)) =
    r.metrics.orders_canceled
    ∷ r.metrics.fills
    ∷ r.metrics.strategy_intents
    ∷ r.metrics.internal_events_processed
    ∷ pos_part r.portfolio.cash
    ∷ []
outcome _ = []

-- One order, canceled after one fill, by one arrival and one cancel; the fill costs 100.
run_outcome :
    outcome (replay_feeds fractions 20 config book_feed trade_feed) ≡ 1 ∷ 1 ∷ 1 ∷ 2 ∷ 99900 ∷ []
unfolding replay_feeds replay_events start_replay finish_replay final_metrics count_order_statuses
    count_market_events merge_events stable_sort insert_event event_less has_duplicate_key same_key
    key_less run step market_step internal_step should_process_market_next advance_to
    schedule_internal schedule push replay_market replay_internal replay_arrival answer settle_fills
    emit_counted apply_from apply_new_fills is_active_resting_order cancel_after on_book_event
    on_trade_event emit_for_key make_strategy make_execution make_fee_model make_queue_fraction
    submit_order_intent request_cancel deactivate_active_limit_order process_order_arrival
    process_cancel_arrival process_trade execute_arrival process_limit_order_arrival settle_arrival
    rest_limit_order visible_quantity_at_limit find_order match_all match_active consume_queue
    fill_passive fill_order after_passive_fill keep_open create_fill make_fill
    create_order_from_intent make_order transition_to record_fill_quantity remaining_quantity
    validate_quantity validate_price_ticks apply update_levels assign erase find quantity_at
    bid_quantity_at ask_quantity_at cross_depth apply_fill validate_fill_for_accounting
    checked_notional_amount checked_to_accounting_amount settle apply_buy_lot apply_sell_lot
    match_lots record_ledger_entry inventory net_quantity mark_to_market mark_at initial_queue_ahead
    calculate_fee checked_add_latency checked_accounting_add checked_accounting_sub
    checked_accounting_x2 checked_to_accounting_x2 mid_price_x2_ticks spread_ticks unrealized_x2
    digits quot ◌+ℤ◌ ◌-ℤ◌ ◌*ℤ◌ checked_queue_ahead_from_128 checked_notional checked_fee_numerator
    checked_fee_from_128 mark_mid_x2 is_crossed lot_unrealized_x2
run_outcome = refl
