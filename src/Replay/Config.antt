-- ===== src/Replay/Config.antt =====
-- The configuration of a replay (include/replay/replay_engine.hpp, src/replay_engine.cpp), its
-- validation, and the scripted strategy. A path is its text.
use cpp_market_replay_engine.Market.{FeedParserConfig, BookUpdateEvent, TradeEvent}
use cpp_market_replay_engine.Base.{
  if◌then◌else◌, ℤ, pos, leb_ℤ, nonpositive_order_quantity, thresholds_swapped,
  empty_book_updates_path, empty_trades_path, empty_output_directory, unknown_strategy_type,
  missing_strategy_limit_price, missing_scripted_intents, Result, ok, throw_if, ◌>>=◌, ◌>>◌, ℕ,
  Bool, true, false, not, ◌&&◌, Option, none, List, [], ◌∷◌,
}
use cpp_market_replay_engine.Base.Text.{Text, codes, same_text, is_empty_text}
use cpp_market_replay_engine.Types.{
  TimestampNs, PriceTicks, Quantity, Side, OrderType, EventKey, same_key, LatencyNs,
}
use cpp_market_replay_engine.Types.Decimal.{validate_tick_size}
use cpp_market_replay_engine.OrderBook.{OrderBook}
use cpp_market_replay_engine.Strategy.{OrderIntent}
use cpp_market_replay_engine.Runner.{Strategy}
use cpp_market_replay_engine.Execution.Fee.{make_fee_model}
use cpp_market_replay_engine.Latency.Queue.{make_queue_fraction}
use cpp_market_replay_engine.QueueImbalance.{
  Doubles, QueueImbalanceConfig, QueueImbalanceStrategy, make_queue_imbalance,
  queue_imbalance_strategy,
}

pub record ScriptedIntentConfig : Type 0 where
  pub trigger_key : EventKey
  pub side : Side
  pub order_type : OrderType
  pub quantity : Quantity
  pub limit_price_ticks : Option PriceTicks

pub record ReplayConfig (D : Type 0) : Type 0 where
  pub book_updates_path : Text
  pub trades_path : Text
  pub output_directory : Text
  pub feed_parser : FeedParserConfig
  pub strategy_type : Text
  pub queue_imbalance_depth_levels : ℕ
  pub queue_imbalance_buy_threshold : D
  pub queue_imbalance_sell_threshold : D
  pub strategy_order_quantity : Quantity
  pub strategy_order_type : OrderType
  pub strategy_limit_price_ticks : Option PriceTicks
  pub order_latency : LatencyNs
  pub cancel_after_arrival : Option LatencyNs
  pub queue_fraction_ppm : ℤ
  pub fee_rate_ppm : ℤ
  pub initial_cash : ℤ
  pub scripted_intents : List ScriptedIntentConfig

abbrev pub is_scripted : Text → Bool
is_scripted strategy_type = same_text strategy_type (codes "scripted")

abbrev pub is_queue_imbalance : Text → Bool
is_queue_imbalance strategy_type = same_text strategy_type (codes "queue_imbalance")

abbrev no_intents : List ScriptedIntentConfig → Bool
no_intents [] = true
no_intents (i ∷ intents) = false

abbrev lacks_limit : OrderType → Option PriceTicks → Bool
lacks_limit OrderType.limit none = true
lacks_limit _ _ = false

module _ {D : Type 0} (doubles : Doubles D) where
  unfoldable pub validate_replay_config : ReplayConfig D → Result (Unit {0})
  validate_replay_config config = do
    validate_tick_size config.feed_parser.tick_size
    throw_if (is_empty_text config.book_updates_path) empty_book_updates_path
    throw_if (is_empty_text config.trades_path) empty_trades_path
    throw_if (is_empty_text config.output_directory) empty_output_directory
    throw_if
        (not (is_queue_imbalance config.strategy_type) && not (is_scripted config.strategy_type))
        unknown_strategy_type
    throw_if (leb_ℤ config.strategy_order_quantity (pos 0)) nonpositive_order_quantity
    throw_if
        (lacks_limit config.strategy_order_type config.strategy_limit_price_ticks
          && is_queue_imbalance config.strategy_type)
        missing_strategy_limit_price
    throw_if
        (doubles.is_above config.queue_imbalance_sell_threshold
          config.queue_imbalance_buy_threshold)
        thresholds_swapped
    _ ← make_queue_fraction config.queue_fraction_ppm
    _ ← make_fee_model config.fee_rate_ppm
    throw_if (is_scripted config.strategy_type && no_intents config.scripted_intents)
        missing_scripted_intents

-- `ScriptedReplayStrategy`: its intents, each with its mark in `emitted_`.
pub record ScriptedIntent : Type 0 where
  pub config : ScriptedIntentConfig
  pub emitted : Bool

abbrev pub make_scripted : List ScriptedIntentConfig → List ScriptedIntent
make_scripted [] = []
make_scripted (c ∷ intents) = record { config = c; emitted = false } ∷ make_scripted intents

abbrev pub scripted_intent : ScriptedIntentConfig → TimestampNs → OrderIntent
scripted_intent c timestamp_ns = record {
  side = c.side;
  quantity = c.quantity;
  order_type = c.order_type;
  limit_price_ticks = c.limit_price_ticks;
  decision_timestamp_ns = timestamp_ns;
}

-- The loop of `emit_for_key`: the marks it leaves, and the intents it emits.
unfoldable pub emit_for_key :
    EventKey → List ScriptedIntent → List ScriptedIntent × List OrderIntent
emit_for_key key [] = ([], [])
emit_for_key key (i ∷ intents) =
    let (marked, emitted) = emit_for_key key intents in
    if not i.emitted && same_key i.config.trigger_key key
    then (record i { emitted = true } ∷ marked, scripted_intent i.config key.timestamp_ns ∷ emitted)
    else (i ∷ marked, emitted)

abbrev pub scripted_strategy : Strategy (List ScriptedIntent)
scripted_strategy = record {
  on_book = λ event book intents. ok (emit_for_key event.key intents);
  on_trade = λ event book intents. ok (emit_for_key event.key intents);
  on_timer = λ t event book intents. ok (intents, []);
}

-- The object that `make_strategy` returns: one of the two classes.
pub data ReplayStrategy (D : Type 0) : Type 0 where
  scripted : List ScriptedIntent → ReplayStrategy D
  queue_imbalance : QueueImbalanceStrategy D → ReplayStrategy D

module _ {D : Type 0} (doubles : Doubles D) where
  abbrev pub imbalance_config : ReplayConfig D → QueueImbalanceConfig D
  imbalance_config config = record {
    depth_levels = config.queue_imbalance_depth_levels;
    buy_threshold = config.queue_imbalance_buy_threshold;
    sell_threshold = config.queue_imbalance_sell_threshold;
    order_quantity = config.strategy_order_quantity;
    order_type = config.strategy_order_type;
    limit_price_ticks = config.strategy_limit_price_ticks;
  }

  unfoldable pub make_strategy : ReplayConfig D → Result (ReplayStrategy D)
  make_strategy config =
      if is_scripted config.strategy_type
      then ok (ReplayStrategy.scripted (make_scripted config.scripted_intents))
      else (make_queue_imbalance doubles (imbalance_config config) >>= λ s.
          ok (ReplayStrategy.queue_imbalance s))

  abbrev pub keep_scripted :
      List ScriptedIntent × List OrderIntent → Result (ReplayStrategy D × List OrderIntent)
  keep_scripted (s, intents) = ok (ReplayStrategy.scripted s, intents)

  abbrev pub keep_imbalance :
      QueueImbalanceStrategy D × List OrderIntent → Result (ReplayStrategy D × List OrderIntent)
  keep_imbalance (s, intents) = ok (ReplayStrategy.queue_imbalance s, intents)

  -- The virtual calls: each goes to the class of the object.
  unfoldable pub on_book_event :
      BookUpdateEvent → OrderBook → ReplayStrategy D → Result (ReplayStrategy D × List OrderIntent)
  on_book_event event book (ReplayStrategy.scripted s) =
      scripted_strategy.on_book event book s >>= keep_scripted
  on_book_event event book (ReplayStrategy.queue_imbalance s) =
      (queue_imbalance_strategy doubles).on_book event book s >>= keep_imbalance

  unfoldable pub on_trade_event :
      TradeEvent → OrderBook → ReplayStrategy D → Result (ReplayStrategy D × List OrderIntent)
  on_trade_event event book (ReplayStrategy.scripted s) =
      scripted_strategy.on_trade event book s >>= keep_scripted
  on_trade_event event book (ReplayStrategy.queue_imbalance s) =
      (queue_imbalance_strategy doubles).on_trade event book s >>= keep_imbalance

  abbrev pub replay_strategy : Strategy (ReplayStrategy D)
  replay_strategy = record {
    on_book = on_book_event;
    on_trade = on_trade_event;
    on_timer = λ t event book s. ok (s, []);
  }
