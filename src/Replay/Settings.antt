-- ===== src/Replay/Settings.antt =====
-- The text of a configuration in src/replay_engine.cpp: `parse_key_value_file` on the lines that
-- std::getline yields, and `load_replay_config`. The std::map is an association list. What std::stod
-- reads, and the arithmetic of double, are parameters.
pub mod States
use cpp_market_replay_engine.Base.Text.{Text, codes, decimal, same_text, is_empty_text}
use cpp_market_replay_engine.Types.{PriceTicks, LatencyNs, from_nanoseconds, validate_price_ticks}
use cpp_market_replay_engine.Types.Names.{parse_order_type}
use cpp_market_replay_engine.Market.{PriceFieldFormat}
use cpp_market_replay_engine.Feed.Lines.{trim}
use cpp_market_replay_engine.QueueImbalance.{Doubles}
use cpp_market_replay_engine.Replay.Config.{ReplayConfig, validate_replay_config}
use cpp_market_replay_engine.Replay.Script.{parse_uint64, parse_int64, parse_scripted_intents}
use cpp_market_replay_engine.Base.{
  ◌==◌, if◌then◌else◌, length, ℤ, integer_required, missing_equals, empty_key, duplicate_config_key,
  missing_config_key, malformed_bool, malformed_double, unknown_price_format,
  queue_fraction_out_of_range, Result, err, ok, ◌>>=◌, ◌>>◌, ℕ, ◌+◌, Bool, true, false, not, ◌||◌,
  Option, none, some, List, [], ◌∷◌,
}

-- A setting: the key and the value, which are trimmed.
abbrev pub Values : Type 0
Values = List (Text × Text)

abbrev pub is_comment : Text → Bool
is_comment [] = true
is_comment (ch ∷ text) = ch == b'#'

unfoldable pub is_blank_or_comment : Text → Bool
is_blank_or_comment line = is_comment (trim line)

-- What stands before the first '=', and behind it.
unfoldable pub cut_at_equals : Text → Option (Text × Text)
cut_at_equals [] = none
cut_at_equals (ch ∷ text) =
    let rest = cut_at_equals text in if ch == b'=' then some ([], text) else add_to_key ch rest
  where
    add_to_key : ℕ → Option (Text × Text) → Option (Text × Text)
    add_to_key c none = none
    add_to_key c (some (key, value)) = some (c ∷ key, value)

-- The key and the value of a line.
abbrev pub setting_of : ℕ → Option (Text × Text) → Result (Text × Text)
setting_of line_number none = err (missing_equals line_number)
setting_of line_number (some (key, value)) =
    if is_empty_text (trim key) then err (empty_key line_number) else ok (trim key, trim value)

unfoldable pub parse_setting : ℕ → Text → Result (Text × Text)
parse_setting line_number line = setting_of line_number (cut_at_equals line)

-- `values.find`
unfoldable pub find_value : Text → Values → Option Text
find_value key [] = none
find_value key ((k, v) ∷ values) =
    let rest = find_value key values in if same_text k key then some v else rest

abbrev pub emplace_where : Option Text → Text → Text → Values → Result Values
emplace_where (some v) key value values = err (duplicate_config_key key)
emplace_where none key value values = ok ((key, value) ∷ values)

-- `values.emplace`, which leaves a value that is there.
unfoldable pub emplace : Text → Text → Values → Result Values
emplace key value values = emplace_where (find_value key values) key value values

-- The loop, on the lines that are left.
unfoldable pub parse_key_values : ℕ → Values → List Text → Result Values
parse_key_values line_number values [] = ok values
parse_key_values line_number values (line ∷ lines) =
    let skipped = parse_key_values (line_number + 1) values lines in
    if is_blank_or_comment line then skipped else do
      (key, value) ← parse_setting (line_number + 1) line
      more ← emplace key value values
      parse_key_values (line_number + 1) more lines

unfoldable pub parse_key_value_file : List Text → Result Values
parse_key_value_file lines = parse_key_values 0 [] lines

abbrev pub present : Text → Option Text → Result Text
present key none = err (missing_config_key key)
present key (some value) = if is_empty_text value then err (missing_config_key key) else ok value

unfoldable pub required_value : Values → Text → Result Text
required_value values key = present key (find_value key values)

abbrev pub or_default : Text → Option Text → Text
or_default default_value none = default_value
or_default default_value (some value) = value

unfoldable pub optional_value : Values → Text → Text → Text
optional_value values key default_value = or_default default_value (find_value key values)

unfoldable pub parse_bool : Text → Text → Result Bool
parse_bool text field =
    if same_text text (codes "true") || same_text text (codes "1")
    then ok true
    else if same_text text (codes "false") || same_text text (codes "0")
    then ok false
    else err (malformed_bool field)

unfoldable pub parse_price_format : Text → Result PriceFieldFormat
parse_price_format text =
    if same_text text (codes "decimal")
    then ok PriceFieldFormat.decimal_price
    else if same_text text (codes "ticks")
    then ok PriceFieldFormat.ticks
    else err unknown_price_format

unfoldable pub parse_latency_ns_config : Text → Text → Result LatencyNs
parse_latency_ns_config text field = parse_int64 text field >>= λ value. from_nanoseconds value

-- What std::stod reads, with the number of characters, or nothing where it throws; the tests of a
-- queue fraction; and its conversion to parts per million.
pub record Readings (D : Type 0) : Type 0 where
  pub stod : Text → Option (D × ℕ)
  pub is_below_zero : D → Bool
  pub is_above_one : D → Bool
  pub to_ppm : D → ℤ

module _ {D : Type 0} (readings : Readings D) where
  abbrev pub whole_double : Option (D × ℕ) → ℕ → Text → Result D
  whole_double none size field = err (malformed_double field)
  whole_double (some (value, parsed)) size field =
      if not (parsed == size) then err (malformed_double field) else ok value

  unfoldable pub parse_double_value : Text → Text → Result D
  parse_double_value text field =
      if is_empty_text text
      then err (integer_required field)
      else whole_double (readings.stod text) (length text) field

  abbrev pub parse_cancel_after : Text → Result (Option LatencyNs)
  parse_cancel_after text =
      if is_empty_text text
      then ok none
      else (parse_latency_ns_config text (codes "cancel_after_arrival_ns") >>= λ l. ok (some l))

  abbrev pub parse_strategy_limit : Text → Result (Option PriceTicks)
  parse_strategy_limit text =
      if is_empty_text text
      then ok none
      else (parse_int64 text (codes "strategy_limit_price_ticks") >>= λ price.
          validate_price_ticks price >>= λ valid. ok (some price))

  -- `queue_fraction` takes the place of `queue_fraction_ppm`.
  abbrev pub parse_queue_fraction : Text → ℤ → Result ℤ
  parse_queue_fraction text ppm =
      if is_empty_text text
      then ok ppm
      else (parse_double_value text (codes "queue_fraction") >>= λ parsed.
          if readings.is_below_zero parsed || readings.is_above_one parsed
          then err queue_fraction_out_of_range
          else ok (readings.to_ppm parsed))

  unfoldable pub config_of : Values → Result (ReplayConfig D)
  config_of values = do
    book_updates_path ← required_value values (codes "book_updates_path")
    trades_path ← required_value values (codes "trades_path")
    price_format ←
        parse_price_format (optional_value values (codes "price_format") (codes "decimal"))
    depth_levels ←
        parse_uint64 (optional_value values (codes "queue_imbalance_depth_levels") (codes "1"))
          (codes "queue_imbalance_depth_levels")
    buy_threshold ←
        parse_double_value
          (optional_value values (codes "queue_imbalance_buy_threshold") (codes "0.25"))
          (codes "queue_imbalance_buy_threshold")
    sell_threshold ←
        parse_double_value
          (optional_value values (codes "queue_imbalance_sell_threshold") (codes "-0.25"))
          (codes "queue_imbalance_sell_threshold")
    order_quantity ←
        parse_int64 (optional_value values (codes "strategy_order_quantity") (codes "1"))
          (codes "strategy_order_quantity")
    order_type ←
        parse_order_type (optional_value values (codes "strategy_order_type") (codes "market"))
    limit ← parse_strategy_limit (optional_value values (codes "strategy_limit_price_ticks") [])
    order_latency ←
        parse_latency_ns_config (optional_value values (codes "order_latency_ns") (codes "0"))
          (codes "order_latency_ns")
    cancel_after_arrival ←
        parse_cancel_after (optional_value values (codes "cancel_after_arrival_ns") [])
    ppm ←
        parse_int64 (optional_value values (codes "queue_fraction_ppm") (codes "0"))
          (codes "queue_fraction_ppm")
    queue_fraction_ppm ←
        parse_queue_fraction (optional_value values (codes "queue_fraction") []) ppm
    fee_rate_ppm ←
        parse_int64 (optional_value values (codes "fee_rate_ppm") (codes "0"))
          (codes "fee_rate_ppm")
    initial_cash ←
        parse_int64 (optional_value values (codes "initial_cash") (codes "0"))
          (codes "initial_cash")
    scripted_intents ← parse_scripted_intents (optional_value values (codes "scripted_intents") [])
    _ ←
        parse_bool (optional_value values (codes "deterministic") (codes "true"))
          (codes "deterministic")
    ok (record {
      book_updates_path = book_updates_path;
      trades_path = trades_path;
      output_directory = optional_value values (codes "output_directory") [];
      feed_parser = record {
        tick_size = optional_value values (codes "tick_size") (codes "0.01");
        price_format = price_format;
      };
      strategy_type = optional_value values (codes "strategy_type") (codes "queue_imbalance");
      queue_imbalance_depth_levels = depth_levels;
      queue_imbalance_buy_threshold = buy_threshold;
      queue_imbalance_sell_threshold = sell_threshold;
      strategy_order_quantity = order_quantity;
      strategy_order_type = order_type;
      strategy_limit_price_ticks = limit;
      order_latency = order_latency;
      cancel_after_arrival = cancel_after_arrival;
      queue_fraction_ppm = queue_fraction_ppm;
      fee_rate_ppm = fee_rate_ppm;
      initial_cash = initial_cash;
      scripted_intents = scripted_intents;
    })

  unfoldable pub load_replay_config : Doubles D → List Text → Result (ReplayConfig D)
  load_replay_config doubles lines = do
    values ← parse_key_value_file lines
    config ← config_of values
    validate_replay_config doubles config
    ok config
