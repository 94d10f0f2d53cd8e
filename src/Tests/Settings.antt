-- ===== src/Tests/Settings.antt =====
-- Tests of the text of a configuration.
use cpp_market_replay_engine.Base.Text.{Text, codes, same_text}
use cpp_market_replay_engine.Types.{
  same_key, key_less, from_nanoseconds, validate_price_ticks, validate_quantity,
}
use cpp_market_replay_engine.Types.Names.{parse_side, parse_order_type, scan_digits, read_digits}
use cpp_market_replay_engine.Types.Decimal.{
  checked_mul10_add, count_place, decimal_step, decimal_loop, strip_zeros, parse_digits,
  parse_non_negative_decimal, parse_tick_size, validate_tick_size,
}
use cpp_market_replay_engine.Feed.Lines.{trim_front, trim_back, trim}
use cpp_market_replay_engine.Execution.Fee.{make_fee_model}
use cpp_market_replay_engine.Latency.Queue.{make_queue_fraction}
use cpp_market_replay_engine.Replay.Config.{
  ScriptedIntentConfig, ReplayConfig, validate_replay_config,
}
use cpp_market_replay_engine.Replay.Script.{
  pieces_of, split, parse_uint64, parse_int64, parse_limit_price, check_limit_price,
  parse_scripted_fields, parse_scripted_intent, parse_entries, insert_intent, sort_intents,
  parse_scripted_intents,
}
use cpp_market_replay_engine.Replay.Settings.{
  Values, is_blank_or_comment, cut_at_equals, parse_setting, find_value, emplace, parse_key_values,
  parse_key_value_file, required_value, optional_value, parse_bool, parse_price_format,
  parse_latency_ns_config, Readings, parse_double_value, config_of, load_replay_config,
}
use cpp_market_replay_engine.Replay.Settings.States.{Settled, parse_key_value_file-Settled}
use cpp_market_replay_engine.Tests.Replays.{Fraction, fractions, config}
use cpp_market_replay_engine.Base.{
  ◌*ℤ◌, if◌then◌else◌, length, pos, missing_equals, duplicate_config_key, Result, err, ok, ◌≡◌,
  refl, false, none, some, List, [], ◌∷◌,
}

abbrev config_lines : List Text
config_lines =
    codes "# a replay"
    ∷ codes " book_updates_path = book.csv "
    ∷ []
    ∷ codes "trades_path=trades.csv"
    ∷ codes "output_directory=out"
    ∷ codes "strategy_type=scripted"
    ∷ codes "scripted_intents=10:0:buy:market:5:"
    ∷ []

abbrev settings : Values
settings =
    (codes "scripted_intents", codes "10:0:buy:market:5:")
    ∷ (codes "strategy_type", codes "scripted")
    ∷ (codes "output_directory", codes "out")
    ∷ (codes "trades_path", codes "trades.csv")
    ∷ (codes "book_updates_path", codes "book.csv")
    ∷ []

settings_parsed : parse_key_value_file config_lines ≡ ok settings
unfolding parse_key_value_file parse_key_values parse_setting cut_at_equals emplace find_value
    is_blank_or_comment trim trim_front trim_back
settings_parsed = refl

settings_repeated :
    parse_key_value_file (codes "a=1" ∷ codes "a = 2" ∷ []) ≡ err (duplicate_config_key (codes "a"))
unfolding parse_key_value_file parse_key_values parse_setting cut_at_equals emplace find_value
    is_blank_or_comment trim trim_front trim_back
settings_repeated = refl

settings_malformed : parse_key_value_file (codes "# c" ∷ codes "a 2" ∷ []) ≡ err (missing_equals 2)
unfolding parse_key_value_file parse_key_values parse_setting cut_at_equals emplace find_value
    is_blank_or_comment trim trim_front trim_back
settings_malformed = refl

parse_key_value_file-Settled_example : Settled config_lines settings
parse_key_value_file-Settled_example =
    parse_key_value_file-Settled config_lines settings settings_parsed

-- A reading that knows the two default thresholds.
abbrev readings : Readings Fraction
readings = record {
  stod = λ t.
      if same_text t (codes "0.25")
      then some (fractions.from_int64 (pos 1), 4)
      else if same_text t (codes "-0.25")
      then some (fractions.from_int64 (pos 0), 5)
      else none;
  is_below_zero = λ d. false;
  is_above_one = λ d. false;
  to_ppm = λ d. pos 0;
}

abbrev loaded_intents : Result (ReplayConfig Fraction) → List ScriptedIntentConfig
loaded_intents (ok config) = config.scripted_intents
loaded_intents (err e) = []

config_loaded : length (loaded_intents (load_replay_config readings fractions config_lines)) ≡ 1
unfolding load_replay_config config_of parse_double_value required_value optional_value parse_bool
    parse_price_format parse_latency_ns_config from_nanoseconds validate_replay_config
    parse_key_value_file parse_key_values parse_setting cut_at_equals emplace find_value
    is_blank_or_comment parse_scripted_intents parse_entries parse_scripted_intent
    parse_scripted_fields parse_limit_price check_limit_price parse_int64 parse_uint64 split
    pieces_of trim trim_front trim_back read_digits scan_digits parse_side parse_order_type
    validate_quantity validate_price_ticks sort_intents insert_intent same_key key_less
    make_queue_fraction make_fee_model validate_tick_size parse_tick_size parse_non_negative_decimal
    parse_digits decimal_loop decimal_step count_place checked_mul10_add strip_zeros ◌*ℤ◌
config_loaded = refl
