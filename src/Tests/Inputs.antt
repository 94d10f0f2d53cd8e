-- ===== src/Tests/Inputs.antt =====
-- Tests of the CSV feeds and of a replay from their lines.
use cpp_market_replay_engine.Replay.Config.{ReplayConfig}
use cpp_market_replay_engine.Tests.Replays.{Fraction, fractions, config, book_feed}
use cpp_market_replay_engine.Base.{
  All, Error, duplicate_key_in_source, parse_error, err, ok, ◌≡◌, refl, List, [], ◌∷◌, ◌++◌, map,
  arith,
}
use cpp_market_replay_engine.Base.Text.{Text, codes, digits}
use cpp_market_replay_engine.Types.{same_key, key_less, validate_quantity}
use cpp_market_replay_engine.Types.Decimal.{
  checked_mul10_add, count_place, decimal_step, decimal_loop, strip_zeros, parse_digits,
  parse_non_negative_decimal, pow10_from, parse_tick_size, validate_tick_size, exact_ticks,
  price_to_ticks,
}
use cpp_market_replay_engine.Types.Names.{
  parse_side, scan_digits, read_digits, parse_non_negative_int64, parse_quantity,
}
use cpp_market_replay_engine.Market.{PriceFieldFormat, FeedParserConfig, MarketEventType}
use cpp_market_replay_engine.Feed.{
  parse_unsigned_integer, parse_quantity_field, parse_side_field, parse_price_field,
  parse_event_key, parse_fields, parse_row, validate_source_order, parse_lines, parse_csv,
}
use cpp_market_replay_engine.Feed.Lines.{
  trim_front, trim_back, trim, fields_of, split_csv_line, is_blank, is_header,
}
use cpp_market_replay_engine.Feed.Normalized.{IsNormalized}
use cpp_market_replay_engine.Feed.Accepted.{parse_csv-IsNormalized}
use cpp_market_replay_engine.Feed.Located.{Refusal, parse_csv-Refusal}
use cpp_market_replay_engine.Feed.Rows.{IsRow}
use cpp_market_replay_engine.Feed.RoundTrip.{row_text, parse_csv-rows}
use cpp_market_replay_engine.Replay.Merge.{KeysRise}
use cpp_market_replay_engine.Replay.Outcome.{replay_inputs}
use cpp_market_replay_engine.Replay.Inputs.{InputsEnded, replay_inputs-InputsEnded}

abbrev decimal_prices : FeedParserConfig
decimal_prices = record { tick_size = codes "0.01"; price_format = PriceFieldFormat.decimal_price }

-- A header, a row, a blank line, a row with spaces and a carriage return.
abbrev book_lines : List Text
book_lines =
    codes "timestamp_ns,sequence_id,side,price,quantity"
    ∷ codes "10,0,buy,1.00,5"
    ∷ codes "  "
    ∷ (codes " 30 ,0,S, 1.02,4" ++ 13 ∷ [])
    ∷ []

book_parsed :
    parse_csv MarketEventType.book_updates (codes "book.csv") decimal_prices book_lines
    ≡ ok book_feed
unfolding parse_csv parse_lines validate_tick_size parse_row parse_fields parse_event_key
    parse_unsigned_integer parse_side_field parse_price_field parse_quantity_field
    validate_source_order key_less same_key parse_side parse_quantity parse_non_negative_int64
    read_digits scan_digits price_to_ticks exact_ticks pow10_from parse_tick_size
    parse_non_negative_decimal parse_digits decimal_loop decimal_step count_place checked_mul10_add
    strip_zeros validate_quantity split_csv_line fields_of trim trim_front trim_back is_blank
    is_header
book_parsed = refl

parse_csv-IsNormalized_example :
    All (IsNormalized MarketEventType.book_updates) book_feed × KeysRise book_feed
parse_csv-IsNormalized_example =
    parse_csv-IsNormalized MarketEventType.book_updates (codes "book.csv") decimal_prices book_lines
      book_feed book_parsed

-- The second row has the key of the first.
abbrev bad_lines : List Text
bad_lines = codes "20,0,1.00,4,sell" ∷ codes "20,0,1.00,4," ∷ codes "nonsense" ∷ []

abbrev duplicate : Error
duplicate =
    parse_error (codes "trades.csv") 2 (codes "event_key") (codes "timestamp_ns=20,sequence_id=0")
      duplicate_key_in_source

trades_refused :
    parse_csv MarketEventType.trades (codes "trades.csv") decimal_prices bad_lines ≡ err duplicate
unfolding parse_csv parse_lines validate_tick_size parse_row parse_fields parse_event_key
    parse_unsigned_integer parse_side_field parse_price_field parse_quantity_field
    validate_source_order key_less same_key parse_side parse_quantity parse_non_negative_int64
    read_digits scan_digits price_to_ticks exact_ticks pow10_from parse_tick_size
    parse_non_negative_decimal parse_digits decimal_loop decimal_step count_place checked_mul10_add
    strip_zeros validate_quantity split_csv_line fields_of trim trim_front trim_back is_blank
    is_header digits
trades_refused = refl

parse_csv-Refusal_example :
    Refusal MarketEventType.trades (codes "trades.csv") decimal_prices bad_lines duplicate
parse_csv-Refusal_example =
    parse_csv-Refusal MarketEventType.trades (codes "trades.csv") decimal_prices bad_lines duplicate
      trades_refused

abbrev tick_prices : FeedParserConfig
tick_prices = record { tick_size = codes "1"; price_format = PriceFieldFormat.ticks }

one_tick : parse_tick_size (codes "1") ≡ ok (record { coefficient = 1; scale = 0 })
unfolding parse_tick_size parse_non_negative_decimal parse_digits decimal_loop decimal_step
    count_place checked_mul10_add strip_zeros
one_tick = refl

rows_in_range : All (IsRow MarketEventType.book_updates) book_feed
rows_in_range = ground arith

keys_rise : KeysRise book_feed
unfolding key_less
keys_rise = ground arith

parse_csv-rows_example :
    parse_csv MarketEventType.book_updates
      (codes "book.csv")
      tick_prices
      (map (row_text MarketEventType.book_updates) book_feed)
    ≡ ok book_feed
parse_csv-rows_example =
    parse_csv-rows MarketEventType.book_updates (codes "book.csv") tick_prices
      (record { coefficient = 1; scale = 0 }) book_feed one_tick refl rows_in_range keys_rise

abbrev decimal_config : ReplayConfig Fraction
decimal_config = record config { feed_parser = decimal_prices }

abbrev trade_lines : List Text
trade_lines = codes "18,0,1.00,4,sell" ∷ []

replay_inputs-InputsEnded_example :
    InputsEnded fractions decimal_config book_lines trade_lines
      (replay_inputs fractions 30 decimal_config book_lines trade_lines)
replay_inputs-InputsEnded_example =
    replay_inputs-InputsEnded fractions decimal_config book_lines trade_lines 30 (omega arith)
