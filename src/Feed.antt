-- ===== src/Feed.antt =====
-- The CSV feeds of src/market_feed.cpp: fields, lines, and the parser of a whole input, whose lines
-- are those that std::getline yields. An exception of a field carries the source, the line and the
-- value.
pub mod Lines
pub mod Normalized
pub mod Accepted
pub mod Places
pub mod Located
pub mod Canonical
pub mod Splits
pub mod Rows
pub mod RoundTrip
use cpp_market_replay_engine.Market.{
  PriceFieldFormat, FeedParserConfig, MarketEvent, MarketEventType, event_key,
}
use cpp_market_replay_engine.Base.{
  ◌==◌, if◌then◌else◌, length, Error, field_required, unexpected_sign, integer_out_of_range,
  not_unsigned, column_count, duplicate_key_in_source, out_of_order_key, parse_error, Result, err,
  ok, ◌>>=◌, ◌>>◌, ℕ, ◌+◌, Bool, false, ◌&&◌, ◌||◌, Option, none, some, List, [], ◌∷◌, ◌++◌,
}
use cpp_market_replay_engine.Base.Text.{Text, codes, decimal, is_empty_text}
use cpp_market_replay_engine.Types.{
  uint64_max, PriceTicks, Quantity, Side, EventKey, same_key, key_less,
}
use cpp_market_replay_engine.Types.Decimal.{validate_tick_size, price_to_ticks}
use cpp_market_replay_engine.Types.Names.{
  parse_side, read_digits, parse_price_ticks, parse_quantity,
}
use cpp_market_replay_engine.Feed.Lines.{split_csv_line, is_blank, is_header}

-- Where a field stands: the source and the number of the line.
pub record Place : Type 0 where
  pub source : Text
  pub line_number : ℕ

abbrev pub parse_error_at : Place → Text → Text → Error → Error
parse_error_at at_place field value reason =
    parse_error at_place.source at_place.line_number field value reason

-- `catch (const std::exception& error)`
abbrev pub rethrow : {V : Type 0} → Place → Text → Text → Result V → Result V
rethrow at_place field value (ok v) = ok v
rethrow at_place field value (err e) = err (parse_error_at at_place field value e)

abbrev pub starts_with_sign : Text → Bool
starts_with_sign [] = false
starts_with_sign (ch ∷ text) = (ch == b'+') || (ch == b'-')

unfoldable pub parse_unsigned_integer : Text → Place → Text → Result ℕ
parse_unsigned_integer text at_place field =
    if is_empty_text text
    then err (parse_error_at at_place field text field_required)
    else if starts_with_sign text
    then err (parse_error_at at_place field text unexpected_sign)
    else read_digits uint64_max text (parse_error_at at_place field text integer_out_of_range)
        (parse_error_at at_place field text not_unsigned)

unfoldable pub parse_quantity_field : Text → Place → Result Quantity
parse_quantity_field text at_place =
    if is_empty_text text
    then err (parse_error_at at_place (codes "quantity") text field_required)
    else rethrow at_place (codes "quantity") text (parse_quantity text)

-- With `allow_empty` false, as it is in every call.
unfoldable pub parse_side_field : Text → Place → Text → Result Side
parse_side_field text at_place field =
    if is_empty_text text
    then err (parse_error_at at_place field text field_required)
    else rethrow at_place field text (parse_side text)

abbrev pub parse_price_as : PriceFieldFormat → Text → Text → Result PriceTicks
parse_price_as PriceFieldFormat.decimal_price text tick_size = price_to_ticks text tick_size
parse_price_as PriceFieldFormat.ticks text tick_size = parse_price_ticks text

unfoldable pub parse_price_field : Text → Place → FeedParserConfig → Result PriceTicks
parse_price_field text at_place config =
    if is_empty_text text
    then err (parse_error_at at_place (codes "price") text field_required)
    else rethrow at_place (codes "price") text
        (parse_price_as config.price_format text config.tick_size)

unfoldable pub parse_event_key : Text → Text → Place → Result EventKey
parse_event_key timestamp sequence at_place = do
  timestamp_ns ← parse_unsigned_integer timestamp at_place (codes "timestamp_ns")
  sequence_id ← parse_unsigned_integer sequence at_place (codes "sequence_id")
  ok (record { timestamp_ns = timestamp_ns; sequence_id = sequence_id })

-- The optional side of a trade.
abbrev pub parse_aggressor : Text → Place → Result (Option Side)
parse_aggressor text at_place =
    if is_empty_text text
    then ok none
    else (parse_side_field text at_place (codes "aggressor_side") >>= λ side. ok (some side))

-- The five fields of a row; `validate_field_count` refuses every other number.
unfoldable pub parse_fields :
    MarketEventType
    → FeedParserConfig
    → Place
    → Text
    → Text
    → Text
    → Text
    → Text
    → Result MarketEvent
parse_fields MarketEventType.book_updates config at_place f₀ f₁ f₂ f₃ f₄ = do
  key ← parse_event_key f₀ f₁ at_place
  side ← parse_side_field f₂ at_place (codes "side")
  price_ticks ← parse_price_field f₃ at_place config
  quantity ← parse_quantity_field f₄ at_place
  ok (
      MarketEvent.book_update
        (record { key = key; side = side; price_ticks = price_ticks; quantity = quantity }))
parse_fields MarketEventType.trades config at_place f₀ f₁ f₂ f₃ f₄ = do
  key ← parse_event_key f₀ f₁ at_place
  price_ticks ← parse_price_field f₂ at_place config
  quantity ← parse_quantity_field f₃ at_place
  aggressor_side ← parse_aggressor f₄ at_place
  ok (
      MarketEvent.trade (record {
        key = key;
        price_ticks = price_ticks;
        quantity = quantity;
        aggressor_side = aggressor_side;
      }))

unfoldable pub parse_row :
    MarketEventType → FeedParserConfig → Place → List Text → Result MarketEvent
parse_row type config at_place (f₀ ∷ f₁ ∷ f₂ ∷ f₃ ∷ f₄ ∷ []) =
    parse_fields type config at_place f₀ f₁ f₂ f₃ f₄
parse_row type config at_place fields =
    err (parse_error_at at_place (codes "row") [] (column_count 5 (length fields)))

-- `value << "timestamp_ns=" << … << ",sequence_id=" << …`
abbrev pub key_text : EventKey → Text
key_text key =
    codes "timestamp_ns="
    ++ decimal key.timestamp_ns
    ++ codes ",sequence_id="
    ++ decimal key.sequence_id

-- `validate_source_order`, on the event before the last, if there is one, and the last.
unfoldable pub validate_source_order : Option EventKey → EventKey → Place → Result (Unit {0})
validate_source_order none current at_place = ok tt
validate_source_order (some previous) current at_place =
    if key_less previous current
    then ok tt
    else if same_key previous current
    then err
        (parse_error_at at_place (codes "event_key") (key_text current) duplicate_key_in_source)
    else err (parse_error_at at_place (codes "event_key") (key_text current) out_of_order_key)

abbrev pub expected_header : MarketEventType → List Text
expected_header MarketEventType.book_updates =
    codes "timestamp_ns"
    ∷ codes "sequence_id"
    ∷ codes "side"
    ∷ codes "price"
    ∷ codes "quantity"
    ∷ []
expected_header MarketEventType.trades =
    codes "timestamp_ns"
    ∷ codes "sequence_id"
    ∷ codes "price"
    ∷ codes "quantity"
    ∷ codes "aggressor_side"
    ∷ []

-- `line_number == 1U && is_header(...)`: with the first line no event was parsed before.
abbrev pub is_header_line : MarketEventType → ℕ → List Text → Bool
is_header_line type line_number fields =
    (line_number == 1) && is_header fields (expected_header type)

module _ (type : MarketEventType) (source : Text) (config : FeedParserConfig) where
  -- The loop over the lines, behind `line_number` of them and the key of the last event.
  unfoldable pub parse_lines : ℕ → Option EventKey → List Text → Result (List MarketEvent)
  parse_lines line_number previous [] = ok []
  parse_lines line_number previous (line ∷ lines) =
      let at_place : Place = record { source = source; line_number = line_number + 1 } in
      let fields = split_csv_line line in
      let skip = parse_lines (line_number + 1) previous lines in
      if is_blank line
      then skip
      else if is_header_line type (line_number + 1) fields
      then skip
      else (parse_row type config at_place fields >>= λ event.
          validate_source_order previous (event_key event) at_place
          >> parse_lines (line_number + 1) (some (event_key event)) lines
          >>= λ events. ok (event ∷ events))

  unfoldable pub parse_csv : List Text → Result (List MarketEvent)
  parse_csv lines = do validate_tick_size config.tick_size; parse_lines 0 none lines

abbrev pub parse_book_updates_csv : List Text → Text → FeedParserConfig → Result (List MarketEvent)
unfolding parse_csv
parse_book_updates_csv input source config =
    parse_csv MarketEventType.book_updates source config input

abbrev pub parse_trades_csv : List Text → Text → FeedParserConfig → Result (List MarketEvent)
unfolding parse_csv
parse_trades_csv input source config = parse_csv MarketEventType.trades source config input
