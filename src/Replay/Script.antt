-- ===== src/Replay/Script.antt =====
-- The scripted intents of src/replay_engine.cpp as text: how a configuration states them, and their
-- canonical text. `trim` is the same function as in src/market_feed.cpp. What std::sort does with
-- equal elements is not specified; here it is an insertion sort.
pub mod Pieces
pub mod Reads
pub mod RoundTrip
use cpp_market_replay_engine.Base.{
  ltb, ◌==◌, if◌then◌else◌, ℤ, pos, sub_ℕ, leb_ℤ, integer_required, integer_out_of_bounds,
  integer_malformed, scripted_fields, scripted_limit_unpriced, scripted_market_priced,
  scripted_quantity_not_positive, Result, err, ok, throw_if, ◌>>=◌, ◌>>◌, ℕ, Bool, true, false,
  Option, none, some, List, [], ◌∷◌, ◌++◌, map,
}
use cpp_market_replay_engine.Base.Text.{Text, codes, decimal, is_empty_text}
use cpp_market_replay_engine.Types.{
  int64_max, uint64_max, PriceTicks, Side, OrderType, same_key, key_less, validate_price_ticks,
  validate_quantity,
}
use cpp_market_replay_engine.Types.Names.{parse_side, parse_order_type, read_digits}
use cpp_market_replay_engine.Feed.Lines.{trim}
use cpp_market_replay_engine.Feed.Canonical.{signed_decimal}
use cpp_market_replay_engine.Replay.Config.{ScriptedIntentConfig}

-- The pieces of a text, untrimmed: a delimiter ends one, and one more follows the last delimiter.
unfoldable pub pieces_of : ℕ → Text → List Text
pieces_of delimiter [] = [] ∷ []
pieces_of delimiter (ch ∷ text) =
    let pieces = pieces_of delimiter text in
    if ch == delimiter then [] ∷ pieces else add_front ch pieces
  where
    add_front : ℕ → List Text → List Text
    add_front c [] = (c ∷ []) ∷ []
    add_front c (f ∷ fs) = (c ∷ f) ∷ fs

unfoldable pub split : Text → ℕ → List Text
split text delimiter = map trim (pieces_of delimiter text)

-- `parse_integer<std::uint64_t>`
unfoldable pub parse_uint64 : Text → Text → Result ℕ
parse_uint64 [] field = err (integer_required field)
parse_uint64 (ch ∷ text) field =
    read_digits uint64_max (ch ∷ text) (integer_out_of_bounds field) (integer_malformed field)

-- `parse_integer<std::int64_t>`: std::from_chars takes a minus, and then 2^63 too.
unfoldable pub parse_int64 : Text → Text → Result ℤ
parse_int64 [] field = err (integer_required field)
parse_int64 (ch ∷ text) field =
    if ch == b'-'
    then (read_digits 9223372036854775808 text (integer_out_of_bounds field)
          (integer_malformed field)
        >>= λ value. ok (sub_ℕ 0 value))
    else (read_digits int64_max (ch ∷ text) (integer_out_of_bounds field) (integer_malformed field)
        >>= λ value. ok (pos value))

abbrev pub side_name : Side → Text
side_name Side.buy = codes "buy"
side_name Side.sell = codes "sell"

abbrev pub order_type_name : OrderType → Text
order_type_name OrderType.market = codes "market"
order_type_name OrderType.limit = codes "limit"

abbrev pub optional_int64_string : Option PriceTicks → Text
optional_int64_string none = []
optional_int64_string (some value) = signed_decimal value

-- An entry of `canonical_scripted_intents`.
abbrev pub canonical_scripted_intent : ScriptedIntentConfig → Text
canonical_scripted_intent intent =
    decimal intent.trigger_key.timestamp_ns
    ++ b':'
      ∷ (decimal intent.trigger_key.sequence_id
          ++ b':'
            ∷ (side_name intent.side
                ++ b':'
                  ∷ (order_type_name intent.order_type
                      ++ b':'
                        ∷ (signed_decimal intent.quantity
                            ++ b':' ∷ optional_int64_string intent.limit_price_ticks))))

unfoldable pub canonical_scripted_intents : List ScriptedIntentConfig → Text
canonical_scripted_intents [] = []
canonical_scripted_intents (intent ∷ intents) =
    canonical_scripted_intent intent ++ (b';' ∷ canonical_scripted_intents intents)

unfoldable pub parse_limit_price : Text → Result (Option PriceTicks)
parse_limit_price [] = ok none
parse_limit_price (ch ∷ text) = do
  limit_price_ticks ← parse_int64 (ch ∷ text) (codes "scripted limit_price_ticks")
  validate_price_ticks limit_price_ticks
  ok (some limit_price_ticks)

-- The two tests of the order type against the limit price.
unfoldable pub check_limit_price : OrderType → Option PriceTicks → Result (Unit {0})
check_limit_price OrderType.limit none = err scripted_limit_unpriced
check_limit_price OrderType.limit (some price) = ok tt
check_limit_price OrderType.market none = ok tt
check_limit_price OrderType.market (some price) = err scripted_market_priced

unfoldable pub parse_scripted_fields : List Text → Result ScriptedIntentConfig
parse_scripted_fields (f₀ ∷ f₁ ∷ f₂ ∷ f₃ ∷ f₄ ∷ f₅ ∷ []) = do
  order_type ← parse_order_type f₃
  limit_price_ticks ← parse_limit_price f₅
  check_limit_price order_type limit_price_ticks
  quantity ← parse_int64 f₄ (codes "scripted quantity")
  validate_quantity quantity
  throw_if (leb_ℤ quantity (pos 0)) scripted_quantity_not_positive
  timestamp_ns ← parse_uint64 f₀ (codes "scripted timestamp_ns")
  sequence_id ← parse_uint64 f₁ (codes "scripted sequence_id")
  side ← parse_side f₂
  ok (record {
    trigger_key = record { timestamp_ns = timestamp_ns; sequence_id = sequence_id };
    side = side;
    order_type = order_type;
    quantity = quantity;
    limit_price_ticks = limit_price_ticks;
  })
parse_scripted_fields _ = err scripted_fields

unfoldable pub parse_scripted_intent : Text → Result ScriptedIntentConfig
parse_scripted_intent text = parse_scripted_fields (split text b':')

-- The loop of `parse_scripted_intents`.
unfoldable pub parse_entries : List Text → Result (List ScriptedIntentConfig)
parse_entries [] = ok []
parse_entries (entry ∷ entries) =
    let rest = parse_entries entries in
    if is_empty_text entry
    then rest
    else (parse_scripted_intent entry >>= λ intent. rest >>= λ intents. ok (intent ∷ intents))

-- `<` on texts
abbrev pub text_less : Text → Text → Bool
text_less s [] = false
text_less [] (d ∷ t) = true
text_less (c ∷ s) (d ∷ t) = if ltb c d then true else if c == d then text_less s t else false

-- The comparison of std::sort.
abbrev pub intent_less : ScriptedIntentConfig → ScriptedIntentConfig → Bool
unfolding same_key key_less
intent_less lhs rhs =
    if same_key lhs.trigger_key rhs.trigger_key
    then text_less (order_type_name lhs.order_type) (order_type_name rhs.order_type)
    else key_less lhs.trigger_key rhs.trigger_key

unfoldable pub insert_intent :
    ScriptedIntentConfig → List ScriptedIntentConfig → List ScriptedIntentConfig
insert_intent intent [] = intent ∷ []
insert_intent intent (x ∷ intents) =
    let rest = insert_intent intent intents in
    if intent_less x intent then x ∷ rest else intent ∷ x ∷ intents

unfoldable pub sort_intents : List ScriptedIntentConfig → List ScriptedIntentConfig
sort_intents [] = []
sort_intents (intent ∷ intents) = insert_intent intent (sort_intents intents)

unfoldable pub parse_scripted_intents : Text → Result (List ScriptedIntentConfig)
parse_scripted_intents text =
    if is_empty_text (trim text)
    then ok []
    else (parse_entries (split text b';') >>= λ intents. ok (sort_intents intents))
