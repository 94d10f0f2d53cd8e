-- ===== src/Feed/Canonical.antt =====
-- `canonical_event_string` of src/market_feed.cpp.
use cpp_market_replay_engine.Base.{ℤ, pos, negsuc, suc, Option, none, some, [], ◌∷◌, ◌++◌}
use cpp_market_replay_engine.Base.Text.{Text, codes, decimal}
use cpp_market_replay_engine.Types.{Side}
use cpp_market_replay_engine.Market.{MarketEvent, MarketEventType, event_type}

-- What a stream prints for an int64_t.
abbrev pub signed_decimal : ℤ → Text
signed_decimal (pos n) = decimal n
signed_decimal (negsuc n) = b'-' ∷ decimal (suc n)

abbrev pub side_to_string : Side → Text
side_to_string Side.buy = codes "buy"
side_to_string Side.sell = codes "sell"

abbrev pub optional_side : Option Side → Text
optional_side none = []
optional_side (some side) = side_to_string side

-- Five fields with commas between them.
abbrev pub five : Text → Text → Text → Text → Text → Text
five a b c d f = a ++ b',' ∷ (b ++ b',' ∷ (c ++ b',' ∷ (d ++ b',' ∷ f)))

-- What the text holds behind the kind of the event and its comma.
abbrev pub row_of : MarketEvent → Text
row_of (MarketEvent.book_update e) =
    five (decimal e.key.timestamp_ns) (decimal e.key.sequence_id) (side_to_string e.side)
      (signed_decimal e.price_ticks) (signed_decimal e.quantity)
row_of (MarketEvent.trade e) =
    five (decimal e.key.timestamp_ns) (decimal e.key.sequence_id) (signed_decimal e.price_ticks)
      (signed_decimal e.quantity) (optional_side e.aggressor_side)

abbrev pub kind_text : MarketEventType → Text
kind_text MarketEventType.book_updates = codes "BookUpdate,"
kind_text MarketEventType.trades = codes "Trade,"

abbrev pub canonical_event_string : MarketEvent → Text
canonical_event_string e = kind_text (event_type e) ++ row_of e
