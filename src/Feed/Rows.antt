-- ===== src/Feed/Rows.antt =====
-- One row of a feed there and back: what src/market_feed.cpp parses from the fields of an event.
use cpp_market_replay_engine.Base.{
  ◌==◌, All, ℤ, pos, negsuc, ◌≤ℤ◌, ok, ℕ, ◌≤◌, ◌≡◌, refl, ap, ◌∙◌, false, ◌&&◌, ◌||◌, Option, none,
  some, List, [], ◌∷◌, ◌++◌, arith,
}
use cpp_market_replay_engine.Base.Text.{Text, codes, decimal, same_text, is_empty_text}
use cpp_market_replay_engine.Types.{int64_max, uint64_max, Side, EventKey}
use cpp_market_replay_engine.Types.Names.{parse_side}
use cpp_market_replay_engine.Types.Digits.{IsDigit, decimal-All, decimal-nonempty}
use cpp_market_replay_engine.Types.Numbers.{read_digits-decimal, parse_quantity-decimal}
use cpp_market_replay_engine.Market.{
  PriceFieldFormat, FeedParserConfig, MarketEvent, MarketEventType,
}
use cpp_market_replay_engine.Feed.Lines.{split_csv_line, is_blank, is_header}
use cpp_market_replay_engine.Feed.{
  Place, starts_with_sign, parse_unsigned_integer, parse_quantity_field, parse_side_field,
  parse_price_field, parse_event_key, parse_aggressor, parse_fields, parse_row, expected_header,
}
use cpp_market_replay_engine.Feed.Canonical.{
  signed_decimal, side_to_string, optional_side, five, row_of,
}
use cpp_market_replay_engine.Feed.Splits.{
  IsPlain, decimal-IsPlain, side-IsPlain, split_plain, split_last, is_blank_plain,
}

-- An amount that is not negative and fits an int64_t.
abbrev pub IsAmount : ℤ → Type 0
IsAmount n = (pos 0 ≤ℤ n) × (n ≤ℤ pos int64_max)

abbrev pub FitsKey : EventKey → Type 0
FitsKey key = (key.timestamp_ns ≤ uint64_max) × (key.sequence_id ≤ uint64_max)

-- The numbers of an event are within the ranges of their types, and its amounts not negative.
abbrev pub IsRow : MarketEventType → MarketEvent → Type 0
IsRow MarketEventType.book_updates (MarketEvent.book_update e) =
    FitsKey e.key × IsAmount e.price_ticks × IsAmount e.quantity
IsRow MarketEventType.trades (MarketEvent.trade e) =
    FitsKey e.key × IsAmount e.price_ticks × IsAmount e.quantity
IsRow _ _ = ⊥

amount : (n : ℤ) → IsAmount n → (k : ℕ) × (n ≡ pos k) × (k ≤ int64_max)
amount (pos k) h = (k, refl, omega (arith, h.1))
amount (negsuc k) h = absurd (omega (arith, h.0))

amount-IsPlain : (n : ℤ) → IsAmount n → All IsPlain (signed_decimal n)
amount-IsPlain (pos k) h = decimal-IsPlain k
amount-IsPlain (negsuc k) h = absurd (omega (arith, h.0))

price_found :
    (n : ℤ) (at_place : Place) (config : FeedParserConfig)
    → IsAmount n
    → config.price_format ≡ PriceFieldFormat.ticks
    → parse_price_field (signed_decimal n) at_place config ≡ ok n
unfolding parse_price_field
price_found (pos k) at_place config h f =
    rw (decimal-nonempty k, f, (parse_quantity-decimal k (omega (arith, h.1))).1) refl
price_found (negsuc k) at_place config h f = absurd (omega (arith, h.0))

quantity_found :
    (n : ℤ) (at_place : Place)
    → IsAmount n
    → parse_quantity_field (signed_decimal n) at_place ≡ ok n
unfolding parse_quantity_field
quantity_found (pos k) at_place h =
    rw (decimal-nonempty k, (parse_quantity-decimal k (omega (arith, h.1))).0) refl
quantity_found (negsuc k) at_place h = absurd (omega (arith, h.0))

side_found :
    (side : Side) (at_place : Place) (field : Text)
    → parse_side_field (side_to_string side) at_place field ≡ ok side
unfolding parse_side_field parse_side
side_found Side.buy at_place field = refl
side_found Side.sell at_place field = refl

unsigned_found :
    (n : ℕ) (at_place : Place) (field : Text)
    → n ≤ uint64_max
    → parse_unsigned_integer (decimal n) at_place field ≡ ok n
unfolding parse_unsigned_integer
unsigned_found n at_place field h =
    rw (decimal-nonempty n, no_sign (decimal n) (decimal-All n))
      (read_digits-decimal uint64_max n _ _ h)
  where
    no_sign : (t : Text) → All IsDigit t → starts_with_sign t ≡ false
    no_sign [] h = refl
    no_sign (c ∷ t) h = plain c h.0
      where
        plain : (c : ℕ) → IsDigit c → ((c == b'+') || (c == b'-')) ≡ false
        plain c h = ground arith

key_found :
    (key : EventKey) (at_place : Place)
    → FitsKey key
    → parse_event_key (decimal key.timestamp_ns) (decimal key.sequence_id) at_place ≡ ok key
unfolding parse_event_key
key_found key at_place h =
    rw
      (
        unsigned_found key.timestamp_ns at_place (codes "timestamp_ns") h.0,
        unsigned_found key.sequence_id at_place (codes "sequence_id") h.1,
      )
      refl

five_fields :
    (a b c d f : Text)
    → All IsPlain a
    → All IsPlain b
    → All IsPlain c
    → All IsPlain d
    → All IsPlain f
    → split_csv_line (five a b c d f) ≡ a ∷ b ∷ c ∷ d ∷ f ∷ []
five_fields a b c d f ha hb hc hd hf =
    split_plain a (b ++ b',' ∷ (c ++ b',' ∷ (d ++ b',' ∷ f))) ha
    ∙ ap (λ r. a ∷ r)
        (split_plain b (c ++ b',' ∷ (d ++ b',' ∷ f)) hb
          ∙ ap (λ r. b ∷ r)
              (split_plain c (d ++ b',' ∷ f) hc
                ∙ ap (λ r. c ∷ r) (split_plain d f hd ∙ ap (λ r. d ∷ r) (split_last f hf))))

optional-IsPlain : (side : Option Side) → All IsPlain (optional_side side)
optional-IsPlain none = tt
optional-IsPlain (some side) = side-IsPlain side

aggressor_found :
    (side : Option Side) (at_place : Place)
    → parse_aggressor (optional_side side) at_place ≡ ok side
aggressor_found none at_place = refl
aggressor_found (some Side.buy) at_place =
    rw (side_found Side.buy at_place (codes "aggressor_side")) refl
aggressor_found (some Side.sell) at_place =
    rw (side_found Side.sell at_place (codes "aggressor_side")) refl

-- A number is not the name of the first column.
not_header :
    (n : ℕ) (fields expected : List Text)
    → is_header (decimal n ∷ fields) (codes "timestamp_ns" ∷ expected) ≡ false
unfolding is_header
not_header n fields expected = by_text (decimal n) (decimal-nonempty n) (decimal-All n)
  where
    other : (c : ℕ) → IsDigit c → (c == b't') ≡ false
    other c h = ground arith

    by_text :
        (t : Text)
        → is_empty_text t ≡ false
        → All IsDigit t
        → (same_text t (codes "timestamp_ns") && is_header fields expected) ≡ false
    by_text [] nonempty h = cc
    by_text (c ∷ t) nonempty h = rw (other c h.0) refl

number_not_blank : (n : ℕ) (rest : Text) → is_blank (decimal n ++ rest) ≡ false
number_not_blank n rest = is_blank_plain (decimal n) rest (decimal-nonempty n) (decimal-IsPlain n)

-- What the loop finds in the row of an event.
pub record ReadsBack (type : MarketEventType) (config : FeedParserConfig) (e : MarketEvent)
    : Type 0 where
  pub not_blank : is_blank (row_of e) ≡ false
  pub no_header : is_header (split_csv_line (row_of e)) (expected_header type) ≡ false
  pub row : (at_place : Place) → parse_row type config at_place (split_csv_line (row_of e)) ≡ ok e

pub row-ReadsBack :
    (type : MarketEventType) (config : FeedParserConfig) (e : MarketEvent)
    → config.price_format ≡ PriceFieldFormat.ticks
    → IsRow type e
    → ReadsBack type config e
unfolding parse_row parse_fields
row-ReadsBack MarketEventType.book_updates config (MarketEvent.book_update e) f (key, p, q) =
    let split =
      five_fields (decimal e.key.timestamp_ns) (decimal e.key.sequence_id) (side_to_string e.side)
        (signed_decimal e.price_ticks) (signed_decimal e.quantity)
        (decimal-IsPlain e.key.timestamp_ns) (decimal-IsPlain e.key.sequence_id)
        (side-IsPlain e.side) (amount-IsPlain e.price_ticks p) (amount-IsPlain e.quantity q) in
    record {
      not_blank = number_not_blank e.key.timestamp_ns _;
      no_header = rw (split) (not_header e.key.timestamp_ns _ _);
      row = λ at_place.
          rw
            (
              split,
              key_found e.key at_place key,
              side_found e.side at_place (codes "side"),
              price_found e.price_ticks at_place config p f,
              quantity_found e.quantity at_place q,
            )
            refl;
    }
row-ReadsBack MarketEventType.trades config (MarketEvent.trade e) f (key, p, q) =
    let split =
      five_fields (decimal e.key.timestamp_ns) (decimal e.key.sequence_id)
        (signed_decimal e.price_ticks) (signed_decimal e.quantity) (optional_side e.aggressor_side)
        (decimal-IsPlain e.key.timestamp_ns) (decimal-IsPlain e.key.sequence_id)
        (amount-IsPlain e.price_ticks p) (amount-IsPlain e.quantity q)
        (optional-IsPlain e.aggressor_side) in
    record {
      not_blank = number_not_blank e.key.timestamp_ns _;
      no_header = rw (split) (not_header e.key.timestamp_ns _ _);
      row = λ at_place.
          rw
            (
              split,
              key_found e.key at_place key,
              price_found e.price_ticks at_place config p f,
              quantity_found e.quantity at_place q,
              aggressor_found e.aggressor_side at_place,
            )
            refl;
    }
row-ReadsBack MarketEventType.book_updates config (MarketEvent.trade e) f h = absurd h
row-ReadsBack MarketEventType.trades config (MarketEvent.book_update e) f h = absurd h
