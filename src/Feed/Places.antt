-- ===== src/Feed/Places.antt =====
-- The place that every exception of a row of src/market_feed.cpp carries.
use cpp_market_replay_engine.Base.{
  ltb, if◌then◌else◌, Error, field_required, unexpected_sign, integer_out_of_range, not_unsigned,
  Result, err, ok, ◌>>=◌, ℕ, ◌≡◌, refl, Bool, true, false, not, Option, none, some, List, [], ◌∷◌,
}
use cpp_market_replay_engine.Base.Text.{Text, codes, is_empty_text}
use cpp_market_replay_engine.Types.{uint64_max, EventKey, same_key, key_less}
use cpp_market_replay_engine.Types.Names.{
  parse_side, scan_digits, starts_with_digit, read_digits, parse_quantity,
}
use cpp_market_replay_engine.Market.{FeedParserConfig, MarketEventType}
use cpp_market_replay_engine.Feed.{
  Place, parse_error_at, rethrow, starts_with_sign, parse_unsigned_integer, parse_quantity_field,
  parse_side_field, parse_price_as, parse_price_field, parse_event_key, parse_aggressor,
  parse_fields, parse_row, validate_source_order,
}

-- An exception that carries a place.
pub record IsAt (at_place : Place) (e : Error) : Type 0 where
  pub field : Text
  pub value : Text
  pub reason : Error
  pub is_error : e ≡ parse_error_at at_place field value reason

-- Every exception of a call carries the place.
abbrev pub FailsAt : {V : Type 0} → Place → Result V → Type 0
FailsAt at_place (ok v) = Unit {0}
FailsAt at_place (err e) = IsAt at_place e

thrown :
    (at_place : Place) (field value : Text) (reason : Error)
    → IsAt at_place (parse_error_at at_place field value reason)
thrown at_place field value reason = record {
  field = field;
  value = value;
  reason = reason;
  is_error = refl;
}

then_FailsAt :
    {V W : Type 0} (at_place : Place) (r : Result V) (next : V → Result W)
    → FailsAt at_place r
    → ((v : V) → FailsAt at_place (next v))
    → FailsAt at_place (r >>= next)
then_FailsAt at_place (ok v) next h rest = rest v
then_FailsAt at_place (err e) next h rest = h

either_FailsAt :
    {V : Type 0} (at_place : Place) (test : Bool) (r s : Result V)
    → FailsAt at_place r
    → FailsAt at_place s
    → FailsAt at_place (if test then r else s)
either_FailsAt at_place true r s h g = h
either_FailsAt at_place false r s h g = g

rethrow-FailsAt :
    {V : Type 0} (at_place : Place) (field value : Text) (r : Result V)
    → FailsAt at_place (rethrow at_place field value r)
rethrow-FailsAt at_place field value (ok v) = tt
rethrow-FailsAt at_place field value (err e) = thrown at_place field value e

read_digits-FailsAt :
    (at_place : Place) (largest : ℕ) (text : Text) (e f : Error)
    → IsAt at_place e
    → IsAt at_place f
    → FailsAt at_place (read_digits largest text e f)
unfolding read_digits
read_digits-FailsAt at_place largest text e f h g =
    either_FailsAt at_place (not (starts_with_digit text)) _ _ g (
      either_FailsAt at_place (ltb largest (scan_digits 0 text).0) _ _ h
        (either_FailsAt at_place (is_empty_text (scan_digits 0 text).1) _ _ tt g))

unsigned-FailsAt :
    (text : Text) (at_place : Place) (field : Text)
    → FailsAt at_place (parse_unsigned_integer text at_place field)
unfolding parse_unsigned_integer
unsigned-FailsAt text at_place field =
    either_FailsAt at_place (is_empty_text text) _ _ (thrown at_place field text field_required) (
      either_FailsAt at_place (starts_with_sign text) _ _
        (thrown at_place field text unexpected_sign)
        (read_digits-FailsAt at_place uint64_max text _ _
          (thrown at_place field text integer_out_of_range)
          (thrown at_place field text not_unsigned)))

key-FailsAt : (a b : Text) (at_place : Place) → FailsAt at_place (parse_event_key a b at_place)
unfolding parse_event_key
key-FailsAt a b at_place =
    then_FailsAt at_place (parse_unsigned_integer a at_place (codes "timestamp_ns")) _
      (unsigned-FailsAt a at_place (codes "timestamp_ns"))
      λ t.
        then_FailsAt at_place (parse_unsigned_integer b at_place (codes "sequence_id")) _
          (unsigned-FailsAt b at_place (codes "sequence_id")) λ i. tt

side-FailsAt :
    (text : Text) (at_place : Place) (field : Text)
    → FailsAt at_place (parse_side_field text at_place field)
unfolding parse_side_field
side-FailsAt text at_place field =
    either_FailsAt at_place (is_empty_text text) _ _ (thrown at_place field text field_required)
      (rethrow-FailsAt at_place field text (parse_side text))

price-FailsAt :
    (text : Text) (at_place : Place) (config : FeedParserConfig)
    → FailsAt at_place (parse_price_field text at_place config)
unfolding parse_price_field
price-FailsAt text at_place config =
    either_FailsAt at_place (is_empty_text text) _ _
      (thrown at_place (codes "price") text field_required)
      (rethrow-FailsAt at_place (codes "price") text
        (parse_price_as config.price_format text config.tick_size))

quantity-FailsAt :
    (text : Text) (at_place : Place) → FailsAt at_place (parse_quantity_field text at_place)
unfolding parse_quantity_field
quantity-FailsAt text at_place =
    either_FailsAt at_place (is_empty_text text) _ _
      (thrown at_place (codes "quantity") text field_required)
      (rethrow-FailsAt at_place (codes "quantity") text (parse_quantity text))

aggressor-FailsAt :
    (text : Text) (at_place : Place) → FailsAt at_place (parse_aggressor text at_place)
aggressor-FailsAt text at_place = either_FailsAt at_place (is_empty_text text) _ _ tt (
    then_FailsAt at_place (parse_side_field text at_place (codes "aggressor_side")) _
      (side-FailsAt text at_place (codes "aggressor_side")) λ s. tt)

fields-FailsAt :
    (type : MarketEventType) (config : FeedParserConfig) (at_place : Place) (a b c d f : Text)
    → FailsAt at_place (parse_fields type config at_place a b c d f)
unfolding parse_fields
fields-FailsAt MarketEventType.book_updates config at_place a b c d f =
    then_FailsAt at_place (parse_event_key a b at_place) _ (key-FailsAt a b at_place) λ k.
      then_FailsAt at_place (parse_side_field c at_place (codes "side")) _
        (side-FailsAt c at_place (codes "side"))
        λ s.
          then_FailsAt at_place (parse_price_field d at_place config) _
            (price-FailsAt d at_place config)
            λ p.
              then_FailsAt at_place (parse_quantity_field f at_place) _
                (quantity-FailsAt f at_place) λ q. tt
fields-FailsAt MarketEventType.trades config at_place a b c d f =
    then_FailsAt at_place (parse_event_key a b at_place) _ (key-FailsAt a b at_place) λ k.
      then_FailsAt at_place (parse_price_field c at_place config) _
        (price-FailsAt c at_place config)
        λ p.
          then_FailsAt at_place (parse_quantity_field d at_place) _ (quantity-FailsAt d at_place)
            λ q.
              then_FailsAt at_place (parse_aggressor f at_place) _ (aggressor-FailsAt f at_place)
                λ s. tt

pub row-FailsAt :
    (type : MarketEventType) (config : FeedParserConfig) (at_place : Place) (fields : List Text)
    → FailsAt at_place (parse_row type config at_place fields)
unfolding parse_row
row-FailsAt type config at_place (a ∷ b ∷ c ∷ d ∷ f ∷ []) =
    fields-FailsAt type config at_place a b c d f
row-FailsAt type config at_place [] = thrown at_place (codes "row") [] _
row-FailsAt type config at_place (a ∷ []) = thrown at_place (codes "row") [] _
row-FailsAt type config at_place (a ∷ b ∷ []) = thrown at_place (codes "row") [] _
row-FailsAt type config at_place (a ∷ b ∷ c ∷ []) = thrown at_place (codes "row") [] _
row-FailsAt type config at_place (a ∷ b ∷ c ∷ d ∷ []) = thrown at_place (codes "row") [] _
row-FailsAt type config at_place (a ∷ b ∷ c ∷ d ∷ f ∷ g ∷ more) = thrown at_place (codes "row") [] _

pub order-FailsAt :
    (previous : Option EventKey) (current : EventKey) (at_place : Place)
    → FailsAt at_place (validate_source_order previous current at_place)
unfolding validate_source_order
order-FailsAt none current at_place = tt
order-FailsAt (some k) current at_place = either_FailsAt at_place (key_less k current) _ _ tt (
    either_FailsAt at_place (same_key k current) _ _ (thrown at_place _ _ _)
      (thrown at_place _ _ _))
