-- ===== src/Feed/Normalized.antt =====
-- What a row that src/market_feed.cpp accepts is made of.
use cpp_market_replay_engine.Base.{
  ◌==◌, if◌then◌else◌, ℤ, pos, ◌≤ℤ◌, signed_text, explicit_sign, too_large, not_an_integer,
  field_required, Result, err, ok, ◌>>=◌, >>=-eq-ok, ok_eq, ◌≡◌, subst, Bool, true, false, List, [],
  ◌∷◌, arith,
}
use cpp_market_replay_engine.Base.Text.{Text, codes, is_empty_text}
use cpp_market_replay_engine.Types.{
  int64_max, PriceTicks, Quantity, validate_price_ticks, validate_quantity,
}
use cpp_market_replay_engine.Types.Names.{
  read_digits, parse_non_negative_int64, parse_price_ticks, parse_quantity,
}
use cpp_market_replay_engine.Types.RoundTrip.{price_to_ticks-exact}
use cpp_market_replay_engine.Market.{
  PriceFieldFormat, FeedParserConfig, MarketEvent, MarketEventType,
}
use cpp_market_replay_engine.Feed.{
  Place, parse_error_at, rethrow, parse_quantity_field, parse_side_field, parse_price_as,
  parse_price_field, parse_event_key, parse_aggressor, parse_fields, parse_row,
}

-- An event of a feed of one kind, with a price and a quantity that are not negative.
abbrev pub IsNormalized : MarketEventType → MarketEvent → Type 0
IsNormalized MarketEventType.book_updates (MarketEvent.book_update e) =
    (pos 0 ≤ℤ e.price_ticks) × (pos 0 ≤ℤ e.quantity)
IsNormalized MarketEventType.trades (MarketEvent.trade e) =
    (pos 0 ≤ℤ e.price_ticks) × (pos 0 ≤ℤ e.quantity)
IsNormalized _ _ = ⊥

rethrow_ok :
    {V : Type 0} (at_place : Place) (field value : Text) (r : Result V) (v : V)
    → rethrow at_place field value r ≡ ok v
    → r ≡ ok v
rethrow_ok at_place field value (ok w) v e = e
rethrow_ok at_place field value (err x) v e = cc

int64_nonneg : (text field : Text) (n : ℤ) → parse_non_negative_int64 text field ≡ ok n → pos 0 ≤ℤ n
unfolding parse_non_negative_int64
int64_nonneg [] field n e = cc
int64_nonneg (c ∷ text) field n e = by_sign (c == b'-') (c == b'+') e
  where
    by_sign :
        (minus plus : Bool)
        → (if minus
            then err (signed_text field)
            else if plus
            then err (explicit_sign field)
            else (read_digits int64_max (c ∷ text) (too_large field) (not_an_integer field)
                >>= λ value. ok (pos value)))
          ≡ ok n
        → pos 0 ≤ℤ n
    by_sign true plus e = cc
    by_sign false true e = cc
    by_sign false false e =
        let (v, _, e₁) =
          >>=-eq-ok (read_digits int64_max (c ∷ text) (too_large field) (not_an_integer field)) _
            e in
        subst (λ n. pos 0 ≤ℤ n) (ok_eq (pos v) n e₁) (omega arith)

parse_quantity_nonneg : (text : Text) (q : Quantity) → parse_quantity text ≡ ok q → pos 0 ≤ℤ q
unfolding parse_quantity
parse_quantity_nonneg text q e =
    let (v, parsed, e₁) = >>=-eq-ok (parse_non_negative_int64 text (codes "quantity")) _ e in
    let (_, _, e₂) = >>=-eq-ok (validate_quantity v) _ e₁ in
    subst (λ n. pos 0 ≤ℤ n) (ok_eq v q e₂) (int64_nonneg text (codes "quantity") v parsed)

parse_price_ticks_nonneg :
    (text : Text) (p : PriceTicks) → parse_price_ticks text ≡ ok p → pos 0 ≤ℤ p
unfolding parse_price_ticks
parse_price_ticks_nonneg text p e =
    let (v, parsed, e₁) = >>=-eq-ok (parse_non_negative_int64 text (codes "price_ticks")) _ e in
    let (_, _, e₂) = >>=-eq-ok (validate_price_ticks v) _ e₁ in
    subst (λ n. pos 0 ≤ℤ n) (ok_eq v p e₂) (int64_nonneg text (codes "price_ticks") v parsed)

parse_price_as_nonneg :
    (format : PriceFieldFormat) (text tick_size : Text) (p : PriceTicks)
    → parse_price_as format text tick_size ≡ ok p
    → pos 0 ≤ℤ p
parse_price_as_nonneg PriceFieldFormat.ticks text tick_size p e = parse_price_ticks_nonneg text p e
parse_price_as_nonneg PriceFieldFormat.decimal_price text tick_size p e =
    let (_, _, _, _, whole, _) = price_to_ticks-exact text tick_size p e in
    subst (λ n. pos 0 ≤ℤ n) whole (omega arith)

price_field_nonneg :
    (text : Text) (at_place : Place) (config : FeedParserConfig) (p : PriceTicks)
    → parse_price_field text at_place config ≡ ok p
    → pos 0 ≤ℤ p
unfolding parse_price_field
price_field_nonneg text at_place config p e = by_text (is_empty_text text) e
  where
    by_text :
        (empty : Bool)
        → (if empty
            then err (parse_error_at at_place (codes "price") text field_required)
            else rethrow at_place
                (codes "price")
                text
                (parse_price_as config.price_format text config.tick_size))
          ≡ ok p
        → pos 0 ≤ℤ p
    by_text true e = cc
    by_text false e =
        parse_price_as_nonneg config.price_format text config.tick_size p
          (rethrow_ok at_place (codes "price") text _ p e)

quantity_field_nonneg :
    (text : Text) (at_place : Place) (q : Quantity)
    → parse_quantity_field text at_place ≡ ok q
    → pos 0 ≤ℤ q
unfolding parse_quantity_field
quantity_field_nonneg text at_place q e = by_text (is_empty_text text) e
  where
    by_text :
        (empty : Bool)
        → (if empty
            then err (parse_error_at at_place (codes "quantity") text field_required)
            else rethrow at_place (codes "quantity") text (parse_quantity text))
          ≡ ok q
        → pos 0 ≤ℤ q
    by_text true e = cc
    by_text false e =
        parse_quantity_nonneg text q (rethrow_ok at_place (codes "quantity") text _ q e)

parse_fields-IsNormalized :
    (type : MarketEventType) (config : FeedParserConfig) (at_place : Place) (a b c d f : Text)
    (event : MarketEvent)
    → parse_fields type config at_place a b c d f ≡ ok event
    → IsNormalized type event
unfolding parse_fields
parse_fields-IsNormalized MarketEventType.book_updates config at_place a b c d f event e =
    let (key, _, e₁) = >>=-eq-ok (parse_event_key a b at_place) _ e in
    let (side, _, e₂) = >>=-eq-ok (parse_side_field c at_place (codes "side")) _ e₁ in
    let (p, priced, e₃) = >>=-eq-ok (parse_price_field d at_place config) _ e₂ in
    let (q, sized, e₄) = >>=-eq-ok (parse_quantity_field f at_place) _ e₃ in
    subst (IsNormalized MarketEventType.book_updates) (ok_eq _ event e₄)
      (price_field_nonneg d at_place config p priced, quantity_field_nonneg f at_place q sized)
parse_fields-IsNormalized MarketEventType.trades config at_place a b c d f event e =
    let (key, _, e₁) = >>=-eq-ok (parse_event_key a b at_place) _ e in
    let (p, priced, e₂) = >>=-eq-ok (parse_price_field c at_place config) _ e₁ in
    let (q, sized, e₃) = >>=-eq-ok (parse_quantity_field d at_place) _ e₂ in
    let (side, _, e₄) = >>=-eq-ok (parse_aggressor f at_place) _ e₃ in
    subst (IsNormalized MarketEventType.trades) (ok_eq _ event e₄)
      (price_field_nonneg c at_place config p priced, quantity_field_nonneg d at_place q sized)

pub parse_row-IsNormalized :
    (type : MarketEventType) (config : FeedParserConfig) (at_place : Place) (fields : List Text)
    (event : MarketEvent)
    → parse_row type config at_place fields ≡ ok event
    → IsNormalized type event
unfolding parse_row
parse_row-IsNormalized type config at_place (a ∷ b ∷ c ∷ d ∷ f ∷ []) event e =
    parse_fields-IsNormalized type config at_place a b c d f event e
parse_row-IsNormalized type config at_place [] event e = cc
parse_row-IsNormalized type config at_place (a ∷ []) event e = cc
parse_row-IsNormalized type config at_place (a ∷ b ∷ []) event e = cc
parse_row-IsNormalized type config at_place (a ∷ b ∷ c ∷ []) event e = cc
parse_row-IsNormalized type config at_place (a ∷ b ∷ c ∷ d ∷ []) event e = cc
parse_row-IsNormalized type config at_place (a ∷ b ∷ c ∷ d ∷ f ∷ g ∷ more) event e = cc
