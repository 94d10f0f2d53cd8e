-- ===== src/Tests/Prices.antt =====
-- Tests of the parsing and the printing of prices and numbers.
use cpp_market_replay_engine.Base.{
  pos, pos_part, no_digits, signed_text, not_multiple_of_tick, err, ok, ◌*◌, ◌^◌, ◌≡◌, refl, arith,
}
use cpp_market_replay_engine.Base.Text.{Text, codes, digits, decimal}
use cpp_market_replay_engine.Types.{validate_price_ticks}
use cpp_market_replay_engine.Types.Decimal.{
  Decimal, checked_mul10_add, count_place, decimal_step, decimal_loop, strip_zeros, parse_digits,
  parse_non_negative_decimal, pow10_from, format_scaled_decimal, parse_tick_size, exact_ticks,
  price_to_ticks, ticks_to_price,
}
use cpp_market_replay_engine.Types.Names.{parse_price_ticks, parse_quantity}
use cpp_market_replay_engine.Types.RoundTrip.{price_to_ticks-exact, price_to_ticks-ticks_to_price}
use cpp_market_replay_engine.Types.Numbers.{parse_quantity-decimal}

abbrev cent : Text
cent = codes "0.01"

cent_parsed : parse_tick_size cent ≡ ok (record { coefficient = 1; scale = 2 })
unfolding parse_tick_size parse_non_negative_decimal parse_digits decimal_loop decimal_step
    count_place checked_mul10_add strip_zeros
cent_parsed = refl

price_parsed : price_to_ticks (codes "101.50") cent ≡ ok (pos 10150)
unfolding price_to_ticks exact_ticks pow10_from parse_tick_size parse_non_negative_decimal
    parse_digits decimal_loop decimal_step count_place checked_mul10_add strip_zeros
price_parsed = refl

-- A price between two ticks, a negative one and one without digits are refused.
between_ticks : price_to_ticks (codes "101.505") cent ≡ err not_multiple_of_tick
unfolding price_to_ticks exact_ticks pow10_from parse_tick_size parse_non_negative_decimal
    parse_digits decimal_loop decimal_step count_place checked_mul10_add strip_zeros
between_ticks = refl

negative : price_to_ticks (codes "-1") cent ≡ err (signed_text (codes "decimal_price"))
unfolding price_to_ticks parse_non_negative_decimal
negative = refl

no_digit : price_to_ticks (codes "+.") cent ≡ err (no_digits (codes "decimal_price"))
unfolding price_to_ticks parse_non_negative_decimal parse_digits decimal_loop decimal_step
no_digit = refl

price_printed : ticks_to_price (pos 10150) cent ≡ ok (codes "101.50")
unfolding ticks_to_price format_scaled_decimal validate_price_ticks parse_tick_size
    parse_non_negative_decimal parse_digits decimal_loop decimal_step count_place checked_mul10_add
    strip_zeros digits
price_printed = refl

price_to_ticks-ticks_to_price_example : price_to_ticks (codes "101.50") cent ≡ ok (pos 10150)
price_to_ticks-ticks_to_price_example =
    price_to_ticks-ticks_to_price (pos 10150) cent (codes "101.50")
      (record { coefficient = 1; scale = 2 }) (omega arith) cent_parsed (omega arith) price_printed

price_to_ticks-exact_example :
    (price : Decimal) × (t : Decimal) × (parse_non_negative_decimal
        (codes "101.50")
        (codes "decimal_price")
      ≡ ok price)
    × (parse_tick_size cent ≡ ok t)
    × (pos (pos_part (pos 10150)) ≡ pos 10150)
    × (price.coefficient * 10 ^ t.scale ≡ pos_part (pos 10150) * (t.coefficient * 10 ^ price.scale))
price_to_ticks-exact_example = price_to_ticks-exact (codes "101.50") cent (pos 10150) price_parsed

parse_quantity-decimal_example :
    (parse_quantity (decimal 250) ≡ ok (pos 250)) × (parse_price_ticks (decimal 250) ≡ ok (pos 250))
parse_quantity-decimal_example = parse_quantity-decimal 250 (omega arith)
