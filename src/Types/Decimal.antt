-- ===== src/Types/Decimal.antt =====
-- Decimal prices and plain integers as text: the parsers and the formatter of src/types.cpp. The
-- products of two uint64_t that the code computes in unsigned __int128 fit it, so they are numbers.
use cpp_market_replay_engine.Base.{
  ltb, leb, ◌==◌, if◌then◌else◌, length, take, drop, pos, pos_part, empty_text, no_digits,
  signed_text, not_plain_decimal, too_large, too_many_places, nonpositive_tick_size,
  scale_too_large, not_multiple_of_tick, price_ticks_out_of_range, Result, err, ok, throw_if, ◌>>=◌,
  ◌>>◌, ℕ, zero, suc, ◌+◌, ◌-◌, ◌*◌, ◌/◌, ◌%◌, Bool, true, false, not, ◌&&◌, [], ◌∷◌, ◌++◌,
}
use cpp_market_replay_engine.Base.Text.{Text, codes, digits, decimal, is_empty_text, is_digit}
use cpp_market_replay_engine.Types.{int64_max, uint64_max, PriceTicks, validate_price_ticks}

-- The largest uint32_t.
abbrev pub uint32_max : ℕ
uint32_max = 4294967295

pub record Decimal : Type 0 where
  pub coefficient : ℕ
  pub scale : ℕ

unfoldable pub checked_mul10_add : ℕ → ℕ → Text → Result ℕ
checked_mul10_add value digit field_name =
    if ltb ((uint64_max - digit) / 10) value
    then err (too_large field_name)
    else ok (value * 10 + digit)

-- What the loop of `parse_non_negative_decimal` changes.
pub record DecimalState : Type 0 where
  pub coefficient : ℕ
  pub scale : ℕ
  pub saw_digit : Bool
  pub saw_decimal_point : Bool

unfoldable pub count_place : Text → DecimalState → Result DecimalState
count_place field_name s =
    if not s.saw_decimal_point
    then ok s
    else if s.scale == uint32_max
    then err (too_many_places field_name)
    else ok (record s { scale = s.scale + 1 })

-- The body of the loop.
unfoldable pub decimal_step : Text → DecimalState → ℕ → Result DecimalState
decimal_step field_name s ch =
    if is_digit ch
    then (checked_mul10_add s.coefficient (ch - b'0') field_name >>= λ coefficient.
        count_place field_name (record s { coefficient = coefficient; saw_digit = true }))
    else if (ch == b'.') && not s.saw_decimal_point
    then ok (record s { saw_decimal_point = true })
    else err (not_plain_decimal field_name)

unfoldable pub decimal_loop : Text → DecimalState → Text → Result DecimalState
decimal_loop field_name s [] = ok s
decimal_loop field_name s (ch ∷ text) = do
  next ← decimal_step field_name s ch
  decimal_loop field_name next text

-- The loop that drops the zeros at the end: by recursion on the scale.
unfoldable pub strip_zeros : ℕ → ℕ → Decimal
strip_zeros coefficient zero = record { coefficient = coefficient; scale = 0 }
strip_zeros coefficient (suc scale) =
    let shorter = strip_zeros (coefficient / 10) scale in
    if (coefficient % 10) == 0
    then shorter
    else record { coefficient = coefficient; scale = suc scale }

-- The loop and what follows it.
unfoldable pub parse_digits : Text → Text → Result Decimal
parse_digits field_name text = do
  s ←
      decimal_loop field_name
        (record { coefficient = 0; scale = 0; saw_digit = false; saw_decimal_point = false }) text
  throw_if (not s.saw_digit) (no_digits field_name)
  ok (strip_zeros s.coefficient s.scale)

unfoldable pub parse_non_negative_decimal : Text → Text → Result Decimal
parse_non_negative_decimal [] field_name = err (empty_text field_name)
parse_non_negative_decimal (ch ∷ text) field_name =
    if ch == b'+'
    then if is_empty_text text then err (no_digits field_name) else parse_digits field_name text
    else if ch == b'-'
    then err (signed_text field_name)
    else parse_digits field_name (ch ∷ text)

-- The loop of `pow10`, from a value on.
unfoldable pub pow10_from : ℕ → ℕ → Result ℕ
pow10_from value zero = ok value
pow10_from value (suc exponent) =
    let rest = pow10_from (value * 10) exponent in
    if ltb (uint64_max / 10) value then err scale_too_large else rest

abbrev pub pow10 : ℕ → Result ℕ
unfolding pow10_from
pow10 exponent = pow10_from 1 exponent

abbrev pub checked_to_uint64 : ℕ → Text → Result ℕ
checked_to_uint64 value field_name =
    if ltb uint64_max value then err (too_large field_name) else ok value

-- `std::string(n, '0')`
abbrev pub zeros : ℕ → Text
zeros zero = []
zeros (suc n) = b'0' ∷ zeros n

-- Zeros in front, so that a digit stays before the point.
abbrev pub pad : Text → ℕ → Text
pad digits scale =
    if leb (length digits) scale then zeros (scale - length digits + 1) ++ digits else digits

unfoldable pub format_scaled_decimal : ℕ → ℕ → Text
format_scaled_decimal coefficient zero = decimal coefficient
format_scaled_decimal coefficient (suc scale) =
    let digits = pad (decimal coefficient) (suc scale) in
    let decimal_position = length digits - suc scale in
    take decimal_position digits ++ b'.' ∷ drop decimal_position digits

unfoldable pub parse_tick_size : Text → Result Decimal
parse_tick_size tick_size = do
  parsed ← parse_non_negative_decimal tick_size (codes "tick_size")
  throw_if (parsed.coefficient == 0) nonpositive_tick_size
  ok parsed

unfoldable pub validate_tick_size : Text → Result (Unit {0})
validate_tick_size tick_size = do _ ← parse_tick_size tick_size; ok tt

-- `price_to_ticks` behind the two scales. A denominator of zero is refused before the division.
unfoldable pub exact_ticks : ℕ → ℕ → Result PriceTicks
exact_ticks numerator denominator = do
  throw_if (denominator == 0) nonpositive_tick_size
  throw_if (not ((numerator % denominator) == 0)) not_multiple_of_tick
  ticks ← checked_to_uint64 (numerator / denominator) (codes "price_ticks")
  throw_if (ltb int64_max ticks) price_ticks_out_of_range
  ok (pos ticks)

unfoldable pub price_to_ticks : Text → Text → Result PriceTicks
price_to_ticks decimal_price tick_size = do
  price ← parse_non_negative_decimal decimal_price (codes "decimal_price")
  tick ← parse_tick_size tick_size
  numerator_scale ← pow10 tick.scale
  denominator_scale ← pow10 price.scale
  exact_ticks (price.coefficient * numerator_scale) (tick.coefficient * denominator_scale)

unfoldable pub ticks_to_price : PriceTicks → Text → Result Text
ticks_to_price price_ticks tick_size = do
  validate_price_ticks price_ticks
  tick ← parse_tick_size tick_size
  coefficient ← checked_to_uint64 (pos_part price_ticks * tick.coefficient) (codes "decimal_price")
  ok (format_scaled_decimal coefficient tick.scale)
