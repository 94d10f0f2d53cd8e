-- ===== src/Types/Names.antt =====
-- Names and plain integers as text: `parse_side`, `parse_order_type`, `parse_order_status`,
-- `parse_price_ticks` and `parse_quantity` of src/types.cpp, and std::from_chars as they use it.
use cpp_market_replay_engine.Base.{
  ltb, ◌==◌, if◌then◌else◌, ℤ, pos, Error, empty_text, signed_text, explicit_sign, too_large,
  not_an_integer, invalid_side, invalid_order_type, invalid_order_status, Result, err, ok, ◌>>=◌,
  ◌>>◌, ℕ, ◌+◌, ◌-◌, ◌*◌, Bool, false, not, ◌||◌, [], ◌∷◌,
}
use cpp_market_replay_engine.Base.Text.{Text, codes, same_text, is_empty_text, is_digit}
use cpp_market_replay_engine.Types.{
  int64_max, PriceTicks, Quantity, Side, OrderType, OrderStatus, validate_price_ticks,
  validate_quantity,
}

unfoldable pub parse_side : Text → Result Side
parse_side text =
    if same_text text (codes "buy") || same_text text (codes "B")
    then ok Side.buy
    else if same_text text (codes "sell") || same_text text (codes "S")
    then ok Side.sell
    else err invalid_side

unfoldable pub parse_order_type : Text → Result OrderType
parse_order_type text =
    if same_text text (codes "market")
    then ok OrderType.market
    else if same_text text (codes "limit")
    then ok OrderType.limit
    else err invalid_order_type

unfoldable pub parse_order_status : Text → Result OrderStatus
parse_order_status text =
    if same_text text (codes "new")
    then ok OrderStatus.new
    else if same_text text (codes "pending")
    then ok OrderStatus.pending
    else if same_text text (codes "acknowledged")
    then ok OrderStatus.acknowledged
    else if same_text text (codes "partially_filled")
    then ok OrderStatus.partially_filled
    else if same_text text (codes "filled")
    then ok OrderStatus.filled
    else if same_text text (codes "canceled")
    then ok OrderStatus.canceled
    else if same_text text (codes "rejected")
    then ok OrderStatus.rejected
    else err invalid_order_status

-- The digits that std::from_chars matches, with their value, and the text behind them.
unfoldable pub scan_digits : ℕ → Text → ℕ × Text
scan_digits value [] = (value, [])
scan_digits value (ch ∷ text) =
    let rest = scan_digits (value * 10 + (ch - b'0')) text in
    if is_digit ch then rest else (value, ch ∷ text)

abbrev pub starts_with_digit : Text → Bool
starts_with_digit [] = false
starts_with_digit (ch ∷ text) = is_digit ch

-- A call of std::from_chars on a text without a sign, and the tests of its result, for a type whose
-- largest value is `largest`: an overflow is `out_of_range`, no digits or text behind the digits is
-- `malformed`.
unfoldable pub read_digits : ℕ → Text → Error → Error → Result ℕ
read_digits largest text out_of_range malformed =
    let (value, rest) = scan_digits 0 text in
    if not (starts_with_digit text)
    then err malformed
    else if ltb largest value
    then err out_of_range
    else if is_empty_text rest
    then ok value
    else err malformed

unfoldable pub parse_non_negative_int64 : Text → Text → Result ℤ
parse_non_negative_int64 [] field_name = err (empty_text field_name)
parse_non_negative_int64 (ch ∷ text) field_name =
    if ch == b'-'
    then err (signed_text field_name)
    else if ch == b'+'
    then err (explicit_sign field_name)
    else (read_digits int64_max (ch ∷ text) (too_large field_name) (not_an_integer field_name)
        >>= λ value. ok (pos value))

unfoldable pub parse_price_ticks : Text → Result PriceTicks
parse_price_ticks text = do
  value ← parse_non_negative_int64 text (codes "price_ticks")
  validate_price_ticks value
  ok value

unfoldable pub parse_quantity : Text → Result Quantity
parse_quantity text = do
  value ← parse_non_negative_int64 text (codes "quantity")
  validate_quantity value
  ok value
