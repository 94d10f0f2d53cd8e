-- ===== src/Types.antt =====
-- include/replay/types.hpp and src/types.cpp: sides, order types and statuses, event keys,
-- latencies, and the validation of prices and quantities. An int64_t is a ℤ, a uint64_t an ℕ.
pub mod Decimal
pub mod Names
pub mod Digits
pub mod Format
pub mod RoundTrip
pub mod Numbers
use cpp_market_replay_engine.Base.{
  ltb, ◌==◌, if◌then◌else◌, ℤ, pos, pos_part, ◌*ℤ◌, quot, ltb_ℤ, negative_price, negative_quantity,
  negative_latency, latency_too_large, Result, ok, err, throw_if, ℕ, ◌+◌, ◌%◌, Bool, true, false,
  not, ◌&&◌,
}

-- 2^63 - 1 and 2^64 - 1
abbrev pub int64_max : ℕ
int64_max = 9223372036854775807

abbrev pub uint64_max : ℕ
uint64_max = 18446744073709551615

-- `++` on a uint64_t
abbrev pub increment : ℕ → ℕ
increment n = (n + 1) % 18446744073709551616

abbrev pub TimestampNs : Type 0
TimestampNs = ℕ

abbrev pub OrderId : Type 0
OrderId = ℕ

abbrev pub PriceTicks : Type 0
PriceTicks = ℤ

abbrev pub Quantity : Type 0
Quantity = ℤ

pub data Side : Type 0 where
  buy sell : Side

pub data OrderType : Type 0 where
  market limit : OrderType

pub data OrderStatus : Type 0 where
  new pending acknowledged partially_filled filled canceled rejected : OrderStatus

-- `==` on the two enumerations
abbrev pub is_buy : Side → Bool
is_buy Side.buy = true
is_buy Side.sell = false

abbrev pub same_status : OrderStatus → OrderStatus → Bool
same_status OrderStatus.new OrderStatus.new = true
same_status OrderStatus.pending OrderStatus.pending = true
same_status OrderStatus.acknowledged OrderStatus.acknowledged = true
same_status OrderStatus.partially_filled OrderStatus.partially_filled = true
same_status OrderStatus.filled OrderStatus.filled = true
same_status OrderStatus.canceled OrderStatus.canceled = true
same_status OrderStatus.rejected OrderStatus.rejected = true
same_status _ _ = false

pub record EventKey : Type 0 where
  pub timestamp_ns : TimestampNs
  pub sequence_id : ℕ

-- `operator==`
unfoldable pub same_key : EventKey → EventKey → Bool
same_key a b = (a.timestamp_ns == b.timestamp_ns) && (a.sequence_id == b.sequence_id)

-- `operator<`
unfoldable pub key_less : EventKey → EventKey → Bool
key_less lhs rhs =
    if not (lhs.timestamp_ns == rhs.timestamp_ns)
    then ltb lhs.timestamp_ns rhs.timestamp_ns
    else ltb lhs.sequence_id rhs.sequence_id

pub record LatencyNs : Type 0 where
  pub count : TimestampNs

unfoldable pub from_nanoseconds : ℤ → Result LatencyNs
from_nanoseconds latency_ns =
    if ltb_ℤ latency_ns (pos 0)
    then err negative_latency
    else ok (record { count = pos_part latency_ns })

unfoldable pub from_microseconds : ℤ → Result LatencyNs
unfolding from_nanoseconds
from_microseconds latency_us =
    if ltb_ℤ latency_us (pos 0)
    then err negative_latency
    else if ltb_ℤ (quot (pos int64_max) 1000) latency_us
    then err latency_too_large
    else from_nanoseconds (latency_us *ℤ pos 1000)

unfoldable pub validate_price_ticks : PriceTicks → Result (Unit {0})
validate_price_ticks price_ticks = throw_if (ltb_ℤ price_ticks (pos 0)) negative_price

unfoldable pub validate_quantity : Quantity → Result (Unit {0})
validate_quantity quantity = throw_if (ltb_ℤ quantity (pos 0)) negative_quantity
