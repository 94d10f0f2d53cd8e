-- ===== src/Portfolio.antt =====
-- include/replay/portfolio.hpp and src/portfolio.cpp: cash, FIFO lots, realized profit, fees and the
-- ledger. `apply_fill` works on a copy that replaces the portfolio at the end, so that a throw leaves
-- the portfolio as it was; here a throw returns no new portfolio. A value of __int128 is a ℤ.
pub mod Lots
pub mod Matching
pub mod Balance
pub mod Settle
pub mod Invariant
pub mod Sums
pub mod Accounts
pub mod Mark
pub mod Equity
use cpp_market_replay_engine.Base.{
  ◌==◌, if◌then◌else◌, ℤ, pos, ◌*ℤ◌, ltb_ℤ, eqb_ℤ, zero_quantity, negative_fee, duplicate_fill,
  inventory_overflow, Result, ok, err, ◌>>=◌, ◌>>◌, throw_if, ℕ, Bool, true, false, ◌||◌, List, [],
  ◌∷◌, ◌++◌,
}
use cpp_market_replay_engine.Types.{
  int64_max, TimestampNs, OrderId, PriceTicks, Quantity, Side, validate_price_ticks,
  validate_quantity,
}
use cpp_market_replay_engine.Fill.{Fill}
use cpp_market_replay_engine.Portfolio.Lots.{
  int64_min, checked_to_accounting_amount, checked_accounting_add, checked_accounting_sub,
  PositionLot, net_quantity, match_lots, open_lot,
}

pub record AccountingLedgerEntry : Type 0 where
  pub fill_sequence_id : ℕ
  pub order_id : OrderId
  pub fill_timestamp_ns : TimestampNs
  pub side : Side
  pub price_ticks : PriceTicks
  pub quantity : Quantity
  pub fee_amount : ℤ
  pub cash_after : ℤ
  pub inventory_after : Quantity
  pub realized_gross_pnl_after : ℤ

pub record Portfolio : Type 0 where
  pub initial_cash : ℤ
  pub cash : ℤ
  pub realized_gross_pnl : ℤ
  pub total_fees : ℤ
  pub turnover : ℤ
  pub lots : List PositionLot
  pub applied_fill_sequence_ids : List ℕ
  pub ledger : List AccountingLedgerEntry

-- The constructor.
abbrev pub make_portfolio : ℤ → Portfolio
make_portfolio initial_cash = record {
  initial_cash = initial_cash;
  cash = initial_cash;
  realized_gross_pnl = pos 0;
  total_fees = pos 0;
  turnover = pos 0;
  lots = [];
  applied_fill_sequence_ids = [];
  ledger = [];
}

unfoldable pub validate_fill_for_accounting : Fill → Result (Unit {0})
unfolding validate_price_ticks validate_quantity
validate_fill_for_accounting fill = do
  validate_price_ticks fill.price_ticks
  validate_quantity fill.quantity
  throw_if (eqb_ℤ fill.quantity (pos 0)) zero_quantity
  throw_if (ltb_ℤ fill.fee_amount (pos 0)) negative_fee

-- `std::find` over the applied fills.
abbrev pub contains : ℕ → List ℕ → Bool
contains id [] = false
contains id (i ∷ ids) = if i == id then true else contains id ids

abbrev pub reject_duplicate_fill : Portfolio → ℕ → Result (Unit {0})
reject_duplicate_fill p id = throw_if (contains id p.applied_fill_sequence_ids) duplicate_fill

unfoldable pub checked_notional_amount : PriceTicks → Quantity → Result ℤ
unfolding validate_price_ticks validate_quantity checked_to_accounting_amount
checked_notional_amount price_ticks quantity = do
  validate_price_ticks price_ticks
  validate_quantity quantity
  checked_to_accounting_amount (price_ticks *ℤ quantity)

-- The loop of `Portfolio::inventory`, and the check of its total.
unfoldable pub inventory : Portfolio → Result Quantity
inventory p =
    let total = net_quantity p.lots in
    if ltb_ℤ (pos int64_max) total || ltb_ℤ total int64_min
    then err inventory_overflow
    else ok total

-- The loop over the lots, then a new lot for what it leaves.
unfoldable pub apply_buy_lot : Portfolio → Fill → Result Portfolio
apply_buy_lot p fill = do
  (remaining, realized, lots) ←
      match_lots Side.sell fill.price_ticks fill.quantity p.realized_gross_pnl p.lots
  ok (record p { realized_gross_pnl = realized; lots = open_lot Side.buy fill remaining lots })

unfoldable pub apply_sell_lot : Portfolio → Fill → Result Portfolio
apply_sell_lot p fill = do
  (remaining, realized, lots) ←
      match_lots Side.buy fill.price_ticks fill.quantity p.realized_gross_pnl p.lots
  ok (record p { realized_gross_pnl = realized; lots = open_lot Side.sell fill remaining lots })

unfoldable pub record_ledger_entry : Portfolio → Fill → Result Portfolio
record_ledger_entry p fill = do
  inventory_after ← inventory p
  ok (record p {
    ledger =
        p.ledger
        ++ record {
          fill_sequence_id = fill.fill_sequence_id;
          order_id = fill.order_id;
          fill_timestamp_ns = fill.fill_timestamp_ns;
          side = fill.side;
          price_ticks = fill.price_ticks;
          quantity = fill.quantity;
          fee_amount = fill.fee_amount;
          cash_after = p.cash;
          inventory_after = inventory_after;
          realized_gross_pnl_after = p.realized_gross_pnl;
        }
          ∷ [];
  })

-- Cash and lots of the copy, by the side of the fill.
unfoldable pub settle : Side → Portfolio → Fill → ℤ → Result Portfolio
settle Side.buy p fill notional = do
  paid ← checked_accounting_sub p.cash notional
  cash ← checked_accounting_sub paid fill.fee_amount
  apply_buy_lot (record p { cash = cash }) fill
settle Side.sell p fill notional = do
  received ← checked_accounting_add p.cash notional
  cash ← checked_accounting_sub received fill.fee_amount
  apply_sell_lot (record p { cash = cash }) fill

unfoldable pub apply_fill : Portfolio → Fill → Result Portfolio
apply_fill p fill = do
  validate_fill_for_accounting fill
  reject_duplicate_fill p fill.fill_sequence_id
  notional ← checked_notional_amount fill.price_ticks fill.quantity
  settled ← settle fill.side p fill notional
  fees ← checked_accounting_add settled.total_fees fill.fee_amount
  turnover ← checked_accounting_add settled.turnover notional
  record_ledger_entry
      (record settled {
        total_fees = fees;
        turnover = turnover;
        applied_fill_sequence_ids = settled.applied_fill_sequence_ids ++ fill.fill_sequence_id ∷ [];
      })
      fill
