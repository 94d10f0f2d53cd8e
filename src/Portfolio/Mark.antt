-- ===== src/Portfolio/Mark.antt =====
-- Marking a portfolio at the middle of the book, and marking by cash alone (src/portfolio.cpp).
-- Amounts are doubled, since the middle price is the sum of the two best prices.
use cpp_market_replay_engine.Base.{
  if◌then◌else◌, ℤ, pos, ◌+ℤ◌, ◌-ℤ◌, ◌*ℤ◌, eqb_ℤ, nonzero_inventory, Result, ok, ◌>>=◌, ◌>>◌,
  throw_if, Bool, true, false, not, ◌&&◌, ◌||◌, Option, none, some, List, [], ◌∷◌,
}
use cpp_market_replay_engine.Types.{PriceTicks, Quantity, Side, is_buy}
use cpp_market_replay_engine.OrderBook.{
  OrderBook, best_bid, best_ask, is_empty, mid_price_x2_ticks, is_crossed,
}
use cpp_market_replay_engine.Portfolio.Lots.{
  checked_to_accounting_x2, checked_accounting_x2, PositionLot,
}
use cpp_market_replay_engine.Portfolio.{Portfolio, inventory}

abbrev pub is_none {ℓ} : {A : Type ℓ} → Option A → Bool
is_none none = true
is_none (some a) = false

unfoldable pub mark_mid_x2 : OrderBook → Result (Option ℤ)
mark_mid_x2 book =
    if is_empty book || is_none (best_bid book) || is_none (best_ask book)
    then ok none
    else if is_crossed book
    then ok none
    else mid_price_x2_ticks book

-- `delta_x2` of `lot_unrealized_x2`.
abbrev pub delta_x2 : Side → PriceTicks → ℤ → ℤ
delta_x2 opening_side entry mid =
    if is_buy opening_side then mid -ℤ entry *ℤ pos 2 else entry *ℤ pos 2 -ℤ mid

unfoldable pub lot_unrealized_x2 : PositionLot → ℤ → Result ℤ
unfolding checked_to_accounting_x2
lot_unrealized_x2 lot mid =
    checked_to_accounting_x2
      (delta_x2 lot.opening_side lot.entry_price_ticks mid *ℤ lot.remaining_quantity)

-- The loop over the lots, from what it has added up.
unfoldable pub unrealized_x2 : ℤ → ℤ → List PositionLot → Result ℤ
unrealized_x2 mid total [] = ok total
unrealized_x2 mid total (lot ∷ lots) = do
  value ← lot_unrealized_x2 lot mid
  next ← checked_to_accounting_x2 (total +ℤ value)
  unrealized_x2 mid next lots

-- The two parts that wait on a middle price.
abbrev pub unrealized_at : Option ℤ → List PositionLot → Result ℤ
unrealized_at none lots = ok (pos 0)
unrealized_at (some mid) lots = unrealized_x2 mid (pos 0) lots

abbrev pub marked_inventory_x2 : Option ℤ → Quantity → Result ℤ
marked_inventory_x2 none current = ok (pos 0)
marked_inventory_x2 (some mid) current = checked_to_accounting_x2 (current *ℤ mid)

pub record PortfolioMark : Type 0 where
  pub mid_x2_ticks : Option ℤ
  pub unrealized_gross_pnl_x2 : ℤ
  pub equity_x2 : ℤ
  pub net_total_pnl_x2 : ℤ

-- `mark_to_market` behind its early return.
unfoldable pub mark_at : Portfolio → Quantity → Option ℤ → Result PortfolioMark
mark_at p current mid = do
  unrealized ← unrealized_at mid p.lots
  cash_x2 ← checked_accounting_x2 p.cash
  marked ← marked_inventory_x2 mid current
  equity ← checked_to_accounting_x2 (cash_x2 +ℤ marked)
  net ←
      checked_to_accounting_x2
        (p.realized_gross_pnl *ℤ pos 2 +ℤ unrealized -ℤ p.total_fees *ℤ pos 2)
  ok (record {
    mid_x2_ticks = mid;
    unrealized_gross_pnl_x2 = unrealized;
    equity_x2 = equity;
    net_total_pnl_x2 = net;
  })

unfoldable pub mark_to_market : Portfolio → OrderBook → Result (Option PortfolioMark)
mark_to_market p book = do
  current ← inventory p
  mid ← mark_mid_x2 book
  if not (eqb_ℤ current (pos 0)) && is_none mid
      then ok none
      else (mark_at p current mid >>= λ mark. ok (some mark))

unfoldable pub cash_only_mark : Portfolio → Result PortfolioMark
cash_only_mark p = do
  current ← inventory p
  throw_if (not (eqb_ℤ current (pos 0))) nonzero_inventory
  cash_x2 ← checked_accounting_x2 p.cash
  net ← checked_to_accounting_x2 (p.realized_gross_pnl *ℤ pos 2 -ℤ p.total_fees *ℤ pos 2)
  ok (record {
    mid_x2_ticks = none;
    unrealized_gross_pnl_x2 = pos 0;
    equity_x2 = cash_x2;
    net_total_pnl_x2 = net;
  })
