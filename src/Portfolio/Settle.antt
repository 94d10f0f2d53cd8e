-- ===== src/Portfolio/Settle.antt =====
-- What `apply_fill` of src/portfolio.cpp has done when it returns.
use cpp_market_replay_engine.Base.{
  ℤ, pos, ◌+ℤ◌, ◌-ℤ◌, ◌*ℤ◌, ◌≤ℤ◌, ◌<ℤ◌, int_laws, Error, Result, ok, err, Result-cases, ◌≡◌, ◌≢◌,
  inl, inr, false, List, [], ◌∷◌, ◌++◌, arith,
}
use cpp_market_replay_engine.Types.{Quantity, Side}
use cpp_market_replay_engine.Fill.{Fill}
use cpp_market_replay_engine.Portfolio.Lots.{
  checked_accounting_add, checked_accounting_sub, PositionLot, signed, net_quantity, match_lots,
  open_lot,
}
use cpp_market_replay_engine.Portfolio.Matching.{IsInt64}
use cpp_market_replay_engine.Portfolio.Balance.{opposite_of}
use cpp_market_replay_engine.Portfolio.{
  AccountingLedgerEntry, Portfolio, validate_fill_for_accounting, contains, checked_notional_amount,
  inventory, apply_buy_lot, apply_sell_lot, record_ledger_entry, settle, apply_fill,
}

abbrev pub notional_of : Fill → ℤ
notional_of fill = fill.price_ticks *ℤ fill.quantity

-- What is known of a portfolio once its cash and lots have taken in a fill, where the loop over the
-- lots left `rest` of the fill, the profit `realized` and the lots `kept`.
pub record Settled (side : Side) (p : Portfolio) (fill : Fill) (rest : Quantity) (realized : ℤ)
    (kept : List PositionLot) (q : Portfolio) : Type 0 where
  pub opened : q.lots ≡ open_lot side fill rest kept
  pub profit : q.realized_gross_pnl ≡ realized
  pub cash : q.cash ≡ p.cash -ℤ signed side (notional_of fill) -ℤ fill.fee_amount
  pub cash_fits : IsInt64 q.cash
  pub same_initial : q.initial_cash ≡ p.initial_cash
  pub same_fees : q.total_fees ≡ p.total_fees
  pub same_turnover : q.turnover ≡ p.turnover
  pub same_ids : q.applied_fill_sequence_ids ≡ p.applied_fill_sequence_ids
  pub same_ledger : q.ledger ≡ p.ledger

abbrev pub matching : Side → Portfolio → Fill → Result (Quantity × ℤ × List PositionLot)
matching side p fill =
    match_lots (opposite_of side) fill.price_ticks fill.quantity p.realized_gross_pnl p.lots

add_neg : (a b : ℤ) → a +ℤ b ≡ a -ℤ (pos 0 -ℤ b)
add_neg a b = omega int_laws

pub settle-Settled :
    (side : Side) (p q : Portfolio) (fill : Fill) (rest : Quantity) (realized : ℤ)
    (kept : List PositionLot)
    → matching side p fill ≡ ok (rest, realized, kept)
    → settle side p fill (notional_of fill) ≡ ok q
    → Settled side p fill rest realized kept q
unfolding settle apply_buy_lot apply_sell_lot checked_accounting_sub checked_accounting_add
settle-Settled Side.buy p q fill rest realized kept m e = ground arith
settle-Settled Side.sell p q fill rest realized kept m e =
    ground (arith, add_neg p.cash (notional_of fill))

pub settle_refused :
    (side : Side) (p q : Portfolio) (fill : Fill) (error : Error)
    → matching side p fill ≡ err error
    → settle side p fill (notional_of fill) ≢ ok q
unfolding settle apply_buy_lot apply_sell_lot
settle_refused Side.buy p q fill error m e = ground arith
settle_refused Side.sell p q fill error m e = ground arith

-- The ledger entry of a fill that left `p` behind.
abbrev pub entry_of : Fill → Portfolio → AccountingLedgerEntry
entry_of fill p = record {
  fill_sequence_id = fill.fill_sequence_id;
  order_id = fill.order_id;
  fill_timestamp_ns = fill.fill_timestamp_ns;
  side = fill.side;
  price_ticks = fill.price_ticks;
  quantity = fill.quantity;
  fee_amount = fill.fee_amount;
  cash_after = p.cash;
  inventory_after = net_quantity p.lots;
  realized_gross_pnl_after = p.realized_gross_pnl;
}

-- What a fill that was applied has met, and what it has changed once `s` was settled.
pub record Applied (p : Portfolio) (fill : Fill) (s q : Portfolio) : Type 0 where
  pub price : pos 0 ≤ℤ fill.price_ticks
  pub quantity : pos 0 <ℤ fill.quantity
  pub fee : pos 0 ≤ℤ fill.fee_amount
  pub fresh : contains fill.fill_sequence_id p.applied_fill_sequence_ids ≡ false
  pub initial : q.initial_cash ≡ s.initial_cash
  pub cash : q.cash ≡ s.cash
  pub profit : q.realized_gross_pnl ≡ s.realized_gross_pnl
  pub lots : q.lots ≡ s.lots
  pub fees : q.total_fees ≡ s.total_fees +ℤ fill.fee_amount
  pub turnover : q.turnover ≡ s.turnover +ℤ notional_of fill
  pub ids : q.applied_fill_sequence_ids ≡ s.applied_fill_sequence_ids ++ fill.fill_sequence_id ∷ []
  pub ledger : q.ledger ≡ s.ledger ++ entry_of fill s ∷ []
  pub inventory_fits : IsInt64 (net_quantity s.lots)

settled-Applied :
    (p s q : Portfolio) (fill : Fill)
    → settle fill.side p fill (notional_of fill) ≡ ok s
    → apply_fill p fill ≡ ok q
    → Applied p fill s q
unfolding apply_fill validate_fill_for_accounting checked_notional_amount checked_accounting_add
    record_ledger_entry inventory
settled-Applied p s q fill m e = ground arith

apply_fill_unsettled :
    (p q : Portfolio) (fill : Fill) (error : Error)
    → settle fill.side p fill (notional_of fill) ≡ err error
    → apply_fill p fill ≢ ok q
unfolding apply_fill validate_fill_for_accounting checked_notional_amount
apply_fill_unsettled p q fill error m e = ground arith

-- A fill that is applied was matched and settled.
pub apply_fill-Applied :
    (p q : Portfolio) (fill : Fill)
    → apply_fill p fill ≡ ok q
    → (s : Portfolio) × (settle fill.side p fill (notional_of fill) ≡ ok s) × Applied p fill s q
apply_fill-Applied p q fill e = elim (Result-cases (settle fill.side p fill (notional_of fill))) [
  | inl (s, m) ↦ (s, m, settled-Applied p s q fill m e)
  | inr (error, m) ↦ absurd (apply_fill_unsettled p q fill error m e)
]
