-- ===== src/Tests/Accounting.antt =====
-- Tests of the portfolio and of its mark.
use cpp_market_replay_engine.Base.{
  pos, negsuc, ◌+ℤ◌, ◌-ℤ◌, ◌*ℤ◌, duplicate_fill, ok, err, ◌≡◌, refl, some, List, [], ◌∷◌,
}
use cpp_market_replay_engine.Types.{Side, validate_price_ticks, validate_quantity}
use cpp_market_replay_engine.Fill.{Fill}
use cpp_market_replay_engine.Portfolio.{
  Portfolio, make_portfolio, validate_fill_for_accounting, checked_notional_amount, inventory,
  apply_buy_lot, apply_sell_lot, record_ledger_entry, settle, apply_fill,
}
use cpp_market_replay_engine.Portfolio.Lots.{
  checked_to_accounting_amount, checked_to_accounting_x2, checked_accounting_add,
  checked_accounting_sub, checked_accounting_x2, net_quantity, matched_realized_pnl, realize,
  match_lots,
}
use cpp_market_replay_engine.Portfolio.Accounts.{Accounts, apply_fills, apply_fills-Accounts}
use cpp_market_replay_engine.Tests.Data.{quoted_book, fill_of}
use cpp_market_replay_engine.OrderBook.{mid_price_x2_ticks, is_crossed}
use cpp_market_replay_engine.Portfolio.Mark.{
  mark_mid_x2, lot_unrealized_x2, unrealized_x2, PortfolioMark, mark_at, mark_to_market,
}
use cpp_market_replay_engine.Portfolio.Equity.{mark_to_market-equity}

-- Five are bought at 100, then eight sold at 102: the position turns from long to short.
abbrev fills : List Fill
fills = fill_of 1 Side.buy 100 5 1 ∷ fill_of 2 Side.sell 102 8 2 ∷ []

abbrev left : Portfolio
left = record {
  initial_cash = pos 1000;
  cash = pos 1313;
  realized_gross_pnl = pos 10;
  total_fees = pos 3;
  turnover = pos 1316;
  lots =
      record { opening_side = Side.sell; remaining_quantity = pos 3; entry_price_ticks = pos 102 }
      ∷ [];
  applied_fill_sequence_ids = 1 ∷ 2 ∷ [];
  ledger =
      record {
        fill_sequence_id = 1;
        order_id = 1;
        fill_timestamp_ns = 10;
        side = Side.buy;
        price_ticks = pos 100;
        quantity = pos 5;
        fee_amount = pos 1;
        cash_after = pos 499;
        inventory_after = pos 5;
        realized_gross_pnl_after = pos 0;
      }
      ∷ record {
        fill_sequence_id = 2;
        order_id = 1;
        fill_timestamp_ns = 10;
        side = Side.sell;
        price_ticks = pos 102;
        quantity = pos 8;
        fee_amount = pos 2;
        cash_after = pos 1313;
        inventory_after = negsuc 2;
        realized_gross_pnl_after = pos 10;
      }
      ∷ [];
}

accepted : apply_fills (make_portfolio (pos 1000)) fills ≡ ok left
unfolding apply_fills apply_fill settle apply_buy_lot apply_sell_lot record_ledger_entry
    validate_fill_for_accounting checked_notional_amount inventory match_lots realize
    matched_realized_pnl net_quantity checked_accounting_add checked_accounting_sub
    checked_to_accounting_amount ◌+ℤ◌ ◌-ℤ◌ ◌*ℤ◌ validate_price_ticks validate_quantity
accepted = refl

-- The middle price of 101 is below the price of the short lot.
abbrev mark : PortfolioMark
mark = record {
  mid_x2_ticks = some (pos 202);
  unrealized_gross_pnl_x2 = pos 6;
  equity_x2 = pos 2020;
  net_total_pnl_x2 = pos 20;
}

marked : mark_to_market left quoted_book ≡ ok (some mark)
unfolding is_crossed mark_to_market mark_at mark_mid_x2 unrealized_x2 lot_unrealized_x2
    checked_to_accounting_x2 checked_accounting_x2 mid_price_x2_ticks inventory net_quantity
    checked_to_accounting_amount checked_accounting_add checked_accounting_sub ◌+ℤ◌ ◌-ℤ◌ ◌*ℤ◌
marked = refl

-- The first fill again is refused.
refused : apply_fill left (fill_of 1 Side.buy 100 5 1) ≡ err duplicate_fill
unfolding apply_fill validate_fill_for_accounting validate_price_ticks validate_quantity
refused = refl

apply_fills-Accounts_example : Accounts (pos 1000) fills left
apply_fills-Accounts_example = apply_fills-Accounts (pos 1000) fills left accepted

mark_to_market-equity_example : pos 2020 ≡ pos 1000 *ℤ pos 2 +ℤ pos 20
mark_to_market-equity_example =
    mark_to_market-equity (pos 1000) fills left quoted_book mark accepted marked
