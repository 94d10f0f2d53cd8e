-- ===== src/Portfolio/Lots.antt =====
-- The checked arithmetic of src/portfolio.cpp, its position lots, and the loop that matches a fill
-- against the oldest lots of the other side.
use cpp_market_replay_engine.Base.{
  if◌then◌else◌, ℤ, pos, negsuc, ◌+ℤ◌, ◌-ℤ◌, ◌*ℤ◌, ltb_ℤ, eqb_ℤ, min_ℤ, accounting_overflow, Result,
  ok, err, ◌>>=◌, Bool, not, ◌&&◌, ◌||◌, List, [], ◌∷◌, ◌++◌,
}
use cpp_market_replay_engine.Types.{int64_max, PriceTicks, Quantity, Side, is_buy}
use cpp_market_replay_engine.Fill.{Fill}

abbrev pub int64_min : ℤ
int64_min = negsuc int64_max

unfoldable pub checked_to_accounting_amount : ℤ → Result ℤ
checked_to_accounting_amount value =
    if ltb_ℤ (pos int64_max) value || ltb_ℤ value int64_min
    then err accounting_overflow
    else ok value

unfoldable pub checked_to_accounting_x2 : ℤ → Result ℤ
checked_to_accounting_x2 value =
    if ltb_ℤ (pos int64_max) value || ltb_ℤ value int64_min
    then err accounting_overflow
    else ok value

unfoldable pub checked_accounting_add : ℤ → ℤ → Result ℤ
unfolding checked_to_accounting_amount
checked_accounting_add lhs rhs = checked_to_accounting_amount (lhs +ℤ rhs)

unfoldable pub checked_accounting_sub : ℤ → ℤ → Result ℤ
unfolding checked_to_accounting_amount
checked_accounting_sub lhs rhs = checked_to_accounting_amount (lhs -ℤ rhs)

unfoldable pub checked_accounting_x2 : ℤ → Result ℤ
unfolding checked_to_accounting_x2
checked_accounting_x2 value = checked_to_accounting_x2 (value *ℤ pos 2)

pub record PositionLot : Type 0 where
  pub opening_side : Side
  pub remaining_quantity : Quantity
  pub entry_price_ticks : PriceTicks

-- `+1` or `-1` times a value, by side.
abbrev pub signed : Side → ℤ → ℤ
signed Side.buy v = v
signed Side.sell v = pos 0 -ℤ v

-- The total that `Portfolio::inventory` adds up.
unfoldable pub net_quantity : List PositionLot → ℤ
net_quantity [] = pos 0
net_quantity (lot ∷ lots) = signed lot.opening_side lot.remaining_quantity +ℤ net_quantity lots

-- `price_delta` of `matched_realized_pnl`, from the side and the price of a lot.
abbrev pub price_delta : Side → PriceTicks → PriceTicks → ℤ
price_delta opening_side entry exit = if is_buy opening_side then exit -ℤ entry else entry -ℤ exit

unfoldable pub matched_realized_pnl : PositionLot → PriceTicks → Quantity → Result ℤ
unfolding checked_to_accounting_amount
matched_realized_pnl lot exit matched =
    checked_to_accounting_amount
      (price_delta lot.opening_side lot.entry_price_ticks exit *ℤ matched)

abbrev pub same_side : Side → Side → Bool
same_side Side.buy s = is_buy s
same_side Side.sell s = not (is_buy s)

-- The realized profit after one match.
unfoldable pub realize : ℤ → PositionLot → PriceTicks → Quantity → Result ℤ
unfolding matched_realized_pnl checked_accounting_add
realize realized lot price matched = do
  pnl ← matched_realized_pnl lot price matched
  checked_accounting_add realized pnl

-- The loop of `apply_buy_lot` and `apply_sell_lot` on what remains of the fill, the realized profit
-- and the lots. A lot that is not used up leaves nothing of the fill, so that the loop ends there.
unfoldable pub match_lots :
    Side → PriceTicks → Quantity → ℤ → List PositionLot → Result (Quantity × ℤ × List PositionLot)
match_lots opposite price remaining realized [] = ok (remaining, realized, [])
match_lots opposite price remaining realized (lot ∷ lots) =
    let matched = min_ℤ remaining lot.remaining_quantity in
    let left = lot.remaining_quantity -ℤ matched in
    let rest = λ (total : ℤ). match_lots opposite price (remaining -ℤ matched) total lots in
    let partial = record lot { remaining_quantity = left } ∷ lots in
    if ltb_ℤ (pos 0) remaining && same_side lot.opening_side opposite
    then realize realized lot price matched >>= (λ total.
      if eqb_ℤ left (pos 0) then rest total else ok (remaining -ℤ matched, total, partial))
    else ok (remaining, realized, lot ∷ lots)

-- `if (remaining > 0) lots_.push_back(…)`
abbrev pub open_lot : Side → Fill → Quantity → List PositionLot → List PositionLot
open_lot side fill remaining lots =
    if ltb_ℤ (pos 0) remaining
    then lots
      ++ record {
        opening_side = side;
        remaining_quantity = remaining;
        entry_price_ticks = fill.price_ticks;
      }
        ∷ []
    else lots
