-- ===== src/Portfolio/Equity.antt =====
-- The value of a marked portfolio: its equity is what it began with and what it has earned.
use cpp_market_replay_engine.Base.{
  if◌then◌else◌, ℤ, pos, ◌+ℤ◌, ◌-ℤ◌, ◌*ℤ◌, ◌≤ℤ◌, eqb_ℤ, eq_of_parts, int_laws, *ℤ_comm, sub-*ℤ,
  add-*ℤ, *ℤ-two, zero-*ℤ, parts, Result, ok, ◌>>=◌, >>=-eq-ok, ok_eq, ◌≡◌, refl, Bool, false, not,
  ◌&&◌, Option, none, some, List, [], ◌∷◌, arith,
}
use cpp_market_replay_engine.Portfolio.Lots.{
  checked_to_accounting_x2, checked_accounting_x2, PositionLot, signed, net_quantity,
}
use cpp_market_replay_engine.Portfolio.Balance.{cost}
use cpp_market_replay_engine.Portfolio.Mark.{
  is_none, mark_mid_x2, delta_x2, lot_unrealized_x2, unrealized_x2, unrealized_at,
  marked_inventory_x2, PortfolioMark, mark_at, mark_to_market,
}
use cpp_market_replay_engine.Types.{Quantity, Side}
use cpp_market_replay_engine.Portfolio.{Portfolio, make_portfolio, inventory}
use cpp_market_replay_engine.Fill.{Fill}
use cpp_market_replay_engine.OrderBook.{OrderBook}
use cpp_market_replay_engine.Portfolio.Invariant.{AllOn}
use cpp_market_replay_engine.Portfolio.Accounts.{Accounts, apply_fills, apply_fills-Accounts}

checked_x2_ok : (v w : ℤ) → checked_to_accounting_x2 v ≡ ok w → w ≡ v
unfolding checked_to_accounting_x2
checked_x2_ok v w e = ground arith

-- Of a lot: its profit at the middle and twice its cost are its quantity at the middle.
twice : (e r : ℤ) → (e *ℤ pos 2) *ℤ r ≡ r *ℤ e +ℤ r *ℤ e
twice e r = rw (*ℤ-two e) (omega (int_laws, parts (add-*ℤ e e r), parts (*ℤ_comm e r)))

delta_value :
    (side : Side) (e r mid : ℤ)
    → delta_x2 side e mid *ℤ r +ℤ signed side (r *ℤ e) +ℤ signed side (r *ℤ e)
      ≡ signed side r *ℤ mid
delta_value Side.buy e r mid =
    omega (int_laws, parts (sub-*ℤ mid (e *ℤ pos 2) r), parts (twice e r), parts (*ℤ_comm mid r))
delta_value Side.sell e r mid = omega (
  int_laws,
  parts (sub-*ℤ (e *ℤ pos 2) mid r),
  parts (twice e r),
  parts (*ℤ_comm mid r),
  parts (sub-*ℤ (pos 0) r mid),
  parts (zero-*ℤ mid),
)

lot_value :
    (lot : PositionLot) (mid u : ℤ)
    → lot_unrealized_x2 lot mid ≡ ok u
    → u
        +ℤ signed lot.opening_side (lot.remaining_quantity *ℤ lot.entry_price_ticks)
        +ℤ signed lot.opening_side (lot.remaining_quantity *ℤ lot.entry_price_ticks)
      ≡ signed lot.opening_side lot.remaining_quantity *ℤ mid
unfolding lot_unrealized_x2
lot_value lot mid u e =
    rw
      (checked_x2_ok (delta_x2 lot.opening_side lot.entry_price_ticks mid *ℤ lot.remaining_quantity)
        u e)
      (delta_value lot.opening_side lot.entry_price_ticks lot.remaining_quantity mid)

lots_value :
    (mid total u : ℤ) (lots : List PositionLot)
    → unrealized_x2 mid total lots ≡ ok u
    → u +ℤ cost lots +ℤ cost lots ≡ total +ℤ net_quantity lots *ℤ mid
unfolding unrealized_x2 cost net_quantity
lots_value mid total u [] e = omega (int_laws, parts (ok_eq total u e), parts (zero-*ℤ mid))
lots_value mid total u (lot ∷ lots) e =
    let (value, v, f) = >>=-eq-ok (lot_unrealized_x2 lot mid) _ e in
    let (next, n, g) = >>=-eq-ok (checked_to_accounting_x2 (total +ℤ value)) _ f in
    omega (
      int_laws,
      parts (lot_value lot mid value v),
      parts (checked_x2_ok (total +ℤ value) next n),
      parts (lots_value mid next u lots g),
      parts (add-*ℤ (signed lot.opening_side lot.remaining_quantity) (net_quantity lots) mid),
    )

-- Of a mark that was made: each of its amounts, before they were checked.
mark_at_facts :
    (p : Portfolio) (current : Quantity) (mid : Option ℤ) (m : PortfolioMark) (u inv : ℤ)
    → unrealized_at mid p.lots ≡ ok u
    → marked_inventory_x2 mid current ≡ ok inv
    → mark_at p current mid ≡ ok m
    → (m.equity_x2 ≡ p.cash *ℤ pos 2 +ℤ inv)
      × (m.net_total_pnl_x2 ≡ p.realized_gross_pnl *ℤ pos 2 +ℤ u -ℤ p.total_fees *ℤ pos 2)
      × (m.unrealized_gross_pnl_x2 ≡ u)
      × (m.mid_x2_ticks ≡ mid)
unfolding mark_at checked_accounting_x2 checked_to_accounting_x2
mark_at_facts p current mid m u inv e f g = ground arith

inventory_ok : (p : Portfolio) (n : Quantity) → inventory p ≡ ok n → n ≡ net_quantity p.lots
unfolding inventory
inventory_ok p n e = ground arith

net_sign :
    (s : Side) (lots : List PositionLot) → AllOn s lots → pos 0 ≤ℤ signed s (net_quantity lots)
unfolding net_quantity
net_sign Side.buy [] a = omega arith
net_sign Side.sell [] a = omega int_laws
net_sign Side.buy (lot ∷ lots) a = rw a.0.0 (omega (int_laws, a.0.1, net_sign Side.buy lots a.1))
net_sign Side.sell (lot ∷ lots) a = rw a.0.0 (omega (int_laws, a.0.1, net_sign Side.sell lots a.1))

-- Lots of one side that add up to nothing are none.
flat_cost :
    (s : Side) (lots : List PositionLot)
    → AllOn s lots
    → net_quantity lots ≡ pos 0
    → cost lots ≡ pos 0
unfolding cost net_quantity
flat_cost s [] a e = refl
flat_cost Side.buy (lot ∷ lots) a e =
    absurd (omega (int_laws, a.0.1, net_sign Side.buy lots a.1, parts (rw a.0.0 at e)))
flat_cost Side.sell (lot ∷ lots) a e =
    absurd (omega (int_laws, a.0.1, net_sign Side.sell lots a.1, parts (rw a.0.0 at e)))

-- The doubled amounts of a mark, with the doubled cost of the lots, add up.
mark_sum :
    (c : ℤ) (fs : List Fill) (p : Portfolio) (m : PortfolioMark) (u inv : ℤ)
    → Accounts c fs p
    → u +ℤ cost p.lots +ℤ cost p.lots ≡ inv
    → m.equity_x2 ≡ p.cash *ℤ pos 2 +ℤ inv
    → m.net_total_pnl_x2 ≡ p.realized_gross_pnl *ℤ pos 2 +ℤ u -ℤ p.total_fees *ℤ pos 2
    → m.equity_x2 ≡ c *ℤ pos 2 +ℤ m.net_total_pnl_x2
mark_sum c fs p m u inv a value equity net = omega (
  int_laws,
  parts a.profit,
  parts value,
  parts equity,
  parts net,
  parts (*ℤ-two p.cash),
  parts (*ℤ-two c),
  parts (*ℤ-two p.realized_gross_pnl),
  parts (*ℤ-two p.total_fees),
)

-- A mark that was made at a middle price, or at none with a flat inventory.
mark_at_value :
    (c : ℤ) (fs : List Fill) (p : Portfolio) (mid : Option ℤ) (m : PortfolioMark)
    → Accounts c fs p
    → (not (eqb_ℤ (net_quantity p.lots) (pos 0)) && is_none mid) ≡ false
    → mark_at p (net_quantity p.lots) mid ≡ ok m
    → m.equity_x2 ≡ c *ℤ pos 2 +ℤ m.net_total_pnl_x2
unfolding mark_at
mark_at_value c fs p none m a flat e =
    let net_zero : net_quantity p.lots ≡ pos 0 =
      eq_of_parts (net_quantity p.lots) (pos 0) (ground arith) in
    let worthless = flat_cost a.one_sided.0 p.lots a.one_sided.1 net_zero in
    let (equity, net, _, _) =
      mark_at_facts p (net_quantity p.lots) none m (pos 0) (pos 0) refl refl e in
    mark_sum c fs p m (pos 0) (pos 0) a (omega (int_laws, parts worthless)) equity net
mark_at_value c fs p (some mid) m a flat e =
    let (u, hu, e₁) = >>=-eq-ok (unrealized_x2 mid (pos 0) p.lots) _ e in
    let (cash, hc, e₂) = >>=-eq-ok (checked_accounting_x2 p.cash) _ e₁ in
    let (inv, hi, e₃) = >>=-eq-ok (checked_to_accounting_x2 (net_quantity p.lots *ℤ mid)) _ e₂ in
    let (equity, net, _, _) = mark_at_facts p (net_quantity p.lots) (some mid) m u inv hu hi e in
    let held = checked_x2_ok (net_quantity p.lots *ℤ mid) inv hi in
    let value = lots_value mid (pos 0) u p.lots hu in
    mark_sum c fs p m u inv a (omega (int_laws, parts value, parts held)) equity net

marked_only :
    (early : Bool) (r : Result PortfolioMark) (m : PortfolioMark)
    → (if early then ok none else (r >>= λ mark. ok (some mark))) ≡ ok (some m)
    → (early ≡ false) × (r ≡ ok m)
marked_only early r m e = ground arith

-- Where the portfolio that a sequence of fills leaves can be marked at a book, its equity is its
-- initial cash and its net profit, all doubled: whatever the lots, the prices and the sides are.
pub mark_to_market-equity :
    (c : ℤ) (fs : List Fill) (p : Portfolio) (book : OrderBook) (m : PortfolioMark)
    → apply_fills (make_portfolio c) fs ≡ ok p
    → mark_to_market p book ≡ ok (some m)
    → m.equity_x2 ≡ c *ℤ pos 2 +ℤ m.net_total_pnl_x2
unfolding mark_to_market
mark_to_market-equity c fs p book m run e =
    let (current, known, e₁) = >>=-eq-ok (inventory p) _ e in
    let (mid, quoted, e₂) = >>=-eq-ok (mark_mid_x2 book) _ e₁ in
    let same = inventory_ok p current known in
    let (flat, made) = marked_only _ _ m e₂ in
    mark_at_value c fs p mid m (apply_fills-Accounts c fs p run) (rw (← same) flat)
      (rw (← same) made)
