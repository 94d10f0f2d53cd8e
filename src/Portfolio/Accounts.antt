-- ===== src/Portfolio/Accounts.antt =====
-- The accounts of src/portfolio.cpp after any sequence of fills, against their definition by sums
-- over the fills.
use mathlib.Core.List.{append-nil, append_assoc}
use cpp_market_replay_engine.Base.{
  ℤ, ◌+ℤ◌, ◌-ℤ◌, int_laws, *ℤ_comm, parts, Result, ok, ◌>>=◌, >>=-eq-ok, Result-cases, ok_eq, ◌≡◌,
  refl, sym, ap, ◌∙◌, subst, inl, inr, List, [], ◌∷◌, ◌++◌, arith,
}
use cpp_market_replay_engine.Types.{Quantity, Side}
use cpp_market_replay_engine.Fill.{Fill}
use cpp_market_replay_engine.Portfolio.Lots.{PositionLot, signed, net_quantity}
use cpp_market_replay_engine.Portfolio.Balance.{cost, opposite_of, Conserves, match_lots-Conserves}
use cpp_market_replay_engine.Portfolio.Settle.{
  notional_of, Settled, matching, settle-Settled, settle_refused, Applied, apply_fill-Applied,
}
use cpp_market_replay_engine.Portfolio.Sums.{
  sum_of, sum_of-snoc, sequence_ids, IsDistinct, sequence_ids-snoc, IsDistinct-snoc, open_lot_value,
}
use cpp_market_replay_engine.Portfolio.Invariant.{
  HasRest, match_lots-HasRest, OneSided, fill-OneSided,
}
use cpp_market_replay_engine.Portfolio.{Portfolio, make_portfolio, inventory, apply_fill}
use cpp_market_replay_engine.Portfolio.Matching.{IsInt64}

-- What a fill takes out of the cash, and what it adds to the inventory.
abbrev pub outlay : Fill → ℤ
outlay f = signed f.side (notional_of f) +ℤ f.fee_amount

abbrev pub bought : Fill → ℤ
bought f = signed f.side f.quantity

-- The accounts that the fills `fs` make of the cash `c`: every amount is the sum that defines it;
-- cash, cost of the open lots and fees together are the initial cash and the realized profit; the
-- open lots are of one side, and no fill was counted twice.
pub record Accounts (c : ℤ) (fs : List Fill) (p : Portfolio) : Type 0 where
  pub initial : p.initial_cash ≡ c
  pub cash : p.cash ≡ c -ℤ sum_of outlay fs
  pub inventory : net_quantity p.lots ≡ sum_of bought fs
  pub fees : p.total_fees ≡ sum_of (λ f. f.fee_amount) fs
  pub turnover : p.turnover ≡ sum_of notional_of fs
  pub profit : p.cash +ℤ cost p.lots +ℤ p.total_fees ≡ c +ℤ p.realized_gross_pnl
  pub fits : IsInt64 (net_quantity p.lots)
  pub one_sided : OneSided p.lots
  pub ids : p.applied_fill_sequence_ids ≡ sequence_ids fs
  pub distinct : IsDistinct p.applied_fill_sequence_ids

-- One more fill is one more term of each sum.
module _ (c : ℤ) (fs : List Fill) (fill : Fill) (p s q : Portfolio) where
  abbrev Taken : Quantity → ℤ → List PositionLot → Type 0
  Taken rest realized kept =
      (matching fill.side p fill ≡ ok (rest, realized, kept))
      × Settled fill.side p fill rest realized kept s
      × Applied p fill s q

  fill_value :
      (rest : Quantity) (realized : ℤ) (kept : List PositionLot)
      → Accounts c fs p
      → Taken rest realized kept
      → (q.cash +ℤ cost q.lots +ℤ q.total_fees ≡ c +ℤ q.realized_gross_pnl)
        × (net_quantity q.lots ≡ sum_of bought fs +ℤ bought fill)
  fill_value rest realized kept a (m, t, d) =
      let x = fill.price_ticks in
      let loop =
        subst (Conserves fill.side x fill.quantity p.realized_gross_pnl p.lots) m
          (match_lots-Conserves fill.side x fill.quantity p.realized_gross_pnl p.lots) in
      let has_rest = subst HasRest m (
        match_lots-HasRest (opposite_of fill.side) x fill.quantity p.realized_gross_pnl p.lots
          (omega (arith, d.quantity))) in
      let opened = open_lot_value fill.side fill rest kept has_rest in
      let lots = d.lots ∙ t.opened in
      (
        omega (
          int_laws,
          parts loop.0,
          parts opened.0,
          parts (ap cost lots),
          parts a.profit,
          parts d.cash,
          parts t.cash,
          parts d.fees,
          parts t.same_fees,
          parts d.profit,
          parts t.profit,
          parts (ap (signed fill.side) (*ℤ_comm fill.quantity x)),
        ),
        omega (
          int_laws,
          parts loop.1,
          parts opened.1,
          parts (ap net_quantity lots),
          parts a.inventory,
        ),
      )

  fill-Accounts :
      (rest : Quantity) (realized : ℤ) (kept : List PositionLot)
      → Accounts c fs p
      → Taken rest realized kept
      → Accounts c (fs ++ fill ∷ []) q
  fill-Accounts rest realized kept a (m, t, d) =
      let (profit, inventory) = fill_value rest realized kept a (m, t, d) in
      record {
        initial = d.initial ∙ t.same_initial ∙ a.initial;
        cash = omega (
          int_laws,
          parts d.cash,
          parts t.cash,
          parts a.cash,
          parts (sum_of-snoc outlay fs fill),
        );
        inventory = inventory ∙ sym (sum_of-snoc bought fs fill);
        fees = omega (
          int_laws,
          parts d.fees,
          parts t.same_fees,
          parts a.fees,
          parts (sum_of-snoc (λ f. f.fee_amount) fs fill),
        );
        turnover = omega (
          int_laws,
          parts d.turnover,
          parts t.same_turnover,
          parts a.turnover,
          parts (sum_of-snoc notional_of fs fill),
        );
        profit = profit;
        fits = rw d.lots d.inventory_fits;
        one_sided = subst OneSided (sym (d.lots ∙ t.opened)) (
            fill-OneSided fill.side fill p.realized_gross_pnl realized rest p.lots kept d.quantity
              a.one_sided m);
        ids = rw (d.ids, t.same_ids, a.ids) (sym (sequence_ids-snoc fs fill));
        distinct =
            rw (d.ids, t.same_ids)
              (IsDistinct-snoc fill.fill_sequence_id p.applied_fill_sequence_ids d.fresh
                a.distinct);
      }

-- A fill that `apply_fill` accepts keeps the accounts.
apply_fill-Accounts :
    (c : ℤ) (fs : List Fill) (fill : Fill) (p q : Portfolio)
    → Accounts c fs p
    → apply_fill p fill ≡ ok q
    → Accounts c (fs ++ fill ∷ []) q
apply_fill-Accounts c fs fill p q a e =
    let (s, m, d) = apply_fill-Applied p q fill e in
    elim (Result-cases (matching fill.side p fill)) [
      | inr (error, f) ↦ absurd (settle_refused fill.side p s fill error f m)
      | inl ((rest, realized, kept), f) ↦
          fill-Accounts c fs fill p s q rest realized kept a
            (f, settle-Settled fill.side p s fill rest realized kept f m, d)
    ]

start : (c : ℤ) → Accounts c [] (make_portfolio c)
unfolding cost net_quantity sum_of
start c = record {
  initial = refl;
  cash = omega int_laws;
  inventory = refl;
  fees = refl;
  turnover = refl;
  profit = omega int_laws;
  fits = omega arith;
  one_sided = (Side.buy, tt);
  ids = refl;
  distinct = tt;
}

-- Fills in order, stopped by the first one that is refused.
unfoldable pub apply_fills : Portfolio → List Fill → Result Portfolio
apply_fills p [] = ok p
apply_fills p (fill ∷ fills) = do next ← apply_fill p fill; apply_fills next fills

apply_fills-Accounts_from :
    (c : ℤ) (fs gs : List Fill) (p q : Portfolio)
    → Accounts c fs p
    → apply_fills p gs ≡ ok q
    → Accounts c (fs ++ gs) q
unfolding apply_fills
apply_fills-Accounts_from c fs [] p q a e = rw (append-nil fs) (rw (ok_eq p q e) at a)
apply_fills-Accounts_from c fs (g ∷ gs) p q a e =
    let (next, applied, rest) = >>=-eq-ok (apply_fill p g) (λ n. apply_fills n gs) e in
    subst (λ hs. Accounts c hs q) (append_assoc fs (g ∷ []) gs)
      (apply_fills-Accounts_from c (fs ++ g ∷ []) gs next q
        (apply_fill-Accounts c fs g p next a applied) rest)

-- Where a sequence of fills is accepted from the initial cash on, the portfolio that it leaves has
-- for its cash the initial cash less what the fills paid, for its inventory, fees and turnover their
-- sums over the fills; its cash, the cost of its open lots and its fees are together its initial
-- cash and its realized profit; its open lots are of one side and each above zero; and each fill
-- was counted once.
pub apply_fills-Accounts :
    (c : ℤ) (fills : List Fill) (q : Portfolio)
    → apply_fills (make_portfolio c) fills ≡ ok q
    → Accounts c fills q
apply_fills-Accounts c fills q e =
    apply_fills-Accounts_from c [] fills (make_portfolio c) q (start c) e
