-- ===== src/QueueImbalance/Signal.antt =====
-- When strategies/queue_imbalance_strategy.cpp signals: its measure of a valid book, and how often.
use cpp_market_replay_engine.QueueImbalance.Volume.{
  ltb_ℤ-true, ltb_ℤ-true_lt, ltb_ℤ-false, ltb_ℤ-false_le, apart_cases, touching_cases, nonzero,
  volume, volume_nonneg, top_levels-All, sum_quantity_found, sum_quantity_refused,
  top_levels_volume,
}
use cpp_market_replay_engine.Runner.Budget.{IsPaid, IsBudgeted}
use cpp_market_replay_engine.Market.{BookUpdateEvent}
use cpp_market_replay_engine.Types.{int64_max, TimestampNs, Side}
use cpp_market_replay_engine.Strategy.{OrderIntent}
use cpp_market_replay_engine.Base.{
  ◌==◌, if◌then◌else◌, Bool-cases, length, All, ℤ, pos, ◌+ℤ◌, ◌-ℤ◌, ◌≤ℤ◌, ◌<ℤ◌, ltb_ℤ, eqb_ℤ,
  int_laws, Error, imbalance_volume_overflow, imbalance_total_overflow, Result, err, ok, ◌>>=◌, ℕ,
  zero, suc, ◌≤◌, ◌≡◌, refl, sym, subst, inl, inr, Bool, true, false, not, ◌&&◌, ◌||◌, Option, none,
  some, List, [], ◌∷◌, arith,
}
use cpp_market_replay_engine.OrderBook.{
  OrderBook, top_bids, top_asks, is_locked, is_crossed, is_valid_two_sided_market,
}
use cpp_market_replay_engine.OrderBook.PriceMap.{Levels}
use cpp_market_replay_engine.OrderBook.Apply.{IsLevel, IsValid}
use cpp_market_replay_engine.QueueImbalance.{
  Doubles, QueueImbalanceConfig, QueueImbalanceStrategy, lacks_best, measure_volumes,
  compute_queue_imbalance, intent_of, signal, on_book_update, queue_imbalance_strategy,
}

-- What the volumes of both sides come to.
abbrev pub bid_volume : OrderBook → ℕ → ℤ
bid_volume book depth = volume (top_bids book depth)

abbrev pub ask_volume : OrderBook → ℕ → ℤ
ask_volume book depth = volume (top_asks book depth)

-- The test for a market in which the strategy measures.
abbrev pub measures : ℕ → OrderBook → Bool
measures depth book = not (depth == 0) && is_valid_two_sided_market book

module _ {D : Type 0} (doubles : Doubles D) where
  abbrev pub ratio : OrderBook → ℕ → D
  ratio book depth =
      doubles.divide (doubles.from_int64 (bid_volume book depth -ℤ ask_volume book depth))
        (doubles.from_int64 (bid_volume book depth +ℤ ask_volume book depth))

  -- What a measurement gives.
  pub data Measured (depth : ℕ) (book : OrderBook) : Result (Option D) → Type 0 where
    silent : measures depth book ≡ false → Measured depth book (ok none)
    found :
        measures depth book ≡ true
        → bid_volume book depth +ℤ ask_volume book depth ≤ℤ pos int64_max
        → Measured depth book (ok (some (ratio book depth)))
    overflow :
        (e : Error)
        → measures depth book ≡ true
        → pos int64_max <ℤ bid_volume book depth +ℤ ask_volume book depth
        → Measured depth book (err e)

  measure_volumes-found :
      (depth : ℕ) (book : OrderBook)
      → All IsLevel (top_bids book depth)
      → All IsLevel (top_asks book depth)
      → pos 0 <ℤ bid_volume book depth +ℤ ask_volume book depth
      → bid_volume book depth +ℤ ask_volume book depth ≤ℤ pos int64_max
      → measure_volumes doubles depth book ≡ ok (some (ratio book depth))
  unfolding measure_volumes
  measure_volumes-found depth book hb ha some_volume fits =
      let b = bid_volume book depth in
      let a = ask_volume book depth in
      let (b_nonneg, a_nonneg) : (pos 0 ≤ℤ b) × (pos 0 ≤ℤ a) =
        (volume_nonneg (top_bids book depth) hb, volume_nonneg (top_asks book depth) ha) in
      let bids = sum_quantity_found (top_bids book depth) hb (omega (int_laws, a_nonneg, fits)) in
      let asks = sum_quantity_found (top_asks book depth) ha (omega (int_laws, b_nonneg, fits)) in
      let room = ltb_ℤ-false (pos int64_max -ℤ b) a (omega (int_laws, fits)) in
      let is_some : eqb_ℤ (b +ℤ a) (pos 0) ≡ false = ground (arith, some_volume) in
      rw (bids, asks, room, is_some) refl

  measure_volumes-overflow :
      (depth : ℕ) (book : OrderBook)
      → All IsLevel (top_bids book depth)
      → All IsLevel (top_asks book depth)
      → pos int64_max <ℤ bid_volume book depth +ℤ ask_volume book depth
      → (e : Error) × (measure_volumes doubles depth book ≡ err e)
  unfolding measure_volumes
  measure_volumes-overflow depth book hb ha over =
      let b = bid_volume book depth in
      let a = ask_volume book depth in
      elim (Bool-cases (ltb_ℤ (pos int64_max) b)) [
        | inl b_over ↦ (
          imbalance_volume_overflow,
          rw (sum_quantity_refused (top_bids book depth) (ltb_ℤ-true_lt (pos int64_max) b b_over))
              refl,
        )
        | inr b_fits ↦ elim (Bool-cases (ltb_ℤ (pos int64_max) a)) [
          | inl a_over ↦ (
            imbalance_volume_overflow,
            rw
                (
                  sum_quantity_found (top_bids book depth) hb
                      (ltb_ℤ-false_le (pos int64_max) b b_fits),
                  sum_quantity_refused (top_asks book depth)
                      (ltb_ℤ-true_lt (pos int64_max) a a_over),
                )
                refl,
          )
          | inr a_fits ↦ (
            imbalance_total_overflow,
            rw
                (
                  sum_quantity_found (top_bids book depth) hb
                      (ltb_ℤ-false_le (pos int64_max) b b_fits),
                  sum_quantity_found (top_asks book depth) ha
                      (ltb_ℤ-false_le (pos int64_max) a a_fits),
                  ltb_ℤ-true (pos int64_max -ℤ b) a (omega (int_laws, over)),
                )
                refl,
          )
        ]
      ]

  measure_volumes-Measured :
      (depth : ℕ) (book : OrderBook)
      → All IsLevel (top_bids book depth)
      → All IsLevel (top_asks book depth)
      → pos 0 <ℤ bid_volume book depth +ℤ ask_volume book depth
      → measures depth book ≡ true
      → Measured depth book (measure_volumes doubles depth book)
  measure_volumes-Measured depth book hb ha some_volume m =
      let total = bid_volume book depth +ℤ ask_volume book depth in
      elim (Bool-cases (ltb_ℤ (pos int64_max) total)) [
        | inl over ↦
            let h = ltb_ℤ-true_lt (pos int64_max) total over in
            let (e, refused) = measure_volumes-overflow depth book hb ha h in
            subst (Measured depth book) (sym refused) (Measured.overflow e m h)
        | inr fits ↦
            let h = ltb_ℤ-false_le (pos int64_max) total fits in
            subst (Measured depth book) (sym (measure_volumes-found depth book hb ha some_volume h))
              (Measured.found m h)
      ]

  compute_queue_imbalance-Measured :
      (config : QueueImbalanceConfig D) (book : OrderBook)
      → IsValid book
      → Measured config.depth_levels book (compute_queue_imbalance doubles config book)
  unfolding compute_queue_imbalance is_locked is_crossed is_valid_two_sided_market
  compute_queue_imbalance-Measured config book v =
      by_levels config.depth_levels book.bids book.asks v.bid_levels v.ask_levels
    where
      by_levels :
          (depth : ℕ) (bids asks : Levels)
          → All IsLevel bids
          → All IsLevel asks
          → let b : OrderBook = record { bids = bids; asks = asks } in
            Measured depth b (
              if (depth == 0) || lacks_best b
              then ok none
              else if is_locked b || is_crossed b
              then ok none
              else measure_volumes doubles depth b)
      by_levels zero bids asks hb ha = Measured.silent refl
      by_levels (suc n) [] asks hb ha = rw (nonzero n) (Measured.silent (ground arith))
      by_levels (suc n) (b ∷ bids) [] hb ha = rw (nonzero n) (Measured.silent (ground arith))
      by_levels (suc n) (b ∷ bids) (a ∷ asks) hb ha =
          elim (Bool-cases (ltb_ℤ b.price_ticks a.price_ticks)) [
            | inl apart ↦
                let (l, c) = apart_cases b.price_ticks a.price_ticks apart in
                rw (nonzero n, l, c)
                  (measure_volumes-Measured (suc n) (record { bids = b ∷ bids; asks = a ∷ asks })
                    (top_levels-All (b ∷ bids) (suc n) hb) (top_levels-All (a ∷ asks) (suc n) ha)
                    (omega (int_laws, top_levels_volume b bids n hb, top_levels_volume a asks n ha))
                    (ground arith))
            | inr touching ↦ elim (touching_cases b.price_ticks a.price_ticks touching) [
              | inl l ↦ rw (nonzero n, l) (Measured.silent (ground arith))
              | inr (l, c) ↦ rw (nonzero n, l, c) (Measured.silent (ground arith))
            ]
          ]

  -- What an update makes the strategy do.
  pub data Signals (config : QueueImbalanceConfig D) (book : OrderBook) (t : TimestampNs)
      : Result (QueueImbalanceStrategy D × List OrderIntent) → Type 0 where
    silent :
        measures config.depth_levels book ≡ false
        → Signals config book t (ok (record { config = config; last_queue_imbalance = none }, []))
    buys :
        measures config.depth_levels book ≡ true
        → doubles.is_above (ratio book config.depth_levels) config.buy_threshold ≡ true
        → Signals config book t (
            ok (
              record {
                config = config;
                last_queue_imbalance = some (ratio book config.depth_levels);
              },
              intent_of doubles config Side.buy t ∷ [],
            ))
    sells :
        measures config.depth_levels book ≡ true
        → doubles.is_above (ratio book config.depth_levels) config.buy_threshold ≡ false
        → doubles.is_above config.sell_threshold (ratio book config.depth_levels) ≡ true
        → Signals config book t (
            ok (
              record {
                config = config;
                last_queue_imbalance = some (ratio book config.depth_levels);
              },
              intent_of doubles config Side.sell t ∷ [],
            ))
    holds :
        measures config.depth_levels book ≡ true
        → doubles.is_above (ratio book config.depth_levels) config.buy_threshold ≡ false
        → doubles.is_above config.sell_threshold (ratio book config.depth_levels) ≡ false
        → Signals config book t (
            ok (
              record {
                config = config;
                last_queue_imbalance = some (ratio book config.depth_levels);
              },
              [],
            ))
    overflow :
        (e : Error)
        → pos int64_max
          <ℤ bid_volume book config.depth_levels +ℤ ask_volume book config.depth_levels
        → Signals config book t (err e)

  Measured-Signals :
      (s : QueueImbalanceStrategy D) (book : OrderBook) (t : TimestampNs) (m : Result (Option D))
      → Measured s.config.depth_levels book m
      → Signals s.config book t
          (m >>= λ i. ok (record s { last_queue_imbalance = i }, signal doubles s.config t i))
  Measured-Signals s book t m (Measured.silent q) = Signals.silent q
  Measured-Signals s book t m (Measured.overflow e q over) = Signals.overflow e over
  Measured-Signals s book t m (Measured.found q fits) =
      let r = ratio book s.config.depth_levels in
      elim (Bool-cases (doubles.is_above r s.config.buy_threshold)) [
        | inl high ↦ rw (high) (Signals.buys q high)
        | inr not_high ↦ elim (Bool-cases (doubles.is_above s.config.sell_threshold r)) [
          | inl low ↦ rw (not_high, low) (Signals.sells q not_high low)
          | inr not_low ↦ rw (not_high, not_low) (Signals.holds q not_high not_low)
        ]
      ]

  -- On a valid book, an update leaves the strategy silent where its depth is zero or the book is not
  -- a valid two-sided market. Elsewhere, where the volume of both sides to its depth fits an int64_t,
  -- it records the ratio of their difference to their sum, and emits one buy intent above the buy
  -- threshold, otherwise one sell intent below the sell threshold, otherwise none. It throws only
  -- where the volume does not fit.
  pub on_book_update-Signals :
      (event : BookUpdateEvent) (book : OrderBook) (s : QueueImbalanceStrategy D)
      → IsValid book
      → Signals s.config book event.key.timestamp_ns (on_book_update doubles event book s)
  unfolding on_book_update
  on_book_update-Signals event book s v =
      Measured-Signals s book event.key.timestamp_ns (compute_queue_imbalance doubles s.config book)
        (compute_queue_imbalance-Measured s.config book v)

  signal-length :
      (config : QueueImbalanceConfig D) (t : TimestampNs) (i : Option D)
      → length (signal doubles config t i) ≤ 1
  signal-length config t none = omega arith
  signal-length config t (some i) = ground arith

  -- The strategy emits at most one intent for each market event.
  pub queue_imbalance_strategy-IsBudgeted : IsBudgeted (queue_imbalance_strategy doubles) 1 (λ _. 0)
  unfolding on_book_update
  queue_imbalance_strategy-IsBudgeted = record {
    on_book = λ event book s.
        paid s event.key.timestamp_ns (compute_queue_imbalance doubles s.config book);
    on_trade = λ event book s. omega arith;
    on_timer = λ t event book s. omega arith;
  }
    where
      paid :
          (s : QueueImbalanceStrategy D) (t : TimestampNs) (m : Result (Option D))
          → IsPaid 1
              (λ _. 0)
              s
              (m >>= λ i. ok (record s { last_queue_imbalance = i }, signal doubles s.config t i))
      paid s t (ok i) = omega (arith, signal-length s.config t i)
      paid s t (err e) = tt
