-- ===== src/Types/RoundTrip.antt =====
-- Prices of src/types.cpp there and back: a formatted price is parsed to the same ticks, and what a
-- parsed price means.
use native.Mathlib.Nat.{
  pow-zero, mul_comm, mul_assoc, mul-pos, pow-suc, one-le-pow, pow-le-pow_right, mul-mod_left,
  div-eq_of_eq-mul_left, mod-eq-sub-div-mul, div-mul-le_self,
}
use cpp_market_replay_engine.Base.{
  ltb, ◌==◌, ℤ, pos, pos_part, ltb_ℤ, negative_price, nonpositive_tick_size, not_multiple_of_tick,
  price_ticks_out_of_range, ok, throw_if, >>=-eq-ok, ok_eq, ℕ, zero, suc, ◌+◌, ◌*◌, ◌/◌, ◌%◌, ◌^◌,
  ◌≤◌, ◌<◌, ◌≡◌, refl, sym, ap, ◌∙◌, subst, true, false, not, arith,
}
use cpp_market_replay_engine.Base.Text.{Text, codes}
use cpp_market_replay_engine.Types.{int64_max, uint64_max, PriceTicks, validate_price_ticks}
use cpp_market_replay_engine.Types.Decimal.{
  Decimal, strip_zeros, parse_non_negative_decimal, pow10_from, pow10, checked_to_uint64,
  format_scaled_decimal, parse_tick_size, exact_ticks, price_to_ticks, ticks_to_price,
}
use cpp_market_replay_engine.Types.Digits.{strip_zeros-value, pow10_from_ok, pow10_from_value}
use cpp_market_replay_engine.Types.Format.{format_scaled_decimal-parsed}

-- What a tick size is where it is accepted.
tick_facts : (text : Text) (t : Decimal) → parse_tick_size text ≡ ok t → 0 < t.coefficient
unfolding parse_tick_size
tick_facts text t e =
    let (parsed, found, e₁) = >>=-eq-ok (parse_non_negative_decimal text (codes "tick_size")) _ e in
    ground arith

small_power : (e : ℕ) → e ≤ 19 → 1 * 10 ^ e ≤ uint64_max
small_power e h =
    let bound : 10 ^ e ≤ 10 ^ 19 = pow-le-pow_right (omega arith) h in omega (arith, bound)

pow10_ok : (e : ℕ) → e ≤ 19 → pow10 e ≡ ok (10 ^ e)
unfolding pow10_from
pow10_ok e h = pow10_from_ok 1 e (small_power e h) ∙ ap ok (omega arith)

-- A number of ticks over one is found again from the product.
exact_ticks-multiple :
    (p n d : ℕ) → 0 < d → p ≤ int64_max → n ≡ p * d → exact_ticks n d ≡ ok (pos p)
unfolding exact_ticks
exact_ticks-multiple p n d positive fits same =
    let whole : (n % d == 0) ≡ true = rw (same, mul-mod_left p d) refl in
    let quotient : n / d ≡ p = div-eq_of_eq-mul_left positive same in
    let (some_divisor, small, smaller) = tests_pass positive fits in
    rw (some_divisor, whole, quotient, small, smaller) refl
  where
    tests_pass :
        0 < d
        → p ≤ int64_max
        → ((d == 0) ≡ false) × (ltb uint64_max p ≡ false) × (ltb int64_max p ≡ false)
    tests_pass h g = (ground arith, ground arith, ground arith)

-- A number of ticks is found only where the division leaves nothing.
exact_ticks-exact :
    (n d : ℕ) (p : PriceTicks)
    → exact_ticks n d ≡ ok p
    → (pos (pos_part p) ≡ p) × (n ≡ pos_part p * d)
unfolding exact_ticks
exact_ticks-exact n d p e =
    let (_, nonzero, e₁) = >>=-eq-ok (throw_if (d == 0) nonpositive_tick_size) _ e in
    let (_, whole, e₂) = >>=-eq-ok (throw_if (not ((n % d) == 0)) not_multiple_of_tick) _ e₁ in
    let (ticks, found, e₃) = >>=-eq-ok (checked_to_uint64 (n / d) (codes "price_ticks")) _ e₂ in
    let (_, _, e₄) = >>=-eq-ok (throw_if (ltb int64_max ticks) price_ticks_out_of_range) _ e₃ in
    let same : n / d ≡ ticks = ground arith in
    let result : pos ticks ≡ p = ok_eq (pos ticks) p e₄ in
    let rest : n % d ≡ 0 = ground arith in
    let split : n ≡ n / d * d = omega (arith, rest, mod-eq-sub-div-mul n d, div-mul-le_self n d) in
    (
      ap pos (sym (ap pos_part result)) ∙ result,
      split ∙ ap (λ q. q * d) (same ∙ ap pos_part result),
    )

pow_add : (b a k : ℕ) → b ^ (a + k) ≡ b ^ a * b ^ k
pow_add b a zero =
    let same : a + 0 ≡ a = omega arith in
    ap (λ n. b ^ n) same ∙ sym (times_one (b ^ a)) ∙ ap (λ n. b ^ a * n) (sym (pow-zero b))
  where
    times_one : (n : ℕ) → n * 1 ≡ n
    times_one n = omega arith
pow_add b a (suc k) =
    let shift : a + suc k ≡ suc (a + k) = omega arith in
    ap (λ n. b ^ n) shift
    ∙ pow-suc b (a + k)
    ∙ ap (λ n. n * b) (pow_add b a k)
    ∙ mul_assoc (b ^ a) (b ^ k) b
    ∙ ap (λ n. b ^ a * n) (sym (pow-suc b k))

-- Where a price is parsed, with what both texts stand for: the price is exactly the ticks times the
-- tick size, over the powers of ten of both scales.
pub price_to_ticks-exact :
    (text tick : Text) (p : PriceTicks)
    → price_to_ticks text tick ≡ ok p
    → (price : Decimal) × (t : Decimal) × (parse_non_negative_decimal text (codes "decimal_price")
        ≡ ok price)
      × (parse_tick_size tick ≡ ok t)
      × (pos (pos_part p) ≡ p)
      × (price.coefficient * 10 ^ t.scale ≡ pos_part p * (t.coefficient * 10 ^ price.scale))
unfolding price_to_ticks pow10_from
price_to_ticks-exact text tick p e =
    let (price, parsed, e₁) =
      >>=-eq-ok (parse_non_negative_decimal text (codes "decimal_price")) _ e in
    let (t, read, e₂) = >>=-eq-ok (parse_tick_size tick) _ e₁ in
    let (n, up, e₃) = >>=-eq-ok (pow10 t.scale) _ e₂ in
    let (d, down, e₄) = >>=-eq-ok (pow10 price.scale) _ e₃ in
    let (whole, exact) = exact_ticks-exact (price.coefficient * n) (t.coefficient * d) p e₄ in
    (
      price,
      t,
      parsed,
      read,
      whole,
      ap (λ m. price.coefficient * m) (sym (power t.scale n up))
          ∙ exact
          ∙ ap (λ m. pos_part p * (t.coefficient * m)) (power price.scale d down),
    )
  where
    power : (e r : ℕ) → pow10 e ≡ ok r → r ≡ 10 ^ e
    power e r h = pow10_from_value 1 e r h ∙ one_times (10 ^ e)
      where
        one_times : (n : ℕ) → 1 * n ≡ n
        one_times n = omega arith

module _ (tick : Text) (t : Decimal) (read : parse_tick_size tick ≡ ok t)
    (places : t.scale ≤ 19) where
  -- The number that is formatted, with its zeros at the end dropped, over the tick size.
  back :
      (p c : ℕ)
      → p ≤ int64_max
      → c ≤ uint64_max
      → c ≡ p * t.coefficient
      → price_to_ticks (format_scaled_decimal c t.scale) tick ≡ ok (pos p)
  unfolding price_to_ticks pow10_from
  back p c fits small same =
      let price = strip_zeros c t.scale in
      let (k, scale, value) = strip_zeros-value c t.scale in
      let parsed =
        format_scaled_decimal-parsed (codes "decimal_price") c t.scale small
          (omega (arith, places)) in
      let up = pow10_ok t.scale places in
      let down = pow10_ok price.scale (omega (arith, scale, places)) in
      let divides : price.coefficient * 10 ^ t.scale ≡ p * (t.coefficient * 10 ^ price.scale) =
        ap (λ s. price.coefficient * 10 ^ s) (sym scale)
        ∙ ap (λ n. price.coefficient * n)
            (pow_add 10 price.scale k ∙ mul_comm (10 ^ price.scale) (10 ^ k))
        ∙ sym (mul_assoc price.coefficient (10 ^ k) (10 ^ price.scale))
        ∙ ap (λ n. n * 10 ^ price.scale) (value ∙ same)
        ∙ mul_assoc p t.coefficient (10 ^ price.scale) in
      let positive = mul-pos (tick_facts tick t read) (one-le-pow price.scale 10 (omega arith)) in
      rw (price_to_ticks, parsed, read, up, down) (exact_ticks-multiple p _ _ positive fits divides)

-- A price that is formatted for a tick size with at most 19 decimal places is parsed back to the
-- same ticks.
pub price_to_ticks-ticks_to_price :
    (p : PriceTicks) (tick text : Text) (t : Decimal)
    → pos_part p ≤ int64_max
    → parse_tick_size tick ≡ ok t
    → t.scale ≤ 19
    → ticks_to_price p tick ≡ ok text
    → price_to_ticks text tick ≡ ok p
unfolding ticks_to_price validate_price_ticks
price_to_ticks-ticks_to_price p tick text t fits read places e =
    let (_, valid, e₁) = >>=-eq-ok (throw_if (ltb_ℤ p (pos 0)) negative_price) _ e in
    let (u, again, e₂) = >>=-eq-ok (parse_tick_size tick) _ e₁ in
    let (c, small, e₃) =
      >>=-eq-ok (checked_to_uint64 (pos_part p * u.coefficient) (codes "decimal_price")) _ e₂ in
    let same : t ≡ u = ok_eq t u (sym read ∙ again) in
    let (product, bound) = checked_ok (pos_part p * u.coefficient) c small in
    let made : format_scaled_decimal c u.scale ≡ text = ok_eq _ text e₃ in
    let whole : pos (pos_part p) ≡ p = nonneg p valid in
    subst (λ x. price_to_ticks x tick ≡ ok p) made
      (back tick u again (subst (λ (x : Decimal). x.scale ≤ 19) same places) (pos_part p) c fits
          bound (sym product)
        ∙ ap ok whole)
  where
    checked_ok :
        (n c : ℕ) → checked_to_uint64 n (codes "decimal_price") ≡ ok c → (n ≡ c) × (c ≤ uint64_max)
    checked_ok n c e = (ground arith, ground arith)

    nonneg : (p : ℤ) → throw_if (ltb_ℤ p (pos 0)) negative_price ≡ ok tt → pos (pos_part p) ≡ p
    nonneg p e = ground arith
