-- ===== src/Types/Format.antt =====
-- What `parse_non_negative_decimal` of src/types.cpp reads from the text that `format_scaled_decimal`
-- writes.

use cpp_market_replay_engine.Base.{
  ltb, ◌==◌, length, take, ++-nil, All, drop, Result, ok, ℕ, zero, suc, ◌+◌, ◌-◌, ◌*◌, ◌/◌, ◌≤◌,
  ◌<◌, ◌≡◌, refl, sym, ap, ◌∙◌, subst, Bool, true, false, not, ◌||◌, [], ◌∷◌, ◌++◌, arith,
}
use cpp_market_replay_engine.Base.Text.{Text, decimal, is_empty_text}
use cpp_market_replay_engine.Types.{uint64_max}
use cpp_market_replay_engine.Types.Decimal.{
  uint32_max, Decimal, checked_mul10_add, DecimalState, count_place, decimal_step, decimal_loop,
  strip_zeros, parse_digits, parse_non_negative_decimal, pad, format_scaled_decimal,
}
use cpp_market_replay_engine.Types.Digits.{
  value_of, IsDigit, value_of-append, value_of_grows, decimal-value, decimal-All, decimal-nonempty,
  pad-value, padded-IsCut,
}

digit_room :
    (c v : ℕ) → v * 10 + (c - b'0') ≤ uint64_max → ltb ((uint64_max - (c - b'0')) / 10) v ≡ false
digit_room c v h = ground arith

or-false : (b : Bool) → (b || false) ≡ b
or-false true = refl
or-false false = refl

or-true : (b : Bool) → (b || true) ≡ true
or-true true = refl
or-true false = refl

abbrev state_at : ℕ → ℕ → Bool → Bool → DecimalState
state_at coefficient scale saw_digit saw_decimal_point = record {
  coefficient = coefficient;
  scale = scale;
  saw_digit = saw_digit;
  saw_decimal_point = saw_decimal_point;
}

-- Digits before the point.
decimal_loop-whole :
    (f : Text) (v s : ℕ) (saw : Bool) (t u : Text)
    → All IsDigit t
    → value_of v t ≤ uint64_max
    → decimal_loop f (state_at v s saw false) (t ++ u)
      ≡ decimal_loop f (state_at (value_of v t) s (saw || not (is_empty_text t)) false) u
unfolding decimal_loop decimal_step count_place checked_mul10_add
decimal_loop-whole f v s saw [] u h fits =
    ap (λ b. decimal_loop f (state_at v s b false) u) (sym (or-false saw))
decimal_loop-whole f v s saw (c ∷ t) u h fits =
    let next = v * 10 + (c - b'0') in
    let room = digit_room c v (omega (arith, value_of_grows next t, fits)) in
    rw (h.0, room, or-true saw) (decimal_loop-whole f next s true t u h.1 fits)

-- Digits behind the point.
decimal_loop-places :
    (f : Text) (v s : ℕ) (saw : Bool) (t : Text)
    → All IsDigit t
    → value_of v t ≤ uint64_max
    → s + length t ≤ uint32_max
    → decimal_loop f (state_at v s saw true) t
      ≡ ok (state_at (value_of v t) (s + length t) (saw || not (is_empty_text t)) true)
unfolding decimal_loop decimal_step count_place checked_mul10_add
decimal_loop-places f v s saw [] h fits places =
    let same : s + 0 ≡ s = omega arith in rw (same, or-false saw) refl
decimal_loop-places f v s saw (c ∷ t) h fits places =
    let next = v * 10 + (c - b'0') in
    let room = digit_room c v (omega (arith, value_of_grows next t, fits)) in
    let few : (s == uint32_max) ≡ false = small s (omega (arith, places)) in
    let longer : s + suc (length t) ≡ s + 1 + length t = omega arith in
    rw (h.0, room, few, or-true saw, longer)
      (decimal_loop-places f next (s + 1) true t h.1 fits (omega (arith, places)))
  where
    small : (n : ℕ) → n < uint32_max → (n == uint32_max) ≡ false
    small n h = ground arith

-- A text that starts with a digit is read as digits.
unsigned :
    (f : Text) (text : Text) (r : Result Decimal)
    → is_empty_text text ≡ false
    → (starts : (c : ℕ) (t : Text) → text ≡ c ∷ t → IsDigit c) → parse_digits f text ≡ r
    → parse_non_negative_decimal text f ≡ r
unfolding parse_non_negative_decimal
unsigned f [] r nonempty starts e = absurd cc
unsigned f (c ∷ t) r nonempty starts e =
    let (plus, minus) = signs c (starts c t refl) in rw (plus, minus) e
  where
    signs : (c : ℕ) → IsDigit c → ((c == b'+') ≡ false) × ((c == b'-') ≡ false)
    signs c h = (ground arith, ground arith)

front-IsDigit :
    (s u : Text) (c : ℕ) (t : Text)
    → is_empty_text s ≡ false
    → All IsDigit s
    → s ++ u ≡ c ∷ t
    → IsDigit c
front-IsDigit [] u c t nonempty h e = absurd cc
front-IsDigit (d ∷ s) u c t nonempty h e = let same : d ≡ c = cc in subst IsDigit same h.0

parsed_loop :
    (f t : Text) (v s : ℕ) (b : Bool)
    → decimal_loop f (state_at 0 0 false false) t ≡ ok (state_at v s true b)
    → parse_digits f t ≡ ok (strip_zeros v s)
unfolding parse_digits
parsed_loop f t v s b e = rw (e) refl

-- A number with no point.
parse_digits-whole :
    (f s : Text)
    → is_empty_text s ≡ false
    → All IsDigit s
    → value_of 0 s ≤ uint64_max
    → parse_digits f s ≡ ok (strip_zeros (value_of 0 s) 0)
unfolding decimal_loop
parse_digits-whole f s nonempty h fits = parsed_loop f s (value_of 0 s) 0 false (
    subst
      (λ t. decimal_loop f (state_at 0 0 false false) t ≡ ok (state_at (value_of 0 s) 0 true false))
      (++-nil s)
      (decimal_loop-whole f 0 0 false s [] h fits
        ∙ ap (λ b. ok (state_at (value_of 0 s) 0 (not b) false)) nonempty))

-- A number with digits before the point and, maybe, behind it.
parse_digits-places :
    (f s u : Text)
    → is_empty_text s ≡ false
    → All IsDigit s
    → All IsDigit u
    → value_of 0 (s ++ u) ≤ uint64_max
    → length u ≤ uint32_max
    → parse_digits f (s ++ b'.' ∷ u) ≡ ok (strip_zeros (value_of 0 (s ++ u)) (length u))
unfolding decimal_loop decimal_step
parse_digits-places f s u nonempty hs hu fits places =
    let v = value_of 0 s in
    let same = value_of-append 0 s u in
    let whole =
      decimal_loop-whole f 0 0 false s (b'.' ∷ u) hs
        (omega (arith, value_of_grows v u, same, fits)) in
    let point = ap (λ b. decimal_loop f (state_at v 0 (not b) false) (b'.' ∷ u)) nonempty in
    let behind = decimal_loop-places f v 0 true u hu (rw (← same) fits) (omega (arith, places)) in
    let none_before : 0 + length u ≡ length u = omega arith in
    parsed_loop f (s ++ b'.' ∷ u) (value_of 0 (s ++ u)) (length u) true (
      whole
      ∙ point
      ∙ behind
      ∙ ap (λ n. ok (state_at (value_of v u) n true true)) none_before
      ∙ ap (λ n. ok (state_at n (length u) true true)) (sym same))

-- A formatted number is read as its coefficient and its scale, less the zeros at its end.
pub format_scaled_decimal-parsed :
    (f : Text) (c s : ℕ)
    → c ≤ uint64_max
    → s ≤ uint32_max
    → parse_non_negative_decimal (format_scaled_decimal c s) f ≡ ok (strip_zeros c s)
unfolding format_scaled_decimal parse_digits
format_scaled_decimal-parsed f c zero fits places =
    let same = decimal-value c in
    unsigned f (decimal c) (ok (strip_zeros c 0)) (decimal-nonempty c)
      (λ d t e.
        front-IsDigit (decimal c) [] d t (decimal-nonempty c) (decimal-All c)
          (++-nil (decimal c) ∙ e))
      (parse_digits-whole f (decimal c) (decimal-nonempty c) (decimal-All c) (rw (same) fits)
        ∙ ap (λ n. ok (strip_zeros n 0)) same)
format_scaled_decimal-parsed f c (suc s) fits places =
    let d = pad (decimal c) (suc s) in
    let i = length d - suc s in
    let k = padded-IsCut (decimal c) (suc s) (decimal-All c) in
    let value = ap (value_of 0) k.whole ∙ pad-value (decimal c) (suc s) ∙ decimal-value c in
    let parsed =
      parse_digits-places f (take i d) (drop i d) k.nonempty k.front k.back
        (omega (arith, value, fits)) (omega (arith, k.places, places)) in
    unsigned f (take i d ++ b'.' ∷ drop i d) (ok (strip_zeros c (suc s)))
      (append-nonempty (take i d) (b'.' ∷ drop i d) k.nonempty)
      (λ x t e. front-IsDigit (take i d) (b'.' ∷ drop i d) x t k.nonempty k.front e)
      (parsed
        ∙ ap (λ n. ok (strip_zeros n (length (drop i d)))) value
        ∙ ap (λ n. ok (strip_zeros c n)) k.places)
  where
    append-nonempty : (a b : Text) → is_empty_text a ≡ false → is_empty_text (a ++ b) ≡ false
    append-nonempty [] b h = cc
    append-nonempty (x ∷ a) b h = refl
