-- ===== src/Types/Digits.antt =====
-- The value of digits, as a number prints them and as the loops of src/types.cpp read them.
use native.Mathlib.Nat.{pow-suc, pow-succ', one-le-pow, mul_assoc}
use cpp_market_replay_engine.Base.{
  ltb, ◌==◌, ltb→lt, Bool-cases, length, take, length-append, All, All-append, drop, ok, ok_eq, ℕ,
  zero, suc, ◌+◌, ◌-◌, ◌*◌, ◌/◌, ◌%◌, ◌^◌, ◌≤◌, ◌<◌, ◌≡◌, refl, sym, ap, ◌∙◌, subst, inl, inr, true,
  false, [], ◌∷◌, ◌++◌, arith,
}
use cpp_market_replay_engine.Base.Text.{Text, digits, decimal, is_empty_text, is_digit}
use cpp_market_replay_engine.Types.{uint64_max}
use cpp_market_replay_engine.Types.Decimal.{strip_zeros, pow10_from, zeros, pad}

-- The number that digits stand for, behind a number that was read before them.
abbrev pub value_of : ℕ → Text → ℕ
value_of v [] = v
value_of v (c ∷ t) = value_of (v * 10 + (c - b'0')) t

abbrev pub IsDigit : ℕ → Type 0
IsDigit c = is_digit c ≡ true

pub value_of-append : (v : ℕ) (s t : Text) → value_of v (s ++ t) ≡ value_of (value_of v s) t
value_of-append v [] t = refl
value_of-append v (c ∷ s) t = value_of-append (v * 10 + (c - b'0')) s t

pub value_of_grows : (v : ℕ) (t : Text) → v ≤ value_of v t
value_of_grows v [] = omega arith
value_of_grows v (c ∷ t) = omega (arith, value_of_grows (v * 10 + (c - b'0')) t)

code-IsDigit : (n : ℕ) → n < 10 → IsDigit (b'0' + n)
code-IsDigit n h = ground arith

pub digits-All : (fuel n : ℕ) (rest : Text) → All IsDigit rest → All IsDigit (digits fuel n rest)
unfolding digits
digits-All zero n rest h = h
digits-All (suc fuel) n rest h = elim (Bool-cases (ltb n 10)) [
  | inl short ↦ rw (short) (code-IsDigit n (ltb→lt n 10 short), h)
  | inr long ↦
      rw (long)
        (digits-All fuel (n / 10) ((b'0' + n % 10) ∷ rest) (code-IsDigit (n % 10) (omega arith), h))
]

digits-value :
    (fuel n : ℕ) (rest : Text) → n < fuel → value_of 0 (digits fuel n rest) ≡ value_of n rest
unfolding digits
digits-value zero n rest h = absurd (omega arith)
digits-value (suc fuel) n rest h = elim (Bool-cases (ltb n 10)) [
  | inl short ↦
      let last : 0 * 10 + (b'0' + n - b'0') ≡ n = omega arith in
      rw (short) (ap (λ v. value_of v rest) last)
  | inr long ↦
      let (below, last) : (n / 10 < fuel) × (n / 10 * 10 + (b'0' + n % 10 - b'0') ≡ n) =
        (ground arith, omega arith) in
      rw (long)
        (digits-value fuel (n / 10) ((b'0' + n % 10) ∷ rest) below ∙ ap (λ v. value_of v rest) last)
]

-- What a number prints are digits that stand for it.
pub decimal-value : (n : ℕ) → value_of 0 (decimal n) ≡ n
unfolding digits
decimal-value n = digits-value (suc n) n [] (omega arith)

pub decimal-All : (n : ℕ) → All IsDigit (decimal n)
unfolding digits
decimal-All n = digits-All (suc n) n [] tt

pub zeros-value : (n : ℕ) (t : Text) → value_of 0 (zeros n ++ t) ≡ value_of 0 t
zeros-value zero t = refl
zeros-value (suc n) t = zeros-value n t

pub zeros-All : (n : ℕ) → All IsDigit (zeros n)
zeros-All zero = tt
zeros-All (suc n) = (refl, zeros-All n)

-- Dropping zeros at the end keeps the value.
pub strip_zeros-value :
    (c s : ℕ)
    → (k : ℕ) × ((strip_zeros c s).scale + k ≡ s) × ((strip_zeros c s).coefficient * 10 ^ k ≡ c)
unfolding strip_zeros
strip_zeros-value c zero = (0, refl, omega arith)
strip_zeros-value c (suc s) = elim (Bool-cases ((c % 10) == 0)) [
  | inl even ↦
      let (k, scale, value) = strip_zeros-value (c / 10) s in
      rw (even)
        (suc k, omega (arith, scale), power k (strip_zeros (c / 10) s).coefficient value even)
  | inr odd ↦ rw (odd) (0, omega arith, omega arith)
]
  where
    power : (k d : ℕ) → d * 10 ^ k ≡ c / 10 → ((c % 10) == 0) ≡ true → d * 10 ^ suc k ≡ c
    power k d value even =
        let whole : c / 10 * 10 ≡ c = ground (arith, even) in
        ap (λ p. d * p) (pow-suc 10 k)
        ∙ sym (mul_assoc d (10 ^ k) 10)
        ∙ ap (λ m. m * 10) value
        ∙ whole

pub pow10_from_ok : (v e : ℕ) → v * 10 ^ e ≤ uint64_max → pow10_from v e ≡ ok (v * 10 ^ e)
unfolding pow10_from
pow10_from_ok v zero h = ap ok (omega arith)
pow10_from_ok v (suc e) h =
    let step : v * 10 ^ suc e ≡ v * 10 * 10 ^ e =
      ap (λ p. v * p) (pow-succ' 10 e) ∙ sym (mul_assoc v 10 (10 ^ e)) in
    let first : v * 10 ≤ v * 10 * 10 ^ e =
      grows (v * 10) (10 ^ e) (one-le-pow e 10 (omega arith)) in
    let room : ltb (uint64_max / 10) v ≡ false = small v (omega (arith, first, step, h)) in
    rw (room, step) (pow10_from_ok (v * 10) e (omega (arith, step, h)))
  where
    grows : (a b : ℕ) → 1 ≤ b → a ≤ a * b
    grows a b h = grind arith

    small : (v : ℕ) → v * 10 ≤ uint64_max → ltb (uint64_max / 10) v ≡ false
    small v h = ground arith

pub pow10_from_value : (v e r : ℕ) → pow10_from v e ≡ ok r → r ≡ v * 10 ^ e
unfolding pow10_from
pow10_from_value v zero r h = omega (arith, ok_eq v r h)
pow10_from_value v (suc e) r h =
    let rest : pow10_from (v * 10) e ≡ ok r = ground arith in
    pow10_from_value (v * 10) e r rest
    ∙ mul_assoc v 10 (10 ^ e)
    ∙ ap (λ p. v * p) (sym (pow-succ' 10 e))

digits-nonempty :
    (fuel n : ℕ) (rest : Text)
    → is_empty_text rest ≡ false
    → is_empty_text (digits fuel n rest) ≡ false
unfolding digits
digits-nonempty zero n rest h = h
digits-nonempty (suc fuel) n rest h =
    ground (arith, digits-nonempty fuel (n / 10) ((b'0' + n % 10) ∷ rest) refl)

pub decimal-nonempty : (n : ℕ) → is_empty_text (decimal n) ≡ false
unfolding digits
decimal-nonempty n = ground (arith, digits-nonempty n (n / 10) ((b'0' + n % 10) ∷ []) refl)

-- A text of digits cut in two.
pub record IsCut (t s u : Text) (n : ℕ) : Type 0 where
  pub whole : s ++ u ≡ t
  pub front : All IsDigit s
  pub back : All IsDigit u
  pub places : length u ≡ n
  pub nonempty : is_empty_text s ≡ false

take-IsCut :
    (t : Text) (i : ℕ)
    → All IsDigit t
    → 0 < i
    → i ≤ length t
    → IsCut t (take i t) (drop i t) (length t - i)
take-IsCut t zero h some_front fits = absurd (omega arith)
take-IsCut [] (suc i) h some_front fits = absurd (omega arith)
take-IsCut (c ∷ t) (suc zero) h some_front fits = record {
  whole = refl;
  front = (h.0, tt);
  back = h.1;
  places = omega arith;
  nonempty = refl;
}
take-IsCut (c ∷ t) (suc (suc i)) h some_front fits =
    let k = take-IsCut t (suc i) h.1 (omega arith) (omega (arith, fits)) in
    record {
      whole = ap (λ r. c ∷ r) k.whole;
      front = (h.0, k.front);
      back = k.back;
      places = omega (arith, k.places);
      nonempty = refl;
    }

pad-All : (t : Text) (s : ℕ) → All IsDigit t → All IsDigit (pad t s)
pad-All t s h =
    ground (arith, All-append IsDigit (zeros (s - length t + 1)) t (zeros-All (s - length t + 1)) h)

pub pad-value : (t : Text) (s : ℕ) → value_of 0 (pad t s) ≡ value_of 0 t
pad-value t s = ground (arith, zeros-value (s - length t + 1) t)

zeros-length : (n : ℕ) → length (zeros n) ≡ n
zeros-length zero = refl
zeros-length (suc n) = ap suc (zeros-length n)

pad-longer : (t : Text) (s : ℕ) → s < length (pad t s)
pad-longer t s =
    ground (arith, length-append (zeros (s - length t + 1)) t, zeros-length (s - length t + 1))

-- The text in front of the point and the text behind it.
pub padded-IsCut :
    (t : Text) (s : ℕ)
    → All IsDigit t
    → let d = pad t s in IsCut d (take (length d - s) d) (drop (length d - s) d) s
padded-IsCut t s h =
    let d = pad t s in
    let k =
      take-IsCut d (length d - s) (pad-All t s h) (omega (arith, pad-longer t s)) (omega arith) in
    let left : length d - (length d - s) ≡ s = omega (arith, pad-longer t s) in
    subst (IsCut d (take (length d - s) d) (drop (length d - s) d)) left k
