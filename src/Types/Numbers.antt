-- ===== src/Types/Numbers.antt =====
-- Plain numbers of src/types.cpp there and back: what std::from_chars reads of a printed number.
use cpp_market_replay_engine.Base.{
  ltb, ◌==◌, All, ℤ, pos, ltb_ℤ, Error, too_large, not_an_integer, Result, ok, ◌>>=◌, ℕ, ◌+◌, ◌-◌,
  ◌*◌, ◌≤◌, ◌≡◌, refl, ap, ◌∙◌, false, [], ◌∷◌, arith,
}
use cpp_market_replay_engine.Base.Text.{Text, codes, decimal, is_empty_text}
use cpp_market_replay_engine.Types.{int64_max, validate_price_ticks, validate_quantity}
use cpp_market_replay_engine.Types.Names.{
  scan_digits, read_digits, parse_non_negative_int64, parse_price_ticks, parse_quantity,
}
use cpp_market_replay_engine.Types.Digits.{
  value_of, IsDigit, decimal-value, decimal-All, decimal-nonempty,
}

scan_digits-digits : (v : ℕ) (t : Text) → All IsDigit t → scan_digits v t ≡ (value_of v t, [])
unfolding scan_digits
scan_digits-digits v [] h = refl
scan_digits-digits v (c ∷ t) h = rw (h.0) (scan_digits-digits (v * 10 + (c - b'0')) t h.1)

-- A text of digits, read whole.
read_digits_found :
    (largest : ℕ) (t : Text) (e f : Error)
    → is_empty_text t ≡ false
    → All IsDigit t
    → value_of 0 t ≤ largest
    → read_digits largest t e f ≡ ok (value_of 0 t)
unfolding read_digits
read_digits_found largest [] e f nonempty h fits = absurd cc
read_digits_found largest (c ∷ t) e f nonempty h fits =
    rw (scan_digits-digits 0 (c ∷ t) h, h.0, within fits) refl
  where
    within : {n m : ℕ} → n ≤ m → ltb m n ≡ false
    within h = ground arith

pub read_digits-decimal :
    (largest n : ℕ) (e f : Error) → n ≤ largest → read_digits largest (decimal n) e f ≡ ok n
read_digits-decimal largest n e f fits =
    read_digits_found largest (decimal n) e f (decimal-nonempty n) (decimal-All n)
      (rw (decimal-value n) fits)
    ∙ ap ok (decimal-value n)

unsigned :
    (t field_name : Text) (r : Result ℤ)
    → is_empty_text t ≡ false
    → All IsDigit t
    → (read_digits int64_max t (too_large field_name) (not_an_integer field_name) >>= λ value.
        ok (pos value))
      ≡ r
    → parse_non_negative_int64 t field_name ≡ r
unfolding parse_non_negative_int64
unsigned [] field_name r nonempty h e = absurd cc
unsigned (c ∷ t) field_name r nonempty h e = let (plus, minus) = signs c h.0 in rw (minus, plus) e
  where
    signs : (c : ℕ) → IsDigit c → ((c == b'+') ≡ false) × ((c == b'-') ≡ false)
    signs c h = (ground arith, ground arith)

-- A printed number of at most 2^63 - 1 is read as that number, of ticks and of a quantity.
pub parse_quantity-decimal :
    (n : ℕ)
    → n ≤ int64_max
    → (parse_quantity (decimal n) ≡ ok (pos n)) × (parse_price_ticks (decimal n) ≡ ok (pos n))
unfolding parse_quantity parse_price_ticks validate_quantity validate_price_ticks
parse_quantity-decimal n fits =
    (rw (number (codes "quantity"), whole n) refl, rw (number (codes "price_ticks"), whole n) refl)
  where
    whole : (n : ℕ) → ltb_ℤ (pos n) (pos 0) ≡ false
    whole n = ground arith

    number : (field_name : Text) → parse_non_negative_int64 (decimal n) field_name ≡ ok (pos n)
    number field_name =
        unsigned (decimal n) field_name (ok (pos n)) (decimal-nonempty n) (decimal-All n) (
          rw
            (read_digits-decimal int64_max n (too_large field_name) (not_an_integer field_name)
              fits)
            refl)
