-- ===== src/Replay/Hash/Hex.antt =====
-- What the text of a hash stands for.
use Prim.Native.Nat.{bit_xor}
use cpp_market_replay_engine.Base.{
  ltb, if◌then◌else◌, length, All, ℕ, zero, suc, ◌+◌, ◌-◌, ◌*◌, ◌/◌, ◌%◌, ◌^◌, ◌≤◌, ◌<◌, ◌≡◌, refl,
  ap, ◌∙◌, ◌⊎◌, [], ◌∷◌, ◌++◌, arith,
}
use cpp_market_replay_engine.Base.Text.{Text, codes}
use cpp_market_replay_engine.Base.Fnv.{fnv1a64_from, fnv1a64}
use cpp_market_replay_engine.Types.{uint64_max}
use cpp_market_replay_engine.Replay.Hash.{hex_digit, hex_digits, hex64, hash_text}

abbrev hex_of : ℕ → ℕ
hex_of c = if ltb c b'a' then c - b'0' else c - b'a' + 10

-- The number that hexadecimal digits stand for, behind a number that was read before them.
abbrev pub hex_value : ℕ → Text → ℕ
hex_value v [] = v
hex_value v (c ∷ t) = hex_value (v * 16 + hex_of c) t

-- 16 to a power
abbrev above_hex : ℕ → ℕ
above_hex zero = 1
above_hex (suc width) = above_hex width * 16

hex_digit-value : (n : ℕ) → n < 16 → hex_of (hex_digit n) ≡ n
hex_digit-value n h = ground arith

hex_digits-value :
    (width n : ℕ) (rest : Text)
    → n < above_hex width
    → hex_value 0 (hex_digits width n rest) ≡ hex_value n rest
unfolding hex_digits
hex_digits-value zero n rest h =
    let nothing : 0 ≡ n = omega arith in ap (λ v. hex_value v rest) nothing
hex_digits-value (suc width) n rest h =
    let digit = hex_digit-value (n % 16) (omega arith) in
    let whole : n / 16 * 16 + n % 16 ≡ n = omega arith in
    hex_digits-value width (n / 16) (hex_digit (n % 16) ∷ rest) (omega arith)
    ∙ ap (λ d. hex_value (n / 16 * 16 + d) rest) digit
    ∙ ap (λ v. hex_value v rest) whole

hex_digits-length :
    (width n : ℕ) (rest : Text) → length (hex_digits width n rest) ≡ width + length rest
unfolding hex_digits
hex_digits-length zero n rest = omega arith
hex_digits-length (suc width) n rest =
    omega (arith, hex_digits-length width (n / 16) (hex_digit (n % 16) ∷ rest))

fnv1a64_from-bounded :
    (text : Text) (hash : ℕ) → hash ≤ uint64_max → fnv1a64_from hash text ≤ uint64_max
unfolding fnv1a64_from
fnv1a64_from-bounded [] hash h = h
fnv1a64_from-bounded (ch ∷ text) hash h = fnv1a64_from-bounded text _ (omega arith)

-- A digit, or a letter from a to f.
abbrev pub IsHexDigit : ℕ → Type 0
IsHexDigit c = ((b'0' ≤ c) × (c ≤ b'9')) ⊎ ((b'a' ≤ c) × (c ≤ b'f'))

hex_digit-IsHexDigit : (n : ℕ) → n < 16 → IsHexDigit (hex_digit n)
hex_digit-IsHexDigit n h = ground arith

hex_digits-IsHexDigit :
    (width n : ℕ) (rest : Text) → All IsHexDigit rest → All IsHexDigit (hex_digits width n rest)
unfolding hex_digits
hex_digits-IsHexDigit zero n rest h = h
hex_digits-IsHexDigit (suc width) n rest h =
    hex_digits-IsHexDigit width (n / 16) (hex_digit (n % 16) ∷ rest)
      (hex_digit-IsHexDigit (n % 16) (omega arith), h)

-- One more byte, as FNV-1a takes it in: the exclusive or, then the product with the 64-bit prime.
abbrev pub fnv1a : ℕ → ℕ → ℕ
fnv1a hash ch = bit_xor hash (ch % 256) * (2 ^ 40 + 2 ^ 8 + 179) % 2 ^ 64

fnv1a64_from-append :
    (text : Text) (hash ch : ℕ)
    → fnv1a64_from hash (text ++ ch ∷ []) ≡ fnv1a (fnv1a64_from hash text) ch
unfolding fnv1a64_from
fnv1a64_from-append [] hash ch = refl
fnv1a64_from-append (c ∷ text) hash ch = fnv1a64_from-append text _ ch

-- The hash of a text and the text of that hash.
pub record Hashed (text : Text) : Type 0 where
  pub fits : fnv1a64 text ≤ uint64_max
  pub first : hash_text [] ≡ codes "cbf29ce484222325"
  pub next : (ch : ℕ) → fnv1a64 (text ++ ch ∷ []) ≡ fnv1a (fnv1a64 text) ch
  pub size : length (hash_text text) ≡ 16
  pub digits : All IsHexDigit (hash_text text)
  pub value : hex_value 0 (hash_text text) ≡ fnv1a64 text

-- The hash of every text is that of FNV-1a with 64 bits: that of the empty text is cbf29ce484222325,
-- and one more byte takes it to the exclusive or with the byte, times 2^40 + 2^8 + 179, modulo 2^64.
-- It fits a uint64_t, and its own text is sixteen characters, each a digit or a letter from a to f,
-- which stand for it.
pub hash_text-Hashed : (text : Text) → Hashed text
unfolding fnv1a64 fnv1a64_from hash_text hex64 hex_digits
hash_text-Hashed text =
    let fits = fnv1a64_from-bounded text 14695981039346656037 (omega arith) in
    record {
      fits = fits;
      first = refl;
      next = λ ch. fnv1a64_from-append text 14695981039346656037 ch;
      size = hex_digits-length 16 (fnv1a64 text) [];
      digits = hex_digits-IsHexDigit 16 (fnv1a64 text) [] tt;
      value = hex_digits-value 16 (fnv1a64 text) [] (omega arith);
    }
