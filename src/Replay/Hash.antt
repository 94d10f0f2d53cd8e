-- ===== src/Replay/Hash.antt =====
-- The text of a hash: `hex64` and `hash_text` of src/replay_engine.cpp.
pub mod Hex
use cpp_market_replay_engine.Base.Fnv.{fnv1a64}
use cpp_market_replay_engine.Base.Text.{Text}
use cpp_market_replay_engine.Base.{ltb, if◌then◌else◌, ℕ, zero, suc, ◌+◌, ◌-◌, ◌/◌, ◌%◌, [], ◌∷◌}

abbrev pub hex_digit : ℕ → ℕ
hex_digit n = if ltb n 10 then b'0' + n else b'a' + (n - 10)

-- The last hexadecimal digits of a number, in front of a text.
unfoldable pub hex_digits : ℕ → ℕ → Text → Text
hex_digits zero value rest = rest
hex_digits (suc width) value rest = hex_digits width (value / 16) (hex_digit (value % 16) ∷ rest)

-- A uint64_t has at most 16 hexadecimal digits, and std::setw(16) fills them up with zeros.
unfoldable pub hex64 : ℕ → Text
hex64 value = hex_digits 16 value []

unfoldable pub hash_text : Text → Text
hash_text text = hex64 (fnv1a64 text)
