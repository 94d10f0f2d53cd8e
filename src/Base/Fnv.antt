-- ===== src/Base/Fnv.antt =====
-- `fnv1a64`, which src/event_loop.cpp, src/order_book.cpp and src/replay_engine.cpp each define.
use Prim.Native.Nat.{bit_xor, ℕ, ◌*◌, ◌%◌}
use mathlib.Core.List.{[], ◌∷◌}
use cpp_market_replay_engine.Base.Text.{Text}

-- The loop of `fnv1a64`.
unfoldable pub fnv1a64_from : ℕ → Text → ℕ
fnv1a64_from hash [] = hash
fnv1a64_from hash (ch ∷ text) =
    fnv1a64_from (bit_xor hash (ch % 256) * 1099511628211 % 18446744073709551616) text

unfoldable pub fnv1a64 : Text → ℕ
fnv1a64 text = fnv1a64_from 14695981039346656037 text
