-- ===== src/OrderBook/State.antt =====
-- The canonical text of a book of src/order_book.cpp, and its hash.
use cpp_market_replay_engine.Base.Text.{Text}
use cpp_market_replay_engine.Base.Fnv.{fnv1a64}
use cpp_market_replay_engine.OrderBook.{OrderBook}
use cpp_market_replay_engine.OrderBook.PriceMap.{Levels}
use cpp_market_replay_engine.Feed.Canonical.{signed_decimal}
use cpp_market_replay_engine.Base.{ℕ, [], ◌∷◌, ◌++◌}

unfoldable pub append_levels : ℕ → Levels → Text
append_levels side_code [] = []
append_levels side_code (level ∷ levels) =
    side_code
    ∷ b','
    ∷ (signed_decimal level.price_ticks
        ++ (b',' ∷ (signed_decimal level.quantity ++ (10 ∷ append_levels side_code levels))))

unfoldable pub canonical_state : OrderBook → Text
canonical_state book = append_levels b'B' book.bids ++ append_levels b'A' book.asks

unfoldable pub state_hash : OrderBook → ℕ
state_hash book = fnv1a64 (canonical_state book)
