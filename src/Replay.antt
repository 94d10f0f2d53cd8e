-- ===== src/Replay.antt =====
-- src/replay_engine.cpp: the merge of the two feeds into the history that is replayed.
pub mod Merge
pub mod Config
pub mod Script
pub mod Settings
pub mod Hash
pub mod Engine
pub mod Outcome
pub mod Budget
pub mod Ends
pub mod Accounted
pub mod Metrics
pub mod Returned
pub mod Complete
pub mod Inputs
use cpp_market_replay_engine.Base.{
  if◌then◌else◌, duplicate_event_key, Result, err, ok, Bool, true, false, ◌||◌, List, [], ◌∷◌, ◌++◌,
}
use cpp_market_replay_engine.Types.{same_key, key_less}
use cpp_market_replay_engine.Market.{MarketEvent, MarketEventType, event_type, event_key}

abbrev pub is_update_before_trade : MarketEventType → MarketEventType → Bool
is_update_before_trade MarketEventType.book_updates MarketEventType.trades = true
is_update_before_trade _ _ = false

-- The comparison that `merge_events` sorts by.
unfoldable pub event_less : MarketEvent → MarketEvent → Bool
unfolding same_key key_less
event_less lhs rhs =
    if same_key (event_key lhs) (event_key rhs)
    then is_update_before_trade (event_type lhs) (event_type rhs)
    else key_less (event_key lhs) (event_key rhs)

-- std::stable_sort, as an insertion before the first event that is not less.
unfoldable pub insert_event : MarketEvent → List MarketEvent → List MarketEvent
unfolding event_less
insert_event e [] = e ∷ []
insert_event e (x ∷ events) = if event_less x e then x ∷ insert_event e events else e ∷ x ∷ events

unfoldable pub stable_sort : List MarketEvent → List MarketEvent
unfolding insert_event
stable_sort [] = []
stable_sort (e ∷ events) = insert_event e (stable_sort events)

-- The loop after the sort: no two neighbours of one key.
unfoldable pub has_duplicate_key : List MarketEvent → Bool
unfolding same_key
has_duplicate_key [] = false
has_duplicate_key (e ∷ []) = false
has_duplicate_key (e ∷ x ∷ events) =
    same_key (event_key e) (event_key x) || has_duplicate_key (x ∷ events)

unfoldable pub merge_events : List MarketEvent → List MarketEvent → Result (List MarketEvent)
unfolding stable_sort has_duplicate_key
merge_events book_updates trades =
    let events = stable_sort (book_updates ++ trades) in
    if has_duplicate_key events then err duplicate_event_key else ok events
