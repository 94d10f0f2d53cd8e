-- ===== src/Tests/Feeds.antt =====
-- Tests of the merge of the feeds.
use cpp_market_replay_engine.Base.{
  duplicate_event_key, err, ok, ◌≡◌, refl, none, some, List, [], ◌∷◌,
}
use cpp_market_replay_engine.Types.{Side, same_key, key_less}
use cpp_market_replay_engine.Market.{MarketEvent}
use cpp_market_replay_engine.Replay.{
  event_less, insert_event, stable_sort, has_duplicate_key, merge_events,
}
use cpp_market_replay_engine.Replay.Merge.{IsMerged, merge_events-IsMerged}
use cpp_market_replay_engine.Tests.Data.{update_at, trade_at}

abbrev book_feed : List MarketEvent
book_feed =
    MarketEvent.book_update (update_at 10 0 Side.buy 100 5)
    ∷ MarketEvent.book_update (update_at 30 0 Side.sell 102 4)
    ∷ []

abbrev trade_feed : List MarketEvent
trade_feed =
    MarketEvent.trade (trade_at 20 0 100 3 (some Side.sell))
    ∷ MarketEvent.trade (trade_at 30 1 100 2 (some Side.sell))
    ∷ []

abbrev merged : List MarketEvent
merged =
    MarketEvent.book_update (update_at 10 0 Side.buy 100 5)
    ∷ MarketEvent.trade (trade_at 20 0 100 3 (some Side.sell))
    ∷ MarketEvent.book_update (update_at 30 0 Side.sell 102 4)
    ∷ MarketEvent.trade (trade_at 30 1 100 2 (some Side.sell))
    ∷ []

is_merged : merge_events book_feed trade_feed ≡ ok merged
unfolding merge_events stable_sort insert_event event_less has_duplicate_key same_key key_less
is_merged = refl

-- One key in both feeds is refused.
duplicated :
    merge_events book_feed (MarketEvent.trade (trade_at 10 0 100 1 none) ∷ [])
    ≡ err duplicate_event_key
unfolding merge_events stable_sort insert_event event_less has_duplicate_key same_key key_less
duplicated = refl

merge_events-IsMerged_example : IsMerged book_feed trade_feed merged
merge_events-IsMerged_example = merge_events-IsMerged book_feed trade_feed merged is_merged
