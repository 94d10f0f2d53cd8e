-- ===== src/Replay/Inputs.antt =====
-- `ReplayEngine::run` of src/replay_engine.cpp on the lines of its two inputs.
use cpp_market_replay_engine.Base.{
  length, length-append, Error, Result, err, ok, ℕ, ◌+◌, ◌*◌, ◌<◌, ◌≡◌, refl, Option, some, List,
  arith,
}
use cpp_market_replay_engine.Base.Text.{Text}
use cpp_market_replay_engine.Market.{MarketEvent, MarketEventType}
use cpp_market_replay_engine.QueueImbalance.{Doubles}
use cpp_market_replay_engine.Feed.{parse_csv, parse_book_updates_csv, parse_trades_csv}
use cpp_market_replay_engine.Feed.Accepted.{parse_csv-length}
use cpp_market_replay_engine.Feed.Located.{Refusal, parse_csv-Refusal}
use cpp_market_replay_engine.Replay.Config.{ReplayConfig}
use cpp_market_replay_engine.Replay.Outcome.{ReplayRunResult, replay_feeds, replay_inputs}
use cpp_market_replay_engine.Replay.Complete.{ReplayEnded, replay_feeds-ReplayEnded}

-- How a run on two inputs ends.
pub data InputsEnded {D : Type 0} (doubles : Doubles D) (config : ReplayConfig D)
    (book_lines trade_lines : List Text) : Option (Result (ReplayRunResult D)) → Type 0 where
  bad_book_updates :
      (e : Error)
      → Refusal MarketEventType.book_updates config.book_updates_path config.feed_parser book_lines
          e
      → InputsEnded doubles config book_lines trade_lines (some (err e))
  bad_trades :
      (e : Error)
      → Refusal MarketEventType.trades config.trades_path config.feed_parser trade_lines e
      → InputsEnded doubles config book_lines trade_lines (some (err e))
  replayed :
      (book_updates trades : List MarketEvent) (outcome : Option (Result (ReplayRunResult D)))
      → parse_book_updates_csv book_lines config.book_updates_path config.feed_parser
        ≡ ok book_updates
      → parse_trades_csv trade_lines config.trades_path config.feed_parser ≡ ok trades
      → ReplayEnded doubles config book_updates trades outcome
      → InputsEnded doubles config book_lines trade_lines outcome

-- For all inputs and every configuration: with fuel above three for each line and two for each
-- scripted intent the run ends. Either an input is refused, for the tick size or for its first bad
-- line, which the exception names; or both are parsed, and the replay of the two feeds ends as
-- `ReplayEnded` says.
pub replay_inputs-InputsEnded :
    {D : Type 0} (doubles : Doubles D) (config : ReplayConfig D)
    (book_lines trade_lines : List Text) (fuel : ℕ)
    → (length book_lines + length trade_lines) * 3 + length config.scripted_intents * 2 < fuel
    → InputsEnded doubles config book_lines trade_lines
        (replay_inputs doubles fuel config book_lines trade_lines)
unfolding replay_inputs parse_csv
replay_inputs-InputsEnded {D} doubles config book_lines trade_lines fuel enough =
    by_book (parse_book_updates_csv book_lines config.book_updates_path config.feed_parser) refl
  where
    by_trades :
        (book_updates : List MarketEvent)
        → parse_book_updates_csv book_lines config.book_updates_path config.feed_parser
          ≡ ok book_updates
        → (r : Result (List MarketEvent))
        → parse_trades_csv trade_lines config.trades_path config.feed_parser ≡ r
        → InputsEnded doubles config book_lines trade_lines (elim r [
          | err e ↦ some (err e)
          | ok trades ↦ replay_feeds doubles fuel config book_updates trades
        ])
    by_trades book_updates b (err x) t = InputsEnded.bad_trades x (
        parse_csv-Refusal MarketEventType.trades config.trades_path config.feed_parser trade_lines x
          t)
    by_trades book_updates b (ok trades) t =
        InputsEnded.replayed book_updates trades
          (replay_feeds doubles fuel config book_updates trades) b t
          (replay_feeds-ReplayEnded doubles config book_updates trades fuel (
            omega (
              arith,
              enough,
              length-append book_updates trades,
              parse_csv-length MarketEventType.book_updates config.book_updates_path
                  config.feed_parser book_lines book_updates b,
              parse_csv-length MarketEventType.trades config.trades_path config.feed_parser
                  trade_lines trades t,
            )))

    by_book :
        (r : Result (List MarketEvent))
        → parse_book_updates_csv book_lines config.book_updates_path config.feed_parser ≡ r
        → InputsEnded doubles config book_lines trade_lines (elim r [
          | err e ↦ some (err e)
          | ok book_updates ↦
              elim (parse_trades_csv trade_lines config.trades_path config.feed_parser) [
                | err e ↦ some (err e)
                | ok trades ↦ replay_feeds doubles fuel config book_updates trades
              ]
        ])
    by_book (err x) b = InputsEnded.bad_book_updates x (
        parse_csv-Refusal MarketEventType.book_updates config.book_updates_path config.feed_parser
          book_lines x b)
    by_book (ok book_updates) b =
        by_trades book_updates b
          (parse_trades_csv trade_lines config.trades_path config.feed_parser) refl
