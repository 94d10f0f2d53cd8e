-- ===== src/Feed/RoundTrip.antt =====
-- A feed there and back: what src/market_feed.cpp parses from the canonical texts of its events.
use cpp_market_replay_engine.Base.{
  ◌==◌, length, All, drop, ok, ℕ, ◌+◌, ◌≡◌, refl, Bool, true, false, ◌&&◌, Option, none, some, List,
  [], ◌∷◌, map, arith,
}
use cpp_market_replay_engine.Base.Text.{Text}
use cpp_market_replay_engine.Types.{EventKey}
use cpp_market_replay_engine.Types.Decimal.{Decimal, parse_tick_size, validate_tick_size}
use cpp_market_replay_engine.Market.{
  PriceFieldFormat, FeedParserConfig, MarketEvent, MarketEventType, event_key,
}
use cpp_market_replay_engine.Replay.Merge.{KeysRise}
use cpp_market_replay_engine.Feed.Lines.{split_csv_line, is_header}
use cpp_market_replay_engine.Feed.{
  Place, validate_source_order, expected_header, is_header_line, parse_lines, parse_csv,
}
use cpp_market_replay_engine.Feed.Canonical.{row_of, kind_text, canonical_event_string}
use cpp_market_replay_engine.Feed.Accepted.{RiseFrom}
use cpp_market_replay_engine.Feed.Rows.{IsRow, row-ReadsBack}

rises-validated :
    (previous : Option EventKey) (e : MarketEvent) (events : List MarketEvent) (at_place : Place)
    → RiseFrom previous (e ∷ events)
    → (validate_source_order previous (event_key e) at_place ≡ ok tt)
      × RiseFrom (some (event_key e)) events
unfolding validate_source_order
rises-validated none e events at_place h = (refl, h)
rises-validated (some k) e events at_place h = (ground arith, h.1)

header_false : (a b : Bool) → b ≡ false → (a && b) ≡ false
header_false true b h = h
header_false false b h = refl

module _ (type : MarketEventType) (source : Text) (config : FeedParserConfig)
    (ticks_config : config.price_format ≡ PriceFieldFormat.ticks) where
  parse_lines-rows :
      (n : ℕ) (previous : Option EventKey) (events : List MarketEvent)
      → All (IsRow type) events
      → RiseFrom previous events
      → parse_lines type source config n previous (map row_of events) ≡ ok events
  unfolding parse_lines
  parse_lines-rows n previous [] rows rises = refl
  parse_lines-rows n previous (e ∷ events) rows rises =
      let back = row-ReadsBack type config e ticks_config rows.0 in
      let at_place : Place = record { source = source; line_number = n + 1 } in
      let (valid, more) = rises-validated previous e events at_place rises in
      let no_header : is_header_line type (n + 1) (split_csv_line (row_of e)) ≡ false =
        header_false (n + 1 == 1) (is_header (split_csv_line (row_of e)) (expected_header type))
          back.no_header in
      rw
        (
          back.not_blank,
          no_header,
          back.row at_place,
          valid,
          parse_lines-rows (n + 1) (some (event_key e)) events rows.1 more,
        )
        refl

KeysRise-RiseFrom : (events : List MarketEvent) → KeysRise events → RiseFrom none events
KeysRise-RiseFrom [] h = tt
KeysRise-RiseFrom (e ∷ []) h = tt
KeysRise-RiseFrom (e ∷ x ∷ events) h = (h.0, KeysRise-RiseFrom (x ∷ events) h.1)

-- The canonical text of an event without its kind.
abbrev pub row_text : MarketEventType → MarketEvent → Text
row_text type e = drop (length (kind_text type)) (canonical_event_string e)

row_text-row_of :
    (type : MarketEventType) (e : MarketEvent) → IsRow type e → row_text type e ≡ row_of e
row_text-row_of MarketEventType.book_updates (MarketEvent.book_update e) h = refl
row_text-row_of MarketEventType.trades (MarketEvent.trade e) h = refl
row_text-row_of MarketEventType.book_updates (MarketEvent.trade e) h = absurd h
row_text-row_of MarketEventType.trades (MarketEvent.book_update e) h = absurd h

rows_same :
    (type : MarketEventType) (events : List MarketEvent)
    → All (IsRow type) events
    → map (row_text type) events ≡ map row_of events
rows_same type [] h = refl
rows_same type (e ∷ events) h = rw (row_text-row_of type e h.0, rows_same type events h.1) refl

-- With prices in ticks and an accepted tick size: where the events are of one kind, with amounts that
-- are not negative and numbers within the ranges of their types, and their keys rise, the canonical
-- texts of the events without their kinds are parsed to exactly these events.
pub parse_csv-rows :
    (type : MarketEventType) (source : Text) (config : FeedParserConfig) (t : Decimal)
    (events : List MarketEvent)
    → parse_tick_size config.tick_size ≡ ok t
    → config.price_format ≡ PriceFieldFormat.ticks
    → All (IsRow type) events
    → KeysRise events
    → parse_csv type source config (map (row_text type) events) ≡ ok events
unfolding parse_csv validate_tick_size
parse_csv-rows type source config t events tick_size format rows rises =
    rw (validated, rows_same type events rows)
      (parse_lines-rows type source config format 0 none events rows
        (KeysRise-RiseFrom events rises))
  where
    validated : validate_tick_size config.tick_size ≡ ok tt
    validated = rw (tick_size) refl
