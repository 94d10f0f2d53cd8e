-- ===== src/Feed/Accepted.antt =====
-- What a feed that src/market_feed.cpp accepts is made of.
use cpp_market_replay_engine.Base.{
  if◌then◌else◌, length, All, ok, ◌>>=◌, >>=-eq-ok, ◌>>◌, ok_eq, ℕ, suc, ◌+◌, ◌≤◌, ◌≡◌, ap, subst,
  Bool, true, false, Option, none, some, List, [], ◌∷◌, arith,
}
use cpp_market_replay_engine.Base.Text.{Text}
use cpp_market_replay_engine.Types.{EventKey, key_less}
use cpp_market_replay_engine.Types.Decimal.{validate_tick_size}
use cpp_market_replay_engine.Market.{FeedParserConfig, MarketEvent, MarketEventType, event_key}
use cpp_market_replay_engine.Replay.Merge.{KeysRise}
use cpp_market_replay_engine.Feed.Lines.{split_csv_line, is_blank}
use cpp_market_replay_engine.Feed.{
  Place, parse_row, validate_source_order, is_header_line, parse_lines, parse_csv,
}
use cpp_market_replay_engine.Feed.Normalized.{IsNormalized, parse_row-IsNormalized}

-- The keys rise, and from a previous key on, if there is one.
abbrev pub RiseFrom : Option EventKey → List MarketEvent → Type 0
RiseFrom previous [] = Unit {0}
RiseFrom none (e ∷ events) = RiseFrom (some (event_key e)) events
RiseFrom (some k) (e ∷ events) =
    (key_less k (event_key e) ≡ true) × RiseFrom (some (event_key e)) events

RiseFrom-KeysRise : (events : List MarketEvent) → RiseFrom none events → KeysRise events
RiseFrom-KeysRise [] h = tt
RiseFrom-KeysRise (e ∷ []) h = tt
RiseFrom-KeysRise (e ∷ x ∷ events) h = (h.0, RiseFrom-KeysRise (x ∷ events) h.1)

-- What the order check adds to the events behind it.
validated-RiseFrom :
    (previous : Option EventKey) (e : MarketEvent) (at_place : Place) (events : List MarketEvent)
    → validate_source_order previous (event_key e) at_place ≡ ok tt
    → RiseFrom (some (event_key e)) events
    → RiseFrom previous (e ∷ events)
unfolding validate_source_order
validated-RiseFrom none e at_place events v h = h
validated-RiseFrom (some k) e at_place events v h = (ground arith, h)

module _ (type : MarketEventType) (source : Text) (config : FeedParserConfig) where
  abbrev IsFeedFrom : Option EventKey → List MarketEvent → Type 0
  IsFeedFrom previous events = All (IsNormalized type) events × RiseFrom previous events

  parse_lines-IsFeedFrom :
      (n : ℕ) (previous : Option EventKey) (lines : List Text) (events : List MarketEvent)
      → parse_lines type source config n previous lines ≡ ok events
      → IsFeedFrom previous events
  unfolding parse_lines
  parse_lines-IsFeedFrom n previous [] events e =
      subst (IsFeedFrom previous) (ok_eq [] events e) (tt, tt)
  parse_lines-IsFeedFrom n previous (line ∷ lines) events e =
      by_line (is_blank line) (is_header_line type (n + 1) (split_csv_line line))
        (parse_lines-IsFeedFrom (n + 1) previous lines events)
        (λ k more. parse_lines-IsFeedFrom (n + 1) (some k) lines more) e
    where
      at_place : Place
      at_place = record { source = source; line_number = n + 1 }

      by_line :
          (blank header : Bool)
          → (parse_lines type source config (n + 1) previous lines ≡ ok events
              → IsFeedFrom previous events)
          → ((k : EventKey) (more : List MarketEvent)
              → parse_lines type source config (n + 1) (some k) lines ≡ ok more
              → IsFeedFrom (some k) more)
          → (if blank
              then parse_lines type source config (n + 1) previous lines
              else if header
              then parse_lines type source config (n + 1) previous lines
              else (parse_row type config at_place (split_csv_line line) >>= λ event.
                  validate_source_order previous (event_key event) at_place
                  >> parse_lines type source config (n + 1) (some (event_key event)) lines
                  >>= λ events. ok (event ∷ events)))
            ≡ ok events
          → IsFeedFrom previous events
      by_line true header skip row e = skip e
      by_line false true skip row e = skip e
      by_line false false skip row e =
          let (event, parsed, e₁) =
            >>=-eq-ok (parse_row type config at_place (split_csv_line line)) _ e in
          let (more, rest, e₂) =
            >>=-eq-ok
              (validate_source_order previous (event_key event) at_place
                >> parse_lines type source config (n + 1) (some (event_key event)) lines)
              _ e₁ in
          let (_, valid, e₃) =
            >>=-eq-ok (validate_source_order previous (event_key event) at_place) _ rest in
          let (normalized, rises) = row (event_key event) more e₃ in
          subst (IsFeedFrom previous) (ok_eq (event ∷ more) events e₂) (
            (
              parse_row-IsNormalized type config at_place (split_csv_line line) event parsed,
              normalized,
            ),
            validated-RiseFrom previous event at_place more valid rises,
          )

-- A feed that is accepted, of book updates or of trades, holds only events of its kind, with prices
-- and quantities that are not negative, each with a key that is less than the next one's.
pub parse_csv-IsNormalized :
    (type : MarketEventType) (source : Text) (config : FeedParserConfig) (lines : List Text)
    (events : List MarketEvent)
    → parse_csv type source config lines ≡ ok events
    → All (IsNormalized type) events × KeysRise events
unfolding parse_csv
parse_csv-IsNormalized type source config lines events e =
    let (_, _, e₁) = >>=-eq-ok (validate_tick_size config.tick_size) _ e in
    let (normalized, rises) = parse_lines-IsFeedFrom type source config 0 none lines events e₁ in
    (normalized, RiseFrom-KeysRise events rises)

-- A line gives at most one event.
parse_lines-length :
    (type : MarketEventType) (source : Text) (config : FeedParserConfig) (n : ℕ)
    (previous : Option EventKey) (lines : List Text) (events : List MarketEvent)
    → parse_lines type source config n previous lines ≡ ok events
    → length events ≤ length lines
unfolding parse_lines
parse_lines-length type source config n previous [] events e =
    subst (λ l. length l ≤ 0) (ok_eq [] events e) (omega arith)
parse_lines-length type source config n previous (line ∷ lines) events e =
    by_line (is_blank line) (is_header_line type (n + 1) (split_csv_line line))
      (λ next more. parse_lines-length type source config (n + 1) next lines more) e
  where
    at_place : Place
    at_place = record { source = source; line_number = n + 1 }

    by_line :
        (blank header : Bool)
        → ((next : Option EventKey) (more : List MarketEvent)
            → parse_lines type source config (n + 1) next lines ≡ ok more
            → length more ≤ length lines)
        → (if blank
            then parse_lines type source config (n + 1) previous lines
            else if header
            then parse_lines type source config (n + 1) previous lines
            else (parse_row type config at_place (split_csv_line line) >>= λ event.
                validate_source_order previous (event_key event) at_place
                >> parse_lines type source config (n + 1) (some (event_key event)) lines
                >>= λ events. ok (event ∷ events)))
          ≡ ok events
        → length events ≤ suc (length lines)
    by_line true header rest e = omega (arith, rest previous events e)
    by_line false true rest e = omega (arith, rest previous events e)
    by_line false false rest e =
        let (event, _, e₁) = >>=-eq-ok (parse_row type config at_place (split_csv_line line)) _ e in
        let (more, read, e₂) =
          >>=-eq-ok
            (validate_source_order previous (event_key event) at_place
              >> parse_lines type source config (n + 1) (some (event_key event)) lines)
            _ e₁ in
        let (_, _, e₃) =
          >>=-eq-ok (validate_source_order previous (event_key event) at_place) _ read in
        omega
          (arith, rest (some (event_key event)) more e₃, ap length (ok_eq (event ∷ more) events e₂))

pub parse_csv-length :
    (type : MarketEventType) (source : Text) (config : FeedParserConfig) (lines : List Text)
    (events : List MarketEvent)
    → parse_csv type source config lines ≡ ok events
    → length events ≤ length lines
unfolding parse_csv
parse_csv-length type source config lines events e =
    let (_, _, e₁) = >>=-eq-ok (validate_tick_size config.tick_size) _ e in
    parse_lines-length type source config 0 none lines events e₁
