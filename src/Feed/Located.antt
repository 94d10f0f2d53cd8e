-- ===== src/Feed/Located.antt =====
-- Which line of a feed src/market_feed.cpp reports: the first that it does not accept.
use cpp_market_replay_engine.Base.{
  if◌then◌else◌, length, take, Error, Result, err, ok, ◌>>=◌, >>=-eq-err, ◌>>◌, ℕ, suc, ◌+◌, ◌<◌,
  ◌≡◌, refl, subst, inl, inr, Bool, true, false, Option, none, some, List, [], ◌∷◌, arith,
}
use cpp_market_replay_engine.Base.Text.{Text}
use cpp_market_replay_engine.Types.{EventKey}
use cpp_market_replay_engine.Market.{FeedParserConfig, MarketEvent, MarketEventType, event_key}
use cpp_market_replay_engine.Feed.Lines.{split_csv_line, is_blank}
use cpp_market_replay_engine.Feed.{
  Place, parse_row, validate_source_order, is_header_line, parse_lines, parse_csv,
}
use cpp_market_replay_engine.Feed.Places.{IsAt, FailsAt, row-FailsAt, order-FailsAt}
use cpp_market_replay_engine.Types.Decimal.{validate_tick_size}

failed :
    {V : Type 0} (at_place : Place) (r : Result V) (e : Error)
    → FailsAt at_place r
    → r ≡ err e
    → IsAt at_place e
failed at_place r e h bad = subst (FailsAt at_place) bad h

module _ (type : MarketEventType) (source : Text) (config : FeedParserConfig) where
  -- A line is reported; the lines before it are accepted, and with it they are refused in the same way.
  pub record IsFirstBad (n : ℕ) (previous : Option EventKey) (lines : List Text) (e : Error)
      : Type 0 where
    pub index : ℕ
    pub within : index < length lines
    pub located : IsAt (record { source = source; line_number = n + index + 1 }) e
    pub events : List MarketEvent
    pub before : parse_lines type source config n previous (take index lines) ≡ ok events
    pub refused : parse_lines type source config n previous (take (suc index) lines) ≡ err e

  -- The body of the loop, with the test for a line that is passed over.
  abbrev body : Bool → Bool → ℕ → Option EventKey → Text → List Text → Result (List MarketEvent)
  body blank header n previous line lines =
      let at_place : Place = record { source = source; line_number = n + 1 } in
      if blank
      then parse_lines type source config (n + 1) previous lines
      else if header
      then parse_lines type source config (n + 1) previous lines
      else (parse_row type config at_place (split_csv_line line) >>= λ event.
          validate_source_order previous (event_key event) at_place
          >> parse_lines type source config (n + 1) (some (event_key event)) lines
          >>= λ events. ok (event ∷ events))

  at_once :
      (n : ℕ) (previous : Option EventKey) (line : Text) (lines : List Text) (e : Error)
      → IsAt (record { source = source; line_number = n + 1 }) e
      → body (is_blank line) (is_header_line type (n + 1) (split_csv_line line)) n previous line []
        ≡ err e
      → IsFirstBad n previous (line ∷ lines) e
  unfolding parse_lines
  at_once n previous line lines e h bad = record {
    index = 0;
    within = omega arith;
    located = subst (λ k. IsAt (record { source = source; line_number = k }) e) same h;
    events = [];
    before = refl;
    refused = bad;
  }
    where
      same : n + 1 ≡ n + 0 + 1
      same = omega arith

  -- With a line in front of them, the lines before the bad one stay accepted, and refused with it.
  abbrev StaysFirst :
      Bool
      → Bool
      → (n : ℕ) (previous next : Option EventKey) (line : Text) (lines : List Text) (e : Error)
      → IsFirstBad (n + 1) next lines e
      → Type 0
  StaysFirst blank header n previous next line lines e found =
      (events : List MarketEvent) × (body blank header n previous line (take found.index lines)
        ≡ ok events)
      × (body blank header n previous line (take (suc found.index) lines) ≡ err e)

  -- The bad line is behind one that is accepted.
  later :
      (n : ℕ) (previous next : Option EventKey) (line : Text) (lines : List Text) (e : Error)
      → (found : IsFirstBad (n + 1) next lines e)
      → StaysFirst
          (is_blank line)
          (is_header_line type (n + 1) (split_csv_line line))
          n
          previous
          next
          line
          lines
          e
          found
      → IsFirstBad n previous (line ∷ lines) e
  unfolding parse_lines
  later n previous next line lines e found (events, accepted, bad) = record {
    index = suc found.index;
    within = omega (arith, found.within);
    located = subst (λ k. IsAt (record { source = source; line_number = k }) e) same found.located;
    events = events;
    before = accepted;
    refused = bad;
  }
    where
      same : n + 1 + found.index + 1 ≡ n + suc found.index + 1
      same = omega arith

  parse_lines-IsFirstBad :
      (n : ℕ) (previous : Option EventKey) (lines : List Text) (e : Error)
      → parse_lines type source config n previous lines ≡ err e
      → IsFirstBad n previous lines e
  unfolding parse_lines
  parse_lines-IsFirstBad n previous [] e h = absurd cc
  parse_lines-IsFirstBad n previous (line ∷ lines) e h =
      by_line (is_blank line) (is_header_line type (n + 1) (split_csv_line line))
        (λ next. parse_lines-IsFirstBad (n + 1) next lines e)
        (λ next found accepted. later n previous next line lines e found accepted)
        (at_once n previous line lines e) h
    where
      at_place : Place
      at_place = record { source = source; line_number = n + 1 }

      by_event :
          {event : MarketEvent}
          → ((found : IsFirstBad (n + 1) (some (event_key event)) lines e)
              → StaysFirst false false n previous (some (event_key event)) line lines e found
              → IsFirstBad n previous (line ∷ lines) e)
          → (IsAt at_place e
              → body false false n previous line [] ≡ err e
              → IsFirstBad n previous (line ∷ lines) e)
          → (parse_lines type source config (n + 1) (some (event_key event)) lines ≡ err e
              → IsFirstBad (n + 1) (some (event_key event)) lines e)
          → parse_row type config at_place (split_csv_line line) ≡ ok event
          → (validate_source_order previous (event_key event) at_place
              >> parse_lines type source config (n + 1) (some (event_key event)) lines
              >>= λ events. ok (event ∷ events))
            ≡ err e
          → IsFirstBad n previous (line ∷ lines) e
      by_event {event} more here rest parsed h =
          let next = some (event_key event) in
          elim (>>=-eq-err
            (validate_source_order previous (event_key event) at_place
              >> parse_lines type source config (n + 1) next lines)
            _ h) [
              | inr (events, _, never) ↦ absurd (cc)
              | inl h₁ ↦
                  elim (>>=-eq-err (validate_source_order previous (event_key event) at_place) _
                    h₁) [
                      | inl bad ↦
                          here
                            (failed at_place _ e (order-FailsAt previous (event_key event) at_place)
                              bad)
                            (rw (parsed, bad) refl)
                      | inr (_, valid, bad) ↦
                          let found = rest bad in
                          more found (
                            event ∷ found.events,
                            rw (parsed, valid, found.before) refl,
                            rw (parsed, valid, found.refused) refl,
                          )
                    ]
            ]

      by_line :
          (blank header : Bool)
          → ((next : Option EventKey)
              → parse_lines type source config (n + 1) next lines ≡ err e
              → IsFirstBad (n + 1) next lines e)
          → ((next : Option EventKey) (found : IsFirstBad (n + 1) next lines e)
              → StaysFirst blank header n previous next line lines e found
              → IsFirstBad n previous (line ∷ lines) e)
          → (IsAt at_place e
              → body blank header n previous line [] ≡ err e
              → IsFirstBad n previous (line ∷ lines) e)
          → body blank header n previous line lines ≡ err e
          → IsFirstBad n previous (line ∷ lines) e
      by_line true header rest more here h =
          let found = rest previous h in
          more previous found (found.events, found.before, found.refused)
      by_line false true rest more here h =
          let found = rest previous h in
          more previous found (found.events, found.before, found.refused)
      by_line false false rest more here h =
          elim (>>=-eq-err (parse_row type config at_place (split_csv_line line)) _ h) [
            | inl bad ↦
                here (failed at_place _ e (row-FailsAt type config at_place _) bad) (rw (bad) refl)
            | inr (event, parsed, h₁) ↦
                by_event (more (some (event_key event))) here (rest (some (event_key event))) parsed
                  h₁
          ]

-- How a feed is refused: for its tick size, or for a line.
pub data Refusal (type : MarketEventType) (source : Text) (config : FeedParserConfig)
    (lines : List Text) (e : Error) : Type 0 where
  bad_tick_size : validate_tick_size config.tick_size ≡ err e → Refusal type source config lines e
  bad_line :
      (first : IsFirstBad type source config 0 none lines e)
      → (events : List MarketEvent)
      → parse_csv type source config (take first.index lines) ≡ ok events
      → parse_csv type source config (take (suc first.index) lines) ≡ err e
      → Refusal type source config lines e

-- Where a feed is refused, the tick size is, or the exception names the source and a line of the
-- input, counted from one, such that the lines before it are accepted as a feed, and are refused with
-- this exception as soon as the line itself follows them.
pub parse_csv-Refusal :
    (type : MarketEventType) (source : Text) (config : FeedParserConfig) (lines : List Text)
    (e : Error)
    → parse_csv type source config lines ≡ err e
    → Refusal type source config lines e
unfolding parse_csv
parse_csv-Refusal type source config lines e h =
    elim (>>=-eq-err (validate_tick_size config.tick_size) _ h) [
      | inl bad ↦ Refusal.bad_tick_size bad
      | inr (_, valid, bad) ↦
          let first = parse_lines-IsFirstBad type source config 0 none lines e bad in
          Refusal.bad_line first first.events (rw (valid) first.before) (rw (valid) first.refused)
    ]
