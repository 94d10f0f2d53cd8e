-- ===== src/Replay/Script/Reads.antt =====
-- Scripted intents there and back: what src/replay_engine.cpp parses from their canonical text.
use cpp_market_replay_engine.Base.Text.{Text, codes, decimal, is_empty_text}
use cpp_market_replay_engine.Types.{
  int64_max, uint64_max, PriceTicks, Side, OrderType, validate_price_ticks, validate_quantity,
}
use cpp_market_replay_engine.Types.Names.{parse_side, parse_order_type, read_digits}
use cpp_market_replay_engine.Types.Digits.{IsDigit, decimal-All, decimal-nonempty}
use cpp_market_replay_engine.Types.Numbers.{read_digits-decimal}
use cpp_market_replay_engine.Feed.Canonical.{signed_decimal}
use cpp_market_replay_engine.Feed.Rows.{IsAmount, FitsKey}
use cpp_market_replay_engine.Replay.Config.{ScriptedIntentConfig}
use cpp_market_replay_engine.Replay.Script.{
  split, parse_uint64, parse_int64, side_name, order_type_name, optional_int64_string,
  canonical_scripted_intent, parse_limit_price, check_limit_price, parse_scripted_fields,
  parse_scripted_intent,
}
use cpp_market_replay_engine.Replay.Script.Pieces.{
  IsEntryChar, IsFieldChar, field-IsEntryChar, split_field, split_last_field, decimal-IsField,
  side-IsField, order_type-IsField, amount-IsField, colon-IsEntryChar,
}
use cpp_market_replay_engine.Base.{
  ◌==◌, All, ℤ, pos, negsuc, ◌≤ℤ◌, ltb_ℤ, leb_ℤ, integer_out_of_bounds, integer_malformed, ok, ℕ,
  ◌≤◌, ◌≡◌, refl, false, Option, none, some, List, [], ◌∷◌, ◌++◌, arith,
}

-- The limit price that an order type takes, within its range.
abbrev pub IsPriced : OrderType → Option PriceTicks → Type 0
IsPriced OrderType.market none = Unit
IsPriced OrderType.limit (some price) = IsAmount price
IsPriced _ _ = ⊥

-- Numbers within the ranges of their types, a quantity above zero, and a limit price where the order
-- type takes one.
abbrev pub IsScripted : ScriptedIntentConfig → Type 0
IsScripted intent =
    FitsKey intent.trigger_key
    × IsAmount intent.quantity
    × (pos 1 ≤ℤ intent.quantity)
    × IsPriced intent.order_type intent.limit_price_ticks

uint64_found : (n : ℕ) (field : Text) → n ≤ uint64_max → parse_uint64 (decimal n) field ≡ ok n
unfolding parse_uint64
uint64_found n field h =
    by_text (decimal n) (decimal-nonempty n) (read_digits-decimal uint64_max n _ _ h)
  where
    by_text :
        (t : Text)
        → is_empty_text t ≡ false
        → read_digits uint64_max t (integer_out_of_bounds field) (integer_malformed field) ≡ ok n
        → parse_uint64 t field ≡ ok n
    by_text [] nonempty h = absurd cc
    by_text (c ∷ t) nonempty h = h

int64_digits :
    (t field : Text) (k : ℕ)
    → is_empty_text t ≡ false
    → All IsDigit t
    → read_digits int64_max t (integer_out_of_bounds field) (integer_malformed field) ≡ ok k
    → parse_int64 t field ≡ ok (pos k)
unfolding parse_int64
int64_digits [] field k nonempty d h = absurd cc
int64_digits (c ∷ t) field k nonempty d h = rw (no_minus c d.0, h) refl
  where
    no_minus : (c : ℕ) → IsDigit c → (c == b'-') ≡ false
    no_minus c d = ground arith

amount_found : (n : ℤ) (field : Text) → IsAmount n → parse_int64 (signed_decimal n) field ≡ ok n
amount_found (pos k) field h =
    int64_digits (decimal k) field k (decimal-nonempty k) (decimal-All k)
      (read_digits-decimal int64_max k _ _ (omega (arith, h.1)))
amount_found (negsuc k) field h = absurd (omega (arith, h.0))

validated : (n : ℤ) → IsAmount n → (ltb_ℤ n (pos 0)) ≡ false
validated (pos k) h = ground arith
validated (negsuc k) h = absurd (omega (arith, h.0))

limit_found :
    (order_type : OrderType) (price : Option PriceTicks)
    → IsPriced order_type price
    → (parse_limit_price (optional_int64_string price) ≡ ok price)
      × (check_limit_price order_type price ≡ ok tt)
unfolding parse_limit_price check_limit_price validate_price_ticks
limit_found OrderType.market none h = (refl, refl)
limit_found OrderType.limit (some price) h =
    (by_text (signed_decimal price) (nonempty price h) (amount_found price _ h), refl)
  where
    nonempty : (n : ℤ) → IsAmount n → is_empty_text (signed_decimal n) ≡ false
    nonempty (pos k) h = decimal-nonempty k
    nonempty (negsuc k) h = refl

    by_text :
        (t : Text)
        → is_empty_text t ≡ false
        → parse_int64 t (codes "scripted limit_price_ticks") ≡ ok price
        → parse_limit_price t ≡ ok (some price)
    by_text [] n k = absurd cc
    by_text (c ∷ t) n k = rw (k, validated price h) refl
limit_found OrderType.market (some price) h = absurd h
limit_found OrderType.limit none h = absurd h

side_found : (side : Side) → parse_side (side_name side) ≡ ok side
unfolding parse_side
side_found Side.buy = refl
side_found Side.sell = refl

order_type_found :
    (order_type : OrderType) → parse_order_type (order_type_name order_type) ≡ ok order_type
unfolding parse_order_type
order_type_found OrderType.market = refl
order_type_found OrderType.limit = refl

abbrev six : Text → Text → Text → Text → Text → Text → List Text
six a b c d e f = a ∷ b ∷ c ∷ d ∷ e ∷ f ∷ []

optional-IsField :
    (order_type : OrderType) (price : Option PriceTicks)
    → IsPriced order_type price
    → All IsFieldChar (optional_int64_string price)
optional-IsField order_type none h = tt
optional-IsField OrderType.limit (some price) h = amount-IsField price h
optional-IsField OrderType.market (some price) h = absurd h

six_fields :
    (a b c d e f : Text)
    → All IsFieldChar a
    → All IsFieldChar b
    → All IsFieldChar c
    → All IsFieldChar d
    → All IsFieldChar e
    → All IsFieldChar f
    → (split (a ++ (b':' ∷ (b ++ (b':' ∷ (c ++ (b':' ∷ (d ++ (b':' ∷ (e ++ (b':' ∷ f)))))))))) b':'
        ≡ six a b c d e f)
      × All IsEntryChar
          (a ++ (b':' ∷ (b ++ (b':' ∷ (c ++ (b':' ∷ (d ++ (b':' ∷ (e ++ (b':' ∷ f))))))))))
six_fields a b c d e f ha hb hc hd he hf = (
  rw
      (
        split_field a _ ha,
        split_field b _ hb,
        split_field c _ hc,
        split_field d _ hd,
        split_field e _ he,
        split_last_field f hf,
      )
      refl,
  colon-IsEntryChar a _ (field-IsEntryChar a ha) (
      colon-IsEntryChar b _ (field-IsEntryChar b hb) (
        colon-IsEntryChar c _ (field-IsEntryChar c hc) (
          colon-IsEntryChar d _ (field-IsEntryChar d hd)
            (colon-IsEntryChar e _ (field-IsEntryChar e he) (field-IsEntryChar f hf))))),
)

pub entry_fields :
    (intent : ScriptedIntentConfig)
    → IsScripted intent
    → (split (canonical_scripted_intent intent) b':'
        ≡ six
            (decimal intent.trigger_key.timestamp_ns)
            (decimal intent.trigger_key.sequence_id)
            (side_name intent.side)
            (order_type_name intent.order_type)
            (signed_decimal intent.quantity)
            (optional_int64_string intent.limit_price_ticks))
      × All IsEntryChar (canonical_scripted_intent intent)
entry_fields intent (key, quantity, positive, priced) =
    six_fields (decimal intent.trigger_key.timestamp_ns) (decimal intent.trigger_key.sequence_id)
      (side_name intent.side) (order_type_name intent.order_type) (signed_decimal intent.quantity)
      (optional_int64_string intent.limit_price_ticks)
      (decimal-IsField intent.trigger_key.timestamp_ns)
      (decimal-IsField intent.trigger_key.sequence_id) (side-IsField intent.side)
      (order_type-IsField intent.order_type) (amount-IsField intent.quantity quantity)
      (optional-IsField intent.order_type intent.limit_price_ticks priced)

-- One entry.
pub intent_found :
    (intent : ScriptedIntentConfig)
    → IsScripted intent
    → parse_scripted_intent (canonical_scripted_intent intent) ≡ ok intent
unfolding parse_scripted_intent parse_scripted_fields validate_quantity
intent_found intent h =
    let (key, quantity, positive, priced) = h in
    let (read, checked) = limit_found intent.order_type intent.limit_price_ticks priced in
    rw
      (
        (entry_fields intent h).0,
        order_type_found intent.order_type,
        read,
        checked,
        amount_found intent.quantity (codes "scripted quantity") quantity,
        validated intent.quantity quantity,
        above intent.quantity positive,
        uint64_found intent.trigger_key.timestamp_ns (codes "scripted timestamp_ns") key.0,
        uint64_found intent.trigger_key.sequence_id (codes "scripted sequence_id") key.1,
        side_found intent.side,
      )
      refl
  where
    above : (n : ℤ) → pos 1 ≤ℤ n → leb_ℤ n (pos 0) ≡ false
    above n h = ground arith

pub entry_nonempty :
    (intent : ScriptedIntentConfig) → is_empty_text (canonical_scripted_intent intent) ≡ false
entry_nonempty intent =
    by_text (decimal intent.trigger_key.timestamp_ns) _
      (decimal-nonempty intent.trigger_key.timestamp_ns)
  where
    by_text : (s r : Text) → is_empty_text s ≡ false → is_empty_text (s ++ r) ≡ false
    by_text [] r h = absurd cc
    by_text (c ∷ s) r h = refl
