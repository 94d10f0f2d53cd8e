-- ===== src/Replay/Script/Pieces.antt =====
-- How src/replay_engine.cpp splits the canonical text of scripted intents: pieces that hold neither
-- the delimiter nor a space.
use cpp_market_replay_engine.Base.{
  ◌==◌, All, All-append, All-map, ℤ, pos, negsuc, ℕ, ◌≡◌, refl, ap, ◌∙◌, true, false, [], ◌∷◌, ◌++◌,
  map, arith,
}
use cpp_market_replay_engine.Base.Text.{Text, decimal}
use cpp_market_replay_engine.Types.{Side, OrderType}
use cpp_market_replay_engine.Types.Digits.{IsDigit, decimal-All}
use cpp_market_replay_engine.Feed.Lines.{trim}
use cpp_market_replay_engine.Feed.Splits.{IsPlain, trim_plain}
use cpp_market_replay_engine.Feed.Canonical.{signed_decimal}
use cpp_market_replay_engine.Feed.Rows.{IsAmount}
use cpp_market_replay_engine.Replay.Script.{pieces_of, split, side_name, order_type_name}

-- A character of an entry, and one of a field.
abbrev pub IsEntryChar : ℕ → Type 0
IsEntryChar c = IsPlain c × ((c == b';') ≡ false)

abbrev pub IsFieldChar : ℕ → Type 0
IsFieldChar c = IsEntryChar c × ((c == b':') ≡ false)

pieces_of-until :
    (d : ℕ) (t rest : Text)
    → All (λ c. (c == d) ≡ false) t
    → (d == d) ≡ true
    → pieces_of d (t ++ (d ∷ rest)) ≡ t ∷ pieces_of d rest
unfolding pieces_of
pieces_of-until d [] rest h same = rw (same) refl
pieces_of-until d (c ∷ t) rest h same = rw (h.0, pieces_of-until d t rest h.1 same) refl

pieces_of-whole : (d : ℕ) (t : Text) → All (λ c. (c == d) ≡ false) t → pieces_of d t ≡ t ∷ []
unfolding pieces_of
pieces_of-whole d [] h = refl
pieces_of-whole d (c ∷ t) h = rw (h.0, pieces_of-whole d t h.1) refl

pub split-until :
    (d : ℕ) (t rest : Text)
    → All IsPlain t
    → All (λ c. (c == d) ≡ false) t
    → (d == d) ≡ true
    → split (t ++ (d ∷ rest)) d ≡ t ∷ split rest d
unfolding split
split-until d t rest plain free same =
    ap (map trim) (pieces_of-until d t rest free same)
    ∙ ap (λ f. f ∷ map trim (pieces_of d rest)) (trim_plain t plain)

pub split-whole :
    (d : ℕ) (t : Text) → All IsPlain t → All (λ c. (c == d) ≡ false) t → split t d ≡ t ∷ []
unfolding split
split-whole d t plain free =
    ap (map trim) (pieces_of-whole d t free) ∙ ap (λ f. f ∷ []) (trim_plain t plain)

-- A field and what follows its colon.
field-IsPlain : (t : Text) → All IsFieldChar t → All IsPlain t
field-IsPlain t h = All-map IsFieldChar IsPlain t (λ c h. h.0.0) h

pub field-IsEntryChar : (t : Text) → All IsFieldChar t → All IsEntryChar t
field-IsEntryChar t h = All-map IsFieldChar IsEntryChar t (λ c h. h.0) h

pub split_field :
    (t rest : Text) → All IsFieldChar t → split (t ++ (b':' ∷ rest)) b':' ≡ t ∷ split rest b':'
split_field t rest h =
    split-until b':' t rest (field-IsPlain t h)
      (All-map IsFieldChar (λ c. (c == b':') ≡ false) t (λ c h. h.1) h) refl

pub split_last_field : (t : Text) → All IsFieldChar t → split t b':' ≡ t ∷ []
split_last_field t h =
    split-whole b':' t (field-IsPlain t h)
      (All-map IsFieldChar (λ c. (c == b':') ≡ false) t (λ c h. h.1) h)

pub split_entry :
    (t rest : Text) → All IsEntryChar t → split (t ++ (b';' ∷ rest)) b';' ≡ t ∷ split rest b';'
split_entry t rest h =
    split-until b';' t rest (All-map IsEntryChar IsPlain t (λ c h. h.0) h)
      (All-map IsEntryChar (λ c. (c == b';') ≡ false) t (λ c h. h.1) h) refl

digit-IsFieldChar : (c : ℕ) → IsDigit c → IsFieldChar c
digit-IsFieldChar c h = (((ground arith, ground arith), ground arith), ground arith)

pub decimal-IsField : (n : ℕ) → All IsFieldChar (decimal n)
decimal-IsField n = All-map IsDigit IsFieldChar (decimal n) digit-IsFieldChar (decimal-All n)

pub side-IsField : (side : Side) → All IsFieldChar (side_name side)
side-IsField Side.buy = ground arith
side-IsField Side.sell = ground arith

pub order_type-IsField : (order_type : OrderType) → All IsFieldChar (order_type_name order_type)
order_type-IsField OrderType.market = ground arith
order_type-IsField OrderType.limit = ground arith

pub amount-IsField : (n : ℤ) → IsAmount n → All IsFieldChar (signed_decimal n)
amount-IsField (pos k) h = decimal-IsField k
amount-IsField (negsuc k) h = absurd (omega (arith, h.0))

pub colon-IsEntryChar :
    (s t : Text) → All IsEntryChar s → All IsEntryChar t → All IsEntryChar (s ++ (b':' ∷ t))
colon-IsEntryChar s t h k = All-append IsEntryChar s (b':' ∷ t) h (((refl, refl), refl), k)
