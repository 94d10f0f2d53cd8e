-- ===== src/Feed/Splits.antt =====
-- How src/market_feed.cpp splits a row of plain fields, which hold no comma and no space.
use cpp_market_replay_engine.Base.{
  ◌==◌, All, All-map, ℕ, ◌≡◌, refl, ap, ◌∙◌, false, [], ◌∷◌, ◌++◌, map, arith,
}
use cpp_market_replay_engine.Base.Text.{Text, decimal, is_empty_text}
use cpp_market_replay_engine.Types.{Side}
use cpp_market_replay_engine.Types.Digits.{IsDigit, decimal-All}
use cpp_market_replay_engine.Feed.Lines.{
  is_space, trim_front, trim_back, trim, fields_of, split_csv_line, is_blank,
}
use cpp_market_replay_engine.Feed.Canonical.{side_to_string}

abbrev pub IsPlain : ℕ → Type 0
IsPlain c = ((c == b',') ≡ false) × (is_space c ≡ false)

digit-IsPlain : (c : ℕ) → IsDigit c → IsPlain c
digit-IsPlain c h = (ground arith, ground arith)

digits-IsPlain : (t : Text) → All IsDigit t → All IsPlain t
digits-IsPlain t h = All-map IsDigit IsPlain t digit-IsPlain h

pub decimal-IsPlain : (n : ℕ) → All IsPlain (decimal n)
decimal-IsPlain n = digits-IsPlain (decimal n) (decimal-All n)

pub side-IsPlain : (side : Side) → All IsPlain (side_to_string side)
side-IsPlain Side.buy = ground arith
side-IsPlain Side.sell = ground arith

trim_back_plain : (t : Text) → All IsPlain t → trim_back t ≡ t
unfolding trim_back
trim_back_plain [] h = refl
trim_back_plain (c ∷ t) h = rw (h.0.1) (ap (λ r. c ∷ r) (trim_back_plain t h.1))

trim_front_plain : (t : Text) → All IsPlain t → trim_front t ≡ t
unfolding trim_front
trim_front_plain [] h = refl
trim_front_plain (c ∷ t) h = rw (h.0.1) refl

pub trim_plain : (t : Text) → All IsPlain t → trim t ≡ t
unfolding trim trim_front trim_back
trim_plain t h = ap trim_back (trim_front_plain t h) ∙ trim_back_plain t h

fields_of_plain :
    (t rest : Text) → All IsPlain t → fields_of (t ++ b',' ∷ rest) ≡ t ∷ fields_of rest
unfolding fields_of
fields_of_plain [] rest h = refl
fields_of_plain (c ∷ t) rest h = rw (h.0.0, fields_of_plain t rest h.1) refl

fields_of_last : (t : Text) → All IsPlain t → fields_of t ≡ t ∷ []
unfolding fields_of
fields_of_last [] h = refl
fields_of_last (c ∷ t) h = rw (h.0.0, fields_of_last t h.1) refl

-- A plain field and what follows its comma.
pub split_plain :
    (t rest : Text) → All IsPlain t → split_csv_line (t ++ b',' ∷ rest) ≡ t ∷ split_csv_line rest
unfolding split_csv_line fields_of
split_plain t rest h =
    ap (map trim) (fields_of_plain t rest h)
    ∙ ap (λ f. f ∷ map trim (fields_of rest)) (trim_plain t h)

-- The last field.
pub split_last : (t : Text) → All IsPlain t → split_csv_line t ≡ t ∷ []
unfolding split_csv_line fields_of
split_last t h = ap (map trim) (fields_of_last t h) ∙ ap (λ f. f ∷ []) (trim_plain t h)

pub is_blank_plain :
    (t rest : Text) → is_empty_text t ≡ false → All IsPlain t → is_blank (t ++ rest) ≡ false
unfolding is_blank
is_blank_plain [] rest nonempty h = cc
is_blank_plain (c ∷ t) rest nonempty h = rw (h.0.1) refl
