-- ===== src/Feed/Lines.antt =====
-- The lines and the fields of src/market_feed.cpp: `trim`, `split_csv_line`, `is_blank`, `is_header`.
use cpp_market_replay_engine.Base.{
  ◌==◌, if◌then◌else◌, ℕ, Bool, true, false, ◌&&◌, ◌||◌, List, [], ◌∷◌, map,
}
use cpp_market_replay_engine.Base.Text.{Text, same_text, is_empty_text}

abbrev pub is_space : ℕ → Bool
is_space ch = (ch == b' ') || (ch == 9) || (ch == 13)

-- The first loop of `trim`.
unfoldable pub trim_front : Text → Text
trim_front [] = []
trim_front (ch ∷ text) = if is_space ch then trim_front text else ch ∷ text

-- The second loop, from the end: a character goes if it is a space and nothing is left behind it.
unfoldable pub trim_back : Text → Text
trim_back [] = []
trim_back (ch ∷ text) =
    let rest = trim_back text in if is_space ch && is_empty_text rest then [] else ch ∷ rest

unfoldable pub trim : Text → Text
trim text = trim_back (trim_front text)

-- The fields, untrimmed: a comma ends one, and one more follows the last comma.
unfoldable pub fields_of : Text → List Text
fields_of [] = [] ∷ []
fields_of (ch ∷ text) =
    let fields = fields_of text in if ch == b',' then [] ∷ fields else add_front ch fields
  where
    add_front : ℕ → List Text → List Text
    add_front c [] = (c ∷ []) ∷ []
    add_front c (f ∷ fs) = (c ∷ f) ∷ fs

unfoldable pub split_csv_line : Text → List Text
split_csv_line line = map trim (fields_of line)

unfoldable pub is_blank : Text → Bool
is_blank [] = true
is_blank (ch ∷ line) = is_space ch && is_blank line

unfoldable pub is_header : List Text → List Text → Bool
is_header [] [] = true
is_header (f ∷ fields) (e ∷ expected) = same_text f e && is_header fields expected
is_header _ _ = false
