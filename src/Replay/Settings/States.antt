-- ===== src/Replay/Settings/States.antt =====
-- What an accepted configuration of src/replay_engine.cpp holds: the settings that its lines state.
use cpp_market_replay_engine.Base.Text.{Text, same_text}
use cpp_market_replay_engine.Replay.Settings.{
  Values, is_blank_or_comment, parse_setting, find_value, emplace_where, emplace, parse_key_values,
  parse_key_value_file,
}
use cpp_market_replay_engine.Base.{
  ◌==◌, Bool-cases, All, Any, ok, >>=-eq-ok, ok_eq, ℕ, ◌+◌, ◌≡◌, refl, sym, subst, ◌⊎◌, inl, inr,
  true, false, Option, none, some, List, [], ◌∷◌, arith,
}

-- A line that is neither blank nor a comment, and states a setting.
pub record States (line key value : Text) : Type 0 where
  pub is_setting : is_blank_or_comment line ≡ false
  pub line_number : ℕ
  pub parsed : parse_setting line_number line ≡ ok (key, value)

same_text_refl : (s : Text) → same_text s s ≡ true
same_text_refl [] = refl
same_text_refl (c ∷ s) =
    let same : (c == c) ≡ true = ground arith in rw (same, same_text_refl s) refl

same_text_eq : (s t : Text) → same_text s t ≡ true → s ≡ t
same_text_eq [] [] h = refl
same_text_eq [] (d ∷ t) h = cc
same_text_eq (c ∷ s) [] h = cc
same_text_eq (c ∷ s) (d ∷ t) h = elim (Bool-cases (c == d)) [
  | inl same ↦
      let head : c ≡ d = ground arith in
      let tail = same_text_eq s t (rw (same) at h) in rw (head, tail) refl
  | inr other ↦ let h₁ : false ≡ true = rw (other) at h in cc
]

emplace_ok :
    (key value : Text) (values more : Values)
    → emplace key value values ≡ ok more
    → (find_value key values ≡ none) × ((more) ≡ (key, value) ∷ values)
unfolding emplace
emplace_ok key value values more h = by_found (find_value key values) refl h
  where
    by_found :
        (found : Option Text)
        → find_value key values ≡ found
        → emplace_where found key value values ≡ ok more
        → (find_value key values ≡ none) × (more ≡ (key, value) ∷ values)
    by_found none e k = (e, sym (ok_eq _ more k))
    by_found (some v) e k = cc

find_value-first :
    (key value : Text) (values : Values) → find_value key ((key, value) ∷ values) ≡ some value
unfolding find_value
find_value-first key value values = rw (same_text_refl key) refl

find_value-nothing : (key value : Text) → find_value key [] ≡ some value → ⊥
unfolding find_value
find_value-nothing key value h = cc

find_value-cases :
    (key k v value : Text) (values : Values)
    → find_value key ((k, v) ∷ values) ≡ some value
    → ((key ≡ k) × (value ≡ v)) ⊎ (find_value key values ≡ some value)
unfolding find_value
find_value-cases key k v value values h = elim (Bool-cases (same_text k key)) [
  | inl same ↦
      let h₁ : some v ≡ some value = rw (same) at h in
      let value_same : v ≡ value = cc in inl (sym (same_text_eq k key same), sym value_same)
  | inr other ↦ inr (rw (other) at h)
]

-- A new key is no key that is there.
find_value-other :
    (key k v value : Text) (values : Values)
    → find_value k values ≡ none
    → find_value key values ≡ some value
    → find_value key ((k, v) ∷ values) ≡ some value
unfolding find_value
find_value-other key k v value values unknown found = elim (Bool-cases (same_text k key)) [
  | inl same ↦
      let same_keys = same_text_eq k key same in
      absurd (
        let h : find_value key values ≡ none =
          subst (λ x. find_value x values ≡ none) same_keys unknown in
        cc)
  | inr other ↦ rw (other) found
]

-- What the loop does with a line.
pub record Took (n : ℕ) (values : Values) (line : Text) (lines : List Text) (final : Values)
    : Type 0 where
  pub key : Text
  pub value : Text
  pub stated : States line key value
  pub unknown : find_value key values ≡ none
  pub left : parse_key_values (n + 1) ((key, value) ∷ values) lines ≡ ok final

took :
    (n : ℕ) (values : Values) (line : Text) (lines : List Text) (final : Values)
    → parse_key_values n values (line ∷ lines) ≡ ok final
    → ((is_blank_or_comment line ≡ true) × (parse_key_values (n + 1) values lines ≡ ok final))
      ⊎ Took n values line lines final
unfolding parse_key_values
took n values line lines final h = elim (Bool-cases (is_blank_or_comment line)) [
  | inl blank ↦ inl (blank, rw (blank) at h)
  | inr setting ↦
      let ((key, value), parsed, h₁) =
        >>=-eq-ok (parse_setting (n + 1) line) _ (rw (setting) at h) in
      let (more, placed, h₂) = >>=-eq-ok (emplace key value values) _ h₁ in
      let (unknown, added) = emplace_ok key value values more placed in
      inr (record {
        key = key;
        value = value;
        stated = record { is_setting = setting; line_number = n + 1; parsed = parsed };
        unknown = unknown;
        left = subst (λ m. parse_key_values (n + 1) m lines ≡ ok final) added h₂;
      })
]

-- A value that was found is found later as well.
find_value-stays :
    (n : ℕ) (values : Values) (lines : List Text) (final : Values) (key value : Text)
    → parse_key_values n values lines ≡ ok final
    → find_value key values ≡ some value
    → find_value key final ≡ some value
unfolding parse_key_values
find_value-stays n values [] final key value h found =
    subst (λ m. find_value key m ≡ some value) (ok_eq values final h) found
find_value-stays n values (line ∷ lines) final key value h found =
    elim (took n values line lines final h) [
      | inl (blank, left) ↦ find_value-stays (n + 1) values lines final key value left found
      | inr t ↦
          find_value-stays (n + 1) ((t.key, t.value) ∷ values) lines final key value t.left
            (find_value-other key t.key t.value value values t.unknown found)
    ]

-- A line is skipped, or its setting is found.
abbrev pub IsSettledIn : Values → Text → Type 0
IsSettledIn final line =
    (is_blank_or_comment line ≡ true)
    ⊎ ((key : Text) × (value : Text) × States line key value × (find_value key final ≡ some value))

lines-IsSettledIn :
    (n : ℕ) (values : Values) (lines : List Text) (final : Values)
    → parse_key_values n values lines ≡ ok final
    → All (IsSettledIn final) lines
lines-IsSettledIn n values [] final h = tt
lines-IsSettledIn n values (line ∷ lines) final h = elim (took n values line lines final h) [
  | inl (blank, left) ↦ (inl blank, lines-IsSettledIn (n + 1) values lines final left)
  | inr t ↦ (
    inr (
      t.key,
      t.value,
      t.stated,
      find_value-stays (n + 1) ((t.key, t.value) ∷ values) lines final t.key t.value t.left
          (find_value-first t.key t.value values),
    ),
    lines-IsSettledIn (n + 1) ((t.key, t.value) ∷ values) lines final t.left,
  )
]

-- What is found in the end was found before, or a line states it.
find_value-stated :
    (n : ℕ) (values : Values) (lines : List Text) (final : Values) (key value : Text)
    → parse_key_values n values lines ≡ ok final
    → find_value key final ≡ some value
    → (find_value key values ≡ some value) ⊎ Any (λ line. States line key value) lines
unfolding parse_key_values
find_value-stated n values [] final key value h found =
    inl (subst (λ m. find_value key m ≡ some value) (sym (ok_eq values final h)) found)
find_value-stated n values (line ∷ lines) final key value h found =
    elim (took n values line lines final h) [
      | inl (blank, left) ↦
          elim (find_value-stated (n + 1) values lines final key value left found) [
            | inl before ↦ inl before
            | inr later ↦ inr (inr later)
          ]
      | inr t ↦
          elim (find_value-stated (n + 1) ((t.key, t.value) ∷ values) lines final key value t.left
            found) [
              | inl before ↦ elim (find_value-cases key t.key t.value value values before) [
                | inl (same_key, same_value) ↦ inr (inl (rw (same_key, same_value) t.stated))
                | inr older ↦ inl older
              ]
              | inr later ↦ inr (inr later)
            ]
    ]

-- The settings of an accepted configuration: each line is blank, a comment, or states a setting whose
-- value is found under its key; and every value that is found is stated by a line.
pub record Settled (lines : List Text) (values : Values) : Type 0 where
  pub stated : All (IsSettledIn values) lines
  pub found :
      (key value : Text)
      → find_value key values ≡ some value
      → Any (λ line. States line key value) lines

-- Where the lines of a configuration are accepted, each of them is blank, a comment, or states a
-- setting whose value is found under its key; and every value that is found is stated by a line.
pub parse_key_value_file-Settled :
    (lines : List Text) (values : Values)
    → parse_key_value_file lines ≡ ok values
    → Settled lines values
unfolding parse_key_value_file
parse_key_value_file-Settled lines values h = record {
  stated = lines-IsSettledIn 0 [] lines values h;
  found = λ key value found. elim (find_value-stated 0 [] lines values key value h found) [
    | inl before ↦ absurd (find_value-nothing key value before)
    | inr stated ↦ stated
  ];
}
