-- ===== src/Replay/Script/RoundTrip.antt =====
-- A script there and back: what src/replay_engine.cpp parses from the canonical text of a script.
use mathlib.Core.List.Perm
use mathlib.Core.List.{Perm}
use cpp_market_replay_engine.Base.{
  Bool-cases, All, All-map, ok, ◌≡◌, refl, inl, inr, true, false, List, [], ◌∷◌, ◌++◌, arith,
}
use cpp_market_replay_engine.Base.Text.{Text, is_empty_text}
use cpp_market_replay_engine.Types.{same_key, key_less}
use cpp_market_replay_engine.Replay.Config.{ScriptedIntentConfig}
use cpp_market_replay_engine.Replay.Script.{
  pieces_of, split, canonical_scripted_intent, canonical_scripted_intents, parse_entries,
  intent_less, insert_intent, sort_intents, parse_scripted_intents,
}
use cpp_market_replay_engine.Feed.Lines.{trim_front, trim_back, trim}
use cpp_market_replay_engine.Feed.Splits.{IsPlain}
use cpp_market_replay_engine.Replay.Script.Pieces.{IsEntryChar, split_entry}
use cpp_market_replay_engine.Replay.Script.Reads.{
  IsScripted, entry_fields, intent_found, entry_nonempty,
}

-- Each entry is before the next one, as the comparison of std::sort says.
abbrev pub Ascending : List ScriptedIntentConfig → Type 0
Ascending [] = Unit
Ascending (x ∷ []) = Unit
Ascending (x ∷ y ∷ intents) = (intent_less x y ≡ true) × Ascending (y ∷ intents)

split-nothing : split [] b';' ≡ [] ∷ []
unfolding split pieces_of trim trim_front trim_back
split-nothing = refl

-- All entries; what follows the last delimiter is empty, and skipped.
entries_found :
    (intents : List ScriptedIntentConfig)
    → All IsScripted intents
    → parse_entries (split (canonical_scripted_intents intents) b';') ≡ ok intents
unfolding parse_entries canonical_scripted_intents
entries_found [] h = rw (split-nothing) refl
entries_found (intent ∷ intents) h =
    let rest = canonical_scripted_intents intents in
    rw
      (
        split_entry (canonical_scripted_intent intent) rest (entry_fields intent h.0).1,
        entry_nonempty intent,
        intent_found intent h.0,
        entries_found intents h.1,
      )
      refl

less_once : (x y : ScriptedIntentConfig) → intent_less x y ≡ true → intent_less y x ≡ false
unfolding same_key key_less
less_once x y h = ground arith

sorted_stays :
    (intents : List ScriptedIntentConfig) → Ascending intents → sort_intents intents ≡ intents
unfolding sort_intents insert_intent
sorted_stays [] h = refl
sorted_stays (x ∷ []) h = refl
sorted_stays (x ∷ y ∷ intents) h = rw (sorted_stays (y ∷ intents) h.1, less_once x y h.0) refl

trim-nonempty :
    (t rest : Text)
    → is_empty_text t ≡ false
    → All IsPlain t
    → is_empty_text (trim (t ++ rest)) ≡ false
unfolding trim trim_front trim_back
trim-nonempty [] rest nonempty h = absurd cc
trim-nonempty (c ∷ t) rest nonempty h = rw (h.0.1, h.0.1) refl

script_nonempty :
    (intent : ScriptedIntentConfig) (rest : Text)
    → IsScripted intent
    → is_empty_text (trim (canonical_scripted_intent intent ++ rest)) ≡ false
script_nonempty intent rest h =
    let plain =
      All-map IsEntryChar IsPlain (canonical_scripted_intent intent) (λ c k. k.0)
        (entry_fields intent h).1 in
    trim-nonempty (canonical_scripted_intent intent) rest (entry_nonempty intent) plain

-- A script whose numbers are within the ranges of their types, with quantities above zero, a limit
-- price for each limit order and none for a market order, and whose intents ascend in the order of
-- trigger key and order type, is parsed from its canonical text to exactly itself.
pub parse_scripted_intents-canonical :
    (intents : List ScriptedIntentConfig)
    → All IsScripted intents
    → Ascending intents
    → parse_scripted_intents (canonical_scripted_intents intents) ≡ ok intents
unfolding parse_scripted_intents canonical_scripted_intents trim trim_front trim_back
parse_scripted_intents-canonical [] h ascending = refl
parse_scripted_intents-canonical (intent ∷ intents) h ascending =
    rw
      (
        script_nonempty intent (b';' ∷ canonical_scripted_intents intents) h.0,
        entries_found (intent ∷ intents) h,
        sorted_stays (intent ∷ intents) ascending,
      )
      refl

-- No entry is before the one in front of it.
abbrev pub InOrder : List ScriptedIntentConfig → Type 0
InOrder [] = Unit
InOrder (x ∷ []) = Unit
InOrder (x ∷ y ∷ intents) = (intent_less y x ≡ false) × InOrder (y ∷ intents)

insert_intent-InOrder :
    (x : ScriptedIntentConfig) (intents : List ScriptedIntentConfig)
    → InOrder intents
    → InOrder (insert_intent x intents)
unfolding insert_intent
insert_intent-InOrder x [] h = tt
insert_intent-InOrder x (y ∷ []) h = elim (Bool-cases (intent_less y x)) [
  | inl before ↦ rw (before) (less_once y x before, tt)
  | inr other ↦ rw (other) (other, tt)
]
insert_intent-InOrder x (y ∷ z ∷ intents) h =
    let rest = insert_intent-InOrder x (z ∷ intents) h.1 in
    elim (Bool-cases (intent_less y x)) [
      | inl before ↦ elim (Bool-cases (intent_less z x)) [
        | inl also ↦ rw (before, also) (h.0, rw (also) at rest)
        | inr other ↦ rw (before, other) (less_once y x before, rw (other) at rest)
      ]
      | inr other ↦ rw (other) (other, h)
    ]

sort_intents-InOrder : (intents : List ScriptedIntentConfig) → InOrder (sort_intents intents)
unfolding sort_intents
sort_intents-InOrder [] = tt
sort_intents-InOrder (x ∷ intents) =
    insert_intent-InOrder x (sort_intents intents) (sort_intents-InOrder intents)

insert_intent-Perm :
    (x : ScriptedIntentConfig) (intents : List ScriptedIntentConfig)
    → Perm (x ∷ intents) (insert_intent x intents)
unfolding insert_intent
insert_intent-Perm x [] = Perm.refl (x ∷ [])
insert_intent-Perm x (y ∷ intents) = elim (Bool-cases (intent_less y x)) [
  | inl before ↦
      rw (before) (Perm.trans (Perm.swap y x intents) (Perm.cons y (insert_intent-Perm x intents)))
  | inr other ↦ rw (other) (Perm.refl (x ∷ y ∷ intents))
]

sort_intents-Perm : (intents : List ScriptedIntentConfig) → Perm intents (sort_intents intents)
unfolding sort_intents
sort_intents-Perm [] = Perm.refl []
sort_intents-Perm (x ∷ intents) =
    Perm.trans (Perm.cons x (sort_intents-Perm intents))
      (insert_intent-Perm x (sort_intents intents))

-- A script in any order, whose numbers are within the ranges of their types, with quantities above
-- zero, a limit price for each limit order and none for a market order: what is parsed from its
-- canonical text holds exactly its intents, and none of them is before the one in front of it in the
-- order of trigger key and order type.
pub parse_scripted_intents-InOrder :
    (intents : List ScriptedIntentConfig)
    → All IsScripted intents
    → (parsed : List ScriptedIntentConfig) × (parse_scripted_intents
          (canonical_scripted_intents intents)
        ≡ ok parsed)
      × Perm intents parsed
      × InOrder parsed
unfolding parse_scripted_intents canonical_scripted_intents trim trim_front trim_back
parse_scripted_intents-InOrder [] h = ([], refl, Perm.refl [], tt)
parse_scripted_intents-InOrder (intent ∷ intents) h = (
  sort_intents (intent ∷ intents),
  rw
      (
        script_nonempty intent (b';' ∷ canonical_scripted_intents intents) h.0,
        entries_found (intent ∷ intents) h,
      )
      refl,
  sort_intents-Perm (intent ∷ intents),
  sort_intents-InOrder (intent ∷ intents),
)
