-- ===== src/Replay/Merge.antt =====
-- The merged history is strictly in the order of its keys, and holds exactly the events of the feeds.
use mathlib.Core.List.Perm
use mathlib.Core.List.{Perm}
use cpp_market_replay_engine.Base.{
  Bool-cases, length, ok, suc, ◌≤◌, ◌≡◌, refl, sym, ap, ◌∙◌, subst, inl, inr, true, false, List, [],
  ◌∷◌, ◌++◌, arith,
}
use cpp_market_replay_engine.Types.{TimestampNs, same_key, key_less}
use cpp_market_replay_engine.Market.{MarketEvent, event_key}
use cpp_market_replay_engine.EventLoop.Timely.{Ascends, market_time}
use cpp_market_replay_engine.Replay.{
  event_less, insert_event, stable_sort, has_duplicate_key, merge_events,
}

insert_event-Ascends :
    (t : TimestampNs) (e : MarketEvent) (events : List MarketEvent)
    → t ≤ market_time e
    → Ascends market_time t events
    → Ascends market_time t (insert_event e events)
unfolding insert_event event_less same_key key_less
insert_event-Ascends t e [] h a = (h, tt)
insert_event-Ascends t e (x ∷ events) h a =
    ground (arith, insert_event-Ascends (market_time x) e events)

stable_sort-Ascends : (events : List MarketEvent) → Ascends market_time 0 (stable_sort events)
unfolding stable_sort
stable_sort-Ascends [] = tt
stable_sort-Ascends (e ∷ events) =
    insert_event-Ascends 0 e (stable_sort events) (omega arith) (stable_sort-Ascends events)

-- Each key is less than the next.
abbrev pub KeysRise : List MarketEvent → Type 0
KeysRise [] = Unit {0}
KeysRise (e ∷ []) = Unit {0}
KeysRise (e ∷ x ∷ events) = (key_less (event_key e) (event_key x) ≡ true) × KeysRise (x ∷ events)

-- No event is less than the one before it.
abbrev IsOrdered : List MarketEvent → Type 0
IsOrdered [] = Unit {0}
IsOrdered (e ∷ []) = Unit {0}
IsOrdered (e ∷ x ∷ events) = (event_less x e ≡ false) × IsOrdered (x ∷ events)

event_less-asym : (a b : MarketEvent) → event_less a b ≡ true → event_less b a ≡ false
unfolding event_less same_key key_less
event_less-asym a b h = ground arith

insert_event-IsOrdered :
    (e : MarketEvent) (events : List MarketEvent)
    → IsOrdered events
    → IsOrdered (insert_event e events)
unfolding insert_event
insert_event-IsOrdered e [] h = tt
insert_event-IsOrdered e (x ∷ []) h = ground (arith, event_less-asym x e)
insert_event-IsOrdered e (x ∷ y ∷ events) h =
    ground
      (arith, insert_event-IsOrdered e (y ∷ events) h.1, event_less-asym x e, event_less-asym y e)

stable_sort-IsOrdered : (events : List MarketEvent) → IsOrdered (stable_sort events)
unfolding stable_sort
stable_sort-IsOrdered [] = tt
stable_sort-IsOrdered (e ∷ events) =
    insert_event-IsOrdered e (stable_sort events) (stable_sort-IsOrdered events)

IsOrdered-KeysRise :
    (events : List MarketEvent)
    → IsOrdered events
    → has_duplicate_key events ≡ false
    → KeysRise events
unfolding has_duplicate_key event_less same_key key_less
IsOrdered-KeysRise [] h d = tt
IsOrdered-KeysRise (e ∷ []) h d = tt
IsOrdered-KeysRise (e ∷ x ∷ events) h d =
    (ground arith, IsOrdered-KeysRise (x ∷ events) h.1 (ground arith))

insert_event-Perm :
    (e : MarketEvent) (events : List MarketEvent) → Perm (e ∷ events) (insert_event e events)
unfolding insert_event
insert_event-Perm e [] = Perm.refl (e ∷ [])
insert_event-Perm e (x ∷ events) = elim (Bool-cases (event_less x e)) [
  | inl less ↦
      rw (less) (Perm.trans (Perm.swap x e events) (Perm.cons x (insert_event-Perm e events)))
  | inr not_less ↦ rw (not_less) (Perm.refl (e ∷ x ∷ events))
]

stable_sort-Perm : (events : List MarketEvent) → Perm events (stable_sort events)
unfolding stable_sort
stable_sort-Perm [] = Perm.refl []
stable_sort-Perm (e ∷ events) =
    Perm.trans (Perm.cons e (stable_sort-Perm events)) (insert_event-Perm e (stable_sort events))

insert_event-length :
    (e : MarketEvent) (events : List MarketEvent)
    → length (insert_event e events) ≡ suc (length events)
unfolding insert_event
insert_event-length e [] = refl
insert_event-length e (x ∷ events) = ground (arith, insert_event-length e events)

stable_sort-length : (events : List MarketEvent) → length (stable_sort events) ≡ length events
unfolding stable_sort
stable_sort-length [] = refl
stable_sort-length (e ∷ events) =
    insert_event-length e (stable_sort events) ∙ ap suc (stable_sort-length events)

pub merge_events-length :
    (book_updates trades events : List MarketEvent)
    → merge_events book_updates trades ≡ ok events
    → length events ≡ length (book_updates ++ trades)
unfolding merge_events
merge_events-length book_updates trades events h =
    let same : stable_sort (book_updates ++ trades) ≡ events = ground arith in
    ap length (sym same) ∙ stable_sort-length (book_updates ++ trades)

-- A merged history.
pub record IsMerged (book_updates trades events : List MarketEvent) : Type 0 where
  pub same_events : Perm (book_updates ++ trades) events
  pub keys_rise : KeysRise events
  pub ascends : Ascends market_time 0 events

-- Where the two feeds are merged, the history holds exactly their events, and each event has a key
-- that is less than the next one's, so that the timestamps do not fall either.
pub merge_events-IsMerged :
    (book_updates trades events : List MarketEvent)
    → merge_events book_updates trades ≡ ok events
    → IsMerged book_updates trades events
unfolding merge_events
merge_events-IsMerged book_updates trades events h =
    let sorted = stable_sort (book_updates ++ trades) in
    let (distinct, same) : (has_duplicate_key sorted ≡ false) × (sorted ≡ events) = ground arith in
    subst (IsMerged book_updates trades) same (record {
      same_events = stable_sort-Perm (book_updates ++ trades);
      keys_rise =
          IsOrdered-KeysRise sorted (stable_sort-IsOrdered (book_updates ++ trades)) distinct;
      ascends = stable_sort-Ascends (book_updates ++ trades);
    })
