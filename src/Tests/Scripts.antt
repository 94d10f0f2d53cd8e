-- ===== src/Tests/Scripts.antt =====
-- Tests of the scripted intents of a configuration, and of the text of a hash.
use mathlib.Core.List.{Perm}
use cpp_market_replay_engine.Base.{
  pos, scripted_market_priced, err, ok, ◌≡◌, refl, none, some, List, [], ◌∷◌, arith,
}
use cpp_market_replay_engine.Replay.Config.{ScriptedIntentConfig}
use cpp_market_replay_engine.Replay.Script.RoundTrip.{
  parse_scripted_intents-canonical, InOrder, parse_scripted_intents-InOrder,
}
use cpp_market_replay_engine.Replay.Hash.{hex_digits, hex64, hash_text}
use cpp_market_replay_engine.Replay.Hash.Hex.{Hashed, hash_text-Hashed}
use cpp_market_replay_engine.Replay.Script.{
  pieces_of, split, parse_uint64, parse_int64, canonical_scripted_intents, parse_limit_price,
  check_limit_price, parse_scripted_fields, parse_scripted_intent, parse_entries, insert_intent,
  sort_intents, parse_scripted_intents,
}
use cpp_market_replay_engine.Types.{
  Side, OrderType, same_key, key_less, validate_price_ticks, validate_quantity,
}
use cpp_market_replay_engine.Base.Fnv.{fnv1a64_from, fnv1a64}
use cpp_market_replay_engine.Base.Text.{codes, digits}
use cpp_market_replay_engine.Feed.Lines.{trim_front, trim_back, trim}
use cpp_market_replay_engine.Types.Names.{parse_side, parse_order_type, scan_digits, read_digits}

abbrev buy_at_market : ScriptedIntentConfig
buy_at_market = record {
  trigger_key = record { timestamp_ns = 10; sequence_id = 0 };
  side = Side.buy;
  order_type = OrderType.market;
  quantity = pos 5;
  limit_price_ticks = none;
}

abbrev sell_at_limit : ScriptedIntentConfig
sell_at_limit = record {
  trigger_key = record { timestamp_ns = 10; sequence_id = 7 };
  side = Side.sell;
  order_type = OrderType.limit;
  quantity = pos 12;
  limit_price_ticks = some (pos 103);
}

abbrev script : List ScriptedIntentConfig
script = buy_at_market ∷ sell_at_limit ∷ []

script_text : canonical_scripted_intents script ≡ codes "10:0:buy:market:5:;10:7:sell:limit:12:103;"
unfolding canonical_scripted_intents digits
script_text = refl

-- Entries in another order, with spaces and without a last delimiter.
script_sorted :
    parse_scripted_intents (codes " 10:7: S :limit:12:103 ; 10:0:buy:market:5:") ≡ ok script
unfolding parse_scripted_intents parse_entries parse_scripted_intent parse_scripted_fields
    parse_limit_price check_limit_price parse_int64 parse_uint64 split pieces_of trim trim_front
    trim_back read_digits scan_digits parse_side parse_order_type validate_quantity
    validate_price_ticks sort_intents insert_intent same_key key_less
script_sorted = refl

script_refused : parse_scripted_intents (codes "10:0:buy:market:5:100") ≡ err scripted_market_priced
unfolding parse_scripted_intents parse_entries parse_scripted_intent parse_scripted_fields
    parse_limit_price check_limit_price parse_int64 parse_uint64 split pieces_of trim trim_front
    trim_back read_digits scan_digits parse_side parse_order_type validate_quantity
    validate_price_ticks sort_intents insert_intent same_key key_less
script_refused = refl

parse_scripted_intents-canonical_example :
    parse_scripted_intents (canonical_scripted_intents script) ≡ ok script
unfolding same_key key_less
parse_scripted_intents-canonical_example =
    parse_scripted_intents-canonical script (omega arith) (refl, tt)

hash_text-Hashed_example : Hashed (codes "a")
hash_text-Hashed_example = hash_text-Hashed (codes "a")

-- A published value of the hash.
hash_of_a : hash_text (codes "a") ≡ codes "af63dc4c8601ec8c"
unfolding hash_text hex64 hex_digits fnv1a64 fnv1a64_from
hash_of_a = refl

-- The same script, the other way round.
parse_scripted_intents-InOrder_example :
    (parsed : List ScriptedIntentConfig) × (parse_scripted_intents
        (canonical_scripted_intents (sell_at_limit ∷ buy_at_market ∷ []))
      ≡ ok parsed)
    × Perm (sell_at_limit ∷ buy_at_market ∷ []) parsed
    × InOrder parsed
parse_scripted_intents-InOrder_example =
    parse_scripted_intents-InOrder (sell_at_limit ∷ buy_at_market ∷ []) (omega arith)
