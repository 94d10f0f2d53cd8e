-- ===== src/Base/Errors.antt =====
-- What a call that may throw returns: a value, or the exception that left it.
use Prim.Native.Nat.{ℕ}
use cpp_market_replay_engine.Base.Text.{Text}
use mathlib.Core.Path.{◌≡◌, refl}
use mathlib.Core.Bool.{Bool, true, false}
use mathlib.Core.Logic.{◌⊎◌, inl, inr}

-- One constructor for each `throw` of the modelled code.
pub data Error : Type 0 where
  negative_price negative_quantity negative_latency latency_too_large : Error
  clock_backward schedule_in_past scheduler_empty market_exhausted : Error
  zero_order_id zero_quantity missing_limit_price : Error
  invalid_transition fill_exceeds_remaining : Error
  invalid_fee_rate fee_calculation_overflow fee_overflow arrival_overflow : Error
  not_market_order not_executable : Error
  invalid_queue_fraction queue_ahead_overflow : Error
  not_order_arrival not_cancel_arrival unknown_order not_pending arrival_mismatch : Error
  not_limit_order not_resting not_active : Error
  negative_fee duplicate_fill accounting_overflow inventory_overflow : Error
  mid_overflow nonzero_inventory : Error
  duplicate_event_key : Error
  imbalance_volume_overflow imbalance_total_overflow : Error
  nonpositive_order_quantity thresholds_swapped : Error
  empty_book_updates_path empty_trades_path empty_output_directory : Error
  unknown_strategy_type missing_strategy_limit_price missing_scripted_intents : Error
  -- src/types.cpp, with the name of the field
  empty_text no_digits signed_text explicit_sign not_plain_decimal too_large : Text → Error
  too_many_places not_an_integer : Text → Error
  nonpositive_tick_size scale_too_large not_multiple_of_tick price_ticks_out_of_range : Error
  invalid_side invalid_order_type invalid_order_status : Error
  -- src/replay_engine.cpp, where it parses a configuration, with the name of the field, the line
  -- or the key
  integer_required integer_out_of_bounds integer_malformed : Text → Error
  scripted_fields scripted_limit_unpriced scripted_market_priced : Error
  scripted_quantity_not_positive : Error
  missing_equals empty_key : ℕ → Error
  duplicate_config_key missing_config_key malformed_bool malformed_double : Text → Error
  unknown_price_format queue_fraction_out_of_range : Error
  market_entry_kind internal_entry_kind : Error
  -- the reasons of src/market_feed.cpp, and `ParseError` with source, line, field, value and reason:
  -- one of these or, where an exception was caught, that exception
  field_required unexpected_sign integer_out_of_range not_unsigned : Error
  column_count : ℕ → ℕ → Error
  duplicate_key_in_source out_of_order_key : Error
  parse_error : Text → ℕ → Text → Text → Error → Error

-- `err` carries the exception.
pub data Result {ℓ} (V : Type ℓ) : Type ℓ where
  err : Error → Result V
  ok : V → Result V

-- `if (test) throw e;`
abbrev pub throw_if : Bool → Error → Result (Unit {0})
throw_if false e = ok tt
throw_if true e = err e

module _ {ℓ κ} {V : Type ℓ} {W : Type κ} where
  infixl 5 ◌>>=◌
  -- A call, and what follows where it did not throw.
  abbrev pub ◌>>=◌ : Result V → (V → Result W) → Result W
  err e >>= next = err e
  ok v >>= next = next v

  pub >>=-eq-ok :
      (call : Result V) (next : V → Result W) {w : W}
      → (call >>= next) ≡ ok w
      → (v : V) × (call ≡ ok v) × (next v ≡ ok w)
  >>=-eq-ok (err e) next h = cc
  >>=-eq-ok (ok v) next h = (v, refl, h)

  pub >>=-eq-err :
      (call : Result V) (next : V → Result W) {e : Error}
      → (call >>= next) ≡ err e
      → (call ≡ err e) ⊎ ((v : V) × (call ≡ ok v) × (next v ≡ err e))
  >>=-eq-err (err e) next h = inl cc
  >>=-eq-err (ok v) next h = inr (v, refl, h)

infixl 5 ◌>>◌
abbrev pub ◌>>◌ {κ} : {W : Type κ} → Result (Unit {0}) → Result W → Result W
check >> rest = check >>= λ _. rest

pub Result-cases {ℓ} :
    {A : Type ℓ} (r : Result A) → ((a : A) × (r ≡ ok a)) ⊎ ((e : Error) × (r ≡ err e))
Result-cases (ok a) = inl (a, refl)
Result-cases (err e) = inr (e, refl)

pub ok_eq {ℓ} : {A : Type ℓ} (a b : A) → ok a ≡ ok b → a ≡ b
ok_eq a b e = cc
