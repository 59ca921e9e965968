-- ===== src/Messages/Within.antt =====
-- What a switch hands on is no longer than what it was given: one rule for each way in which the
-- code of a switch is built.
use client_server_db.Prelude.{
  ℕ, Text, ◌≤◌, ◌≡◌, refl, Bool, true, false, Option, some, arith, length, if◌then◌else◌,
}
use client_server_db.Floats.{Floats}
use client_server_db.Wire.{Bytes, Merged, Runtime}
use client_server_db.Wire.Laws.{Laws}
use client_server_db.Messages.{store, store_string, keep_unknown}

pub record Within {M : Type 0} (bs : Bytes) (o : Option (M × Bytes)) : Type 0 where
  pub at : (m : M) (rest : Bytes) → o ≡ some (m, rest) → length rest ≤ length bs

module _ {M : Type 0} {bs : Bytes} where
  pub if-Within :
      (b : Bool) {x y : Option (M × Bytes)}
      → Within bs x
      → Within bs y
      → Within bs (if b then x else y)
  if-Within true hx hy = hx
  if-Within false hx hy = hy

  pub store-Within :
      {A : Type 0} (set : A → M) (o : Option (A × Bytes)) → Within bs o → Within bs (store set o)
  store-Within set Option.none h = record { at = λ m rest e. cc }
  store-Within set (some (a, r)) h = record { at = λ m rest e. ground (arith, h.at a r refl) }

  pub keep_unknown-Within :
      (set : Bytes → M) (o : Option (Bytes × Bytes))
      → ((rest u : Bytes) → o ≡ some (rest, u) → length rest ≤ length bs)
      → Within bs (keep_unknown set o)
  keep_unknown-Within set Option.none h = record { at = λ m rest e. cc }
  keep_unknown-Within set (some (r, u)) h = record { at = λ m rest e. ground (arith, h r u refl) }

module _ {floats : Floats} (rt : Runtime floats) (laws : Laws rt) (bs : Bytes) where
  pub read_int32-Within : Within bs (rt.read_int32 bs)
  read_int32-Within = record { at = laws.read_int32_takes bs }

  pub read_float-Within : Within bs (rt.read_float bs)
  read_float-Within = record { at = laws.read_float_takes bs }

  pub read_string-Within : Within bs (rt.read_string bs)
  read_string-Within = record { at = laws.read_string_takes bs }

  pub store_string-Within :
      {M : Type 0} (set : Text → M) → Within bs (store_string rt set (rt.read_string bs))
  store_string-Within set = string_step (rt.read_string bs) (laws.read_string_takes bs)
    where
      string_step :
          (o : Option (Text × Bytes))
          → ((s : Text) (rest : Bytes) → o ≡ some (s, rest) → length rest ≤ length bs)
          → Within bs (store_string rt set o)
      string_step Option.none h = record { at = λ m rest e. cc }
      string_step (some (s, r)) h = record { at = λ m rest e. ground (arith, h s r refl) }

  pub read_message-Within :
      (M : Type 0) (merge : Bytes → M → Merged M) (m : M) → Within bs (rt.read_message M merge bs m)
  read_message-Within M merge m = record {
    at = λ m' rest e. laws.read_message_takes M merge bs m m' rest e;
  }

  pub skip_field-Within :
      {M : Type 0} (t : ℕ) (u : Bytes) (set : Bytes → M)
      → Within bs (keep_unknown set (rt.skip_field t bs u))
  skip_field-Within t u set =
      keep_unknown-Within set (rt.skip_field t bs u)
        λ rest u' e. laws.skip_field_takes t bs u rest u' e

pub ruleset within_rules = (
  if-Within, store-Within, store_string-Within, read_int32-Within, read_float-Within,
  read_string-Within, read_message-Within, skip_field-Within,
)
