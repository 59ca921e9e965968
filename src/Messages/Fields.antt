-- ===== src/Messages/Fields.antt =====
-- One field of a message: what a parser makes of what the serializer wrote, and how long it is.
use client_server_db.Prelude.{
  ℕ, Text, [], ◌∷◌, ◌++◌, ◌+◌, ◌*◌, ◌<◌, ◌≡◌, refl, sym, true, Option, some, arith, length,
  is_empty, if◌then◌else◌, Bool-cases, inl, inr, not, ◌&&◌,
}
use client_server_db.Prelude.Int.{ℤ, pos, is_zero, eqb_ℤ_iff}
use client_server_db.Floats.{Floats}
use client_server_db.Wire.{Bytes, Runtime}
use client_server_db.Wire.Laws.{Laws}
use client_server_db.Messages.{
  int32_field, float_field, string_field, unknowns_field, int32_field_size, float_field_size,
  string_field_size, unknowns_field_size,
}
use client_server_db.Wire.Loop.{parse, parse_field, Takes}

module _ {floats : Floats} (rt : Runtime floats) (laws : Laws rt) {M : Type 0}
    (field : ℕ → Bytes → M → Option (M × Bytes)) (takes : Takes rt field) where
  pub parse-int32_field :
      (n : ℕ) (v : ℤ) (rest : Bytes) (set : ℤ → M) (old : ℤ)
      → 0 < n
      → n < 16
      → field (n * 8) (laws.int32_body v ++ rest) (set old) ≡ some (set v, rest)
      → parse rt field (int32_field rt n v ++ rest) (set old)
        ≡ parse rt field rest (set (if is_zero v then old else v))
  unfolding int32_field
  parse-int32_field n v rest set old h k goes = elim (Bool-cases (is_zero v)) [
    | inl z ↦ rw z
    | inr z ↦ rw z (
        parse_field rt field laws takes _ _ rest (n * 8) (set old) (set v) (omega arith)
          (laws.tag_int32 n v rest h k) goes)
  ]

  pub parse-float_field :
      (n : ℕ) (x : floats.Float) (rest : Bytes) (set : floats.Float → M) (old : floats.Float)
      → 0 < n
      → n < 16
      → field (n * 8 + 5) (laws.float_body x ++ rest) (set old) ≡ some (set x, rest)
      → parse rt field (float_field rt n x ++ rest) (set old)
        ≡ parse rt field rest (set (if floats.is_zero x then old else x))
  unfolding float_field
  parse-float_field n x rest set old h k goes = elim (Bool-cases (floats.is_zero x)) [
    | inl z ↦ rw z
    | inr z ↦ rw z (
        parse_field rt field laws takes _ _ rest (n * 8 + 5) (set old) (set x) (omega arith)
          (laws.tag_float n x rest h k) goes)
  ]

  pub parse-string_field :
      (n : ℕ) (s : Text) (rest : Bytes) (set : Text → M) (old : Text)
      → 0 < n
      → n < 16
      → field (n * 8 + 2) (laws.string_body s ++ rest) (set old) ≡ some (set s, rest)
      → parse rt field (string_field rt n s ++ rest) (set old)
        ≡ parse rt field rest (set (if is_empty s then old else s))
  unfolding string_field
  parse-string_field n s rest set old h k goes = elim (Bool-cases (is_empty s)) [
    | inl z ↦ rw z
    | inr z ↦ rw z (
        parse_field rt field laws takes _ _ rest (n * 8 + 2) (set old) (set s) (omega arith)
          (laws.tag_string n s rest h k) goes)
  ]

  pub parse-message_field :
      (n : ℕ) (payload rest : Bytes) (m m' : M)
      → 0 < n
      → n < 16
      → field (n * 8 + 2) (laws.message_body payload ++ rest) m ≡ some (m', rest)
      → parse rt field (rt.write_message n (length payload) payload ++ rest) m
        ≡ parse rt field rest m'
  parse-message_field n payload rest m m' h k goes =
      parse_field rt field laws takes _ _ rest (n * 8 + 2) m m' (omega arith)
        (laws.tag_message n payload rest h k) goes

module _ {floats : Floats} (rt : Runtime floats) (laws : Laws rt) (n : ℕ) (h : 0 < n)
    (k : n < 16) where
  pub length-int32_field : (v : ℤ) → length (int32_field rt n v) ≡ int32_field_size rt v
  unfolding int32_field int32_field_size
  length-int32_field v = elim (Bool-cases (is_zero v)) [
    | inl z ↦ rw z
    | inr z ↦ rw z (laws.length-write_int32 n v h k)
  ]

  pub length-float_field : (x : floats.Float) → length (float_field rt n x) ≡ float_field_size rt x
  unfolding float_field float_field_size
  length-float_field x = elim (Bool-cases (floats.is_zero x)) [
    | inl z ↦ rw z
    | inr z ↦ rw z (laws.length-write_float n x h k)
  ]

  pub length-string_field : (s : Text) → length (string_field rt n s) ≡ string_field_size rt s
  unfolding string_field string_field_size
  length-string_field s = elim (Bool-cases (is_empty s)) [
    | inl z ↦ rw z
    | inr z ↦ rw z (laws.length-write_string n s h k)
  ]

module _ {floats : Floats} (rt : Runtime floats) (laws : Laws rt) where
  pub length-unknowns_field : (u : Bytes) → length (unknowns_field rt u) ≡ unknowns_field_size rt u
  unfolding unknowns_field unknowns_field_size
  length-unknowns_field u = elim (Bool-cases (not (is_empty u) && rt.preserves_unknowns)) [
    | inl z ↦ rw z (laws.length-write_unknowns u)
    | inr z ↦ rw z
  ]

  -- A message without unknown fields ends with its last field.
  pub unknowns_field-nil : {u : Bytes} → u ≡ [] → unknowns_field rt u ≡ []
  unfolding unknowns_field
  unknowns_field-nil e = rw e

-- A field that is at its default is not written, and the default is what a new message has.
pub default_int32 : (z : ℤ) → (if is_zero z then pos 0 else z) ≡ z
default_int32 z = ground (arith, eqb_ℤ_iff z (pos 0))

pub default_text : (s : Text) → (if is_empty s then [] else s) ≡ s
default_text [] = refl
default_text (c ∷ s) = refl

pub default_float :
    (floats : Floats) (x : floats.Float)
    → (floats.is_zero x ≡ true → x ≡ floats.float_of_int (pos 0))
    → (if floats.is_zero x then floats.float_of_int (pos 0) else x) ≡ x
default_float floats x h = elim (Bool-cases (floats.is_zero x)) [
  | inl z ↦ rw z (sym (h z))
  | inr z ↦ rw z
]
