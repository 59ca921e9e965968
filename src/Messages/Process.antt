-- ===== src/Messages/Process.antt =====
-- `machine::Machine_Process` of machine.pb.cc.
pub mod Laws
use client_server_db.Prelude.{
  ℕ, Text, List, [], ◌∷◌, ◌++◌, ◌+◌, ◌/◌, ◌%◌, Bool, Option, some, if◌then◌else◌, ltb, ◌==◌,
  is_empty,
}
use client_server_db.Prelude.Int.{ℤ, pos, is_zero}
use client_server_db.Floats.{Floats}
use client_server_db.Wire.{Bytes, Runtime}
use client_server_db.Wire.Loop.{Parsed, parse}
use client_server_db.Messages.{
  store, store_string, keep_unknown, int32_field, float_field, string_field, unknowns_field,
  int32_field_size, float_field_size, string_field_size, unknowns_field_size,
}

-- The message's fields, and its unknown fields as they came.
pub record Process : Type 0 where
  pub total : ℤ
  pub running : ℤ
  pub blocked : ℤ
  pub unknown : Bytes

-- The constructor: `SharedCtor` sets every field to its default.
abbrev pub new_process : Process
new_process = record { total = pos 0; running = pos 0; blocked = pos 0; unknown = [] }

-- `Clear`
unfoldable pub clear : Process → Process
clear m = record m { total = pos 0; running = pos 0; blocked = pos 0; unknown = [] }

-- `MergeFrom`
unfoldable pub merge_from : Process → Process → Process
merge_from m from = record {
  total = if is_zero from.total then m.total else from.total;
  running = if is_zero from.running then m.running else from.running;
  blocked = if is_zero from.blocked then m.blocked else from.blocked;
  unknown = m.unknown ++ from.unknown;
}

-- `CopyFrom`; the flag is the test that the two are one object.
unfoldable pub copy_from : Bool → Process → Process → Process
unfolding clear merge_from
copy_from same m from = if same then m else merge_from (clear m) from

module _ {floats : Floats} (rt : Runtime floats) where
  -- `handle_unusual` at a tag that is not 0.
  abbrev unusual : ℕ → Bytes → Process → Option (Process × Bytes)
  unusual t bs m = keep_unknown (λ u. record m { unknown = u }) (rt.skip_field t bs m.unknown)

  -- The switch of `MergePartialFromCodedStream`; a tag above the cutoff goes past it.
  unfoldable pub switch : ℕ → Bytes → Process → Option (Process × Bytes)
  switch t bs m =
      if ltb 127 t
      then unusual t bs m
      else if t / 8 == 1
      then (if t % 256 == 8
          then store (λ v. record m { total = v }) (rt.read_int32 bs)
          else unusual t bs m)
      else if t / 8 == 2
      then (if t % 256 == 16
          then store (λ v. record m { running = v }) (rt.read_int32 bs)
          else unusual t bs m)
      else if t / 8 == 3
      then (if t % 256 == 24
          then store (λ v. record m { blocked = v }) (rt.read_int32 bs)
          else unusual t bs m)
      else unusual t bs m

  -- `MergePartialFromCodedStream`
  unfoldable pub merge_partial : Bytes → Process → Parsed Process
  merge_partial = parse rt switch

  -- `InternalSerializeWithCachedSizesToArray`: what is written at `target`.
  unfoldable pub serialize : Process → Bytes
  serialize m =
      int32_field rt 1 m.total
      ++ (int32_field rt 2 m.running ++ (int32_field rt 3 m.blocked ++ unknowns_field rt m.unknown))

  -- `ByteSizeLong`, which leaves its result in the message as the cached size too.
  unfoldable pub byte_size : Process → ℕ
  byte_size m =
      unknowns_field_size rt m.unknown
      + int32_field_size rt m.total
      + int32_field_size rt m.running
      + int32_field_size rt m.blocked
