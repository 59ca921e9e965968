-- ===== src/Messages/Memory.antt =====
-- `machine::Machine_Memory` of machine.pb.cc.
pub mod Laws
use client_server_db.Prelude.{
  ℕ, Text, List, [], ◌∷◌, ◌++◌, ◌+◌, ◌/◌, ◌%◌, Bool, Option, some, if◌then◌else◌, ltb, ◌==◌,
  is_empty,
}
use client_server_db.Prelude.Int.{ℤ, pos, is_zero}
use client_server_db.Floats.{Floats}
use client_server_db.Wire.{Bytes, Runtime}
use client_server_db.Wire.Loop.{Parsed, parse}
use client_server_db.Messages.{
  store, store_string, keep_unknown, int32_field, float_field, string_field, unknowns_field,
  int32_field_size, float_field_size, string_field_size, unknowns_field_size,
}

-- The message's fields, and its unknown fields as they came.
pub record Memory : Type 0 where
  pub mem_total : ℤ
  pub mem_available : ℤ
  pub mem_free : ℤ
  pub unknown : Bytes

-- The constructor: `SharedCtor` sets every field to its default.
abbrev pub new_memory : Memory
new_memory = record { mem_total = pos 0; mem_available = pos 0; mem_free = pos 0; unknown = [] }

-- `Clear`
unfoldable pub clear : Memory → Memory
clear m = record m { mem_total = pos 0; mem_available = pos 0; mem_free = pos 0; unknown = [] }

-- `MergeFrom`
unfoldable pub merge_from : Memory → Memory → Memory
merge_from m from = record {
  mem_total = if is_zero from.mem_total then m.mem_total else from.mem_total;
  mem_available = if is_zero from.mem_available then m.mem_available else from.mem_available;
  mem_free = if is_zero from.mem_free then m.mem_free else from.mem_free;
  unknown = m.unknown ++ from.unknown;
}

-- `CopyFrom`; the flag is the test that the two are one object.
unfoldable pub copy_from : Bool → Memory → Memory → Memory
unfolding clear merge_from
copy_from same m from = if same then m else merge_from (clear m) from

module _ {floats : Floats} (rt : Runtime floats) where
  -- `handle_unusual` at a tag that is not 0.
  abbrev unusual : ℕ → Bytes → Memory → Option (Memory × Bytes)
  unusual t bs m = keep_unknown (λ u. record m { unknown = u }) (rt.skip_field t bs m.unknown)

  -- The switch of `MergePartialFromCodedStream`; a tag above the cutoff goes past it.
  unfoldable pub switch : ℕ → Bytes → Memory → Option (Memory × Bytes)
  switch t bs m =
      if ltb 127 t
      then unusual t bs m
      else if t / 8 == 1
      then (if t % 256 == 8
          then store (λ v. record m { mem_total = v }) (rt.read_int32 bs)
          else unusual t bs m)
      else if t / 8 == 2
      then (if t % 256 == 16
          then store (λ v. record m { mem_available = v }) (rt.read_int32 bs)
          else unusual t bs m)
      else if t / 8 == 3
      then (if t % 256 == 24
          then store (λ v. record m { mem_free = v }) (rt.read_int32 bs)
          else unusual t bs m)
      else unusual t bs m

  -- `MergePartialFromCodedStream`
  unfoldable pub merge_partial : Bytes → Memory → Parsed Memory
  merge_partial = parse rt switch

  -- `InternalSerializeWithCachedSizesToArray`: what is written at `target`.
  unfoldable pub serialize : Memory → Bytes
  serialize m =
      int32_field rt 1 m.mem_total
      ++ (int32_field rt 2 m.mem_available
          ++ (int32_field rt 3 m.mem_free ++ unknowns_field rt m.unknown))

  -- `ByteSizeLong`, which leaves its result in the message as the cached size too.
  unfoldable pub byte_size : Memory → ℕ
  byte_size m =
      unknowns_field_size rt m.unknown
      + int32_field_size rt m.mem_total
      + int32_field_size rt m.mem_available
      + int32_field_size rt m.mem_free
