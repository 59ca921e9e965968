-- ===== src/Messages/Cpu.antt =====
-- `machine::Machine_CPU` of machine.pb.cc.
pub mod Laws
use client_server_db.Prelude.{
  ℕ, Text, List, [], ◌∷◌, ◌++◌, ◌+◌, ◌/◌, ◌%◌, Bool, Option, some, if◌then◌else◌, ltb, ◌==◌,
  is_empty,
}
use client_server_db.Prelude.Int.{ℤ, pos, is_zero}
use client_server_db.Floats.{Floats}
use client_server_db.Wire.{Bytes, Runtime}
use client_server_db.Wire.Loop.{Parsed, parse}
use client_server_db.Messages.{
  store, store_string, keep_unknown, int32_field, float_field, string_field, unknowns_field,
  int32_field_size, float_field_size, string_field_size, unknowns_field_size,
}

-- The message's fields, and its unknown fields as they came.
pub record Cpu (floats : Floats) : Type 0 where
  pub idle_time : floats.Float
  pub use_time : floats.Float
  pub unknown : Bytes

module _ (floats : Floats) where
  -- The constructor: `SharedCtor` sets every field to its default.
  abbrev pub new_cpu : Cpu floats
  new_cpu = record {
    idle_time = floats.float_of_int (pos 0);
    use_time = floats.float_of_int (pos 0);
    unknown = [];
  }

  -- `Clear`
  unfoldable pub clear : Cpu floats → Cpu floats
  clear m = record m {
    idle_time = floats.float_of_int (pos 0);
    use_time = floats.float_of_int (pos 0);
    unknown = [];
  }

  -- `MergeFrom`
  unfoldable pub merge_from : Cpu floats → Cpu floats → Cpu floats
  merge_from m from = record {
    idle_time = if floats.is_zero from.idle_time then m.idle_time else from.idle_time;
    use_time = if floats.is_zero from.use_time then m.use_time else from.use_time;
    unknown = m.unknown ++ from.unknown;
  }

  -- `CopyFrom`; the flag is the test that the two are one object.
  unfoldable pub copy_from : Bool → Cpu floats → Cpu floats → Cpu floats
  unfolding clear merge_from
  copy_from same m from = if same then m else merge_from (clear m) from

module _ {floats : Floats} (rt : Runtime floats) where
  -- `handle_unusual` at a tag that is not 0.
  abbrev unusual : ℕ → Bytes → Cpu floats → Option (Cpu floats × Bytes)
  unusual t bs m = keep_unknown (λ u. record m { unknown = u }) (rt.skip_field t bs m.unknown)

  -- The switch of `MergePartialFromCodedStream`; a tag above the cutoff goes past it.
  unfoldable pub switch : ℕ → Bytes → Cpu floats → Option (Cpu floats × Bytes)
  switch t bs m =
      if ltb 127 t
      then unusual t bs m
      else if t / 8 == 1
      then (if t % 256 == 13
          then store (λ v. record m { idle_time = v }) (rt.read_float bs)
          else unusual t bs m)
      else if t / 8 == 2
      then (if t % 256 == 21
          then store (λ v. record m { use_time = v }) (rt.read_float bs)
          else unusual t bs m)
      else unusual t bs m

  -- `MergePartialFromCodedStream`
  unfoldable pub merge_partial : Bytes → Cpu floats → Parsed (Cpu floats)
  merge_partial = parse rt switch

  -- `InternalSerializeWithCachedSizesToArray`: what is written at `target`.
  unfoldable pub serialize : Cpu floats → Bytes
  serialize m =
      float_field rt 1 m.idle_time ++ (float_field rt 2 m.use_time ++ unknowns_field rt m.unknown)

  -- `ByteSizeLong`, which leaves its result in the message as the cached size too.
  unfoldable pub byte_size : Cpu floats → ℕ
  byte_size m =
      unknowns_field_size rt m.unknown
      + float_field_size rt m.idle_time
      + float_field_size rt m.use_time
