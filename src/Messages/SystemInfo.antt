-- ===== src/Messages/SystemInfo.antt =====
-- `machine::Machine_SystemInfo` of machine.pb.cc.
pub mod Laws
use client_server_db.Prelude.{
  ℕ, Text, List, [], ◌∷◌, ◌++◌, ◌+◌, ◌/◌, ◌%◌, Bool, Option, some, if◌then◌else◌, ltb, ◌==◌,
  is_empty,
}
use client_server_db.Prelude.Int.{ℤ, pos, is_zero}
use client_server_db.Floats.{Floats}
use client_server_db.Wire.{Bytes, Runtime}
use client_server_db.Wire.Loop.{Parsed, parse}
use client_server_db.Messages.{
  store, store_string, keep_unknown, int32_field, float_field, string_field, unknowns_field,
  int32_field_size, float_field_size, string_field_size, unknowns_field_size,
}

-- The message's fields, and its unknown fields as they came.
pub record SystemInfo : Type 0 where
  pub system_ip : Text
  pub system_name : Text
  pub unknown : Bytes

-- The constructor: `SharedCtor` sets every field to its default.
abbrev pub new_system_info : SystemInfo
new_system_info = record { system_ip = []; system_name = []; unknown = [] }

-- `Clear`
unfoldable pub clear : SystemInfo → SystemInfo
clear m = record m { system_ip = []; system_name = []; unknown = [] }

-- `MergeFrom`
unfoldable pub merge_from : SystemInfo → SystemInfo → SystemInfo
merge_from m from = record {
  system_ip = if is_empty from.system_ip then m.system_ip else from.system_ip;
  system_name = if is_empty from.system_name then m.system_name else from.system_name;
  unknown = m.unknown ++ from.unknown;
}

-- `CopyFrom`; the flag is the test that the two are one object.
unfoldable pub copy_from : Bool → SystemInfo → SystemInfo → SystemInfo
unfolding clear merge_from
copy_from same m from = if same then m else merge_from (clear m) from

module _ {floats : Floats} (rt : Runtime floats) where
  -- `handle_unusual` at a tag that is not 0.
  abbrev unusual : ℕ → Bytes → SystemInfo → Option (SystemInfo × Bytes)
  unusual t bs m = keep_unknown (λ u. record m { unknown = u }) (rt.skip_field t bs m.unknown)

  -- The switch of `MergePartialFromCodedStream`; a tag above the cutoff goes past it.
  unfoldable pub switch : ℕ → Bytes → SystemInfo → Option (SystemInfo × Bytes)
  switch t bs m =
      if ltb 127 t
      then unusual t bs m
      else if t / 8 == 1
      then (if t % 256 == 10
          then store_string rt (λ v. record m { system_ip = v }) (rt.read_string bs)
          else unusual t bs m)
      else if t / 8 == 2
      then (if t % 256 == 18
          then store_string rt (λ v. record m { system_name = v }) (rt.read_string bs)
          else unusual t bs m)
      else unusual t bs m

  -- `MergePartialFromCodedStream`
  unfoldable pub merge_partial : Bytes → SystemInfo → Parsed SystemInfo
  merge_partial = parse rt switch

  -- `InternalSerializeWithCachedSizesToArray`: what is written at `target`.
  unfoldable pub serialize : SystemInfo → Bytes
  serialize m =
      string_field rt 1 m.system_ip
      ++ (string_field rt 2 m.system_name ++ unknowns_field rt m.unknown)

  -- `ByteSizeLong`, which leaves its result in the message as the cached size too.
  unfoldable pub byte_size : SystemInfo → ℕ
  byte_size m =
      unknowns_field_size rt m.unknown
      + string_field_size rt m.system_ip
      + string_field_size rt m.system_name
