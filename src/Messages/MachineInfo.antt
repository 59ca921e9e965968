-- ===== src/Messages/MachineInfo.antt =====
-- `machine::MachineInfo` of machine.pb.cc: the message that a client sends.
pub mod Laws
pub mod RoundTrip
use client_server_db.Prelude.{
  ℕ, List, [], ◌++◌, ◌+◌, ◌/◌, ◌%◌, Bool, Option, some, if◌then◌else◌, ltb, leb, ◌==◌, ◌^◌, ◌-◌,
  true, false,
}
use client_server_db.Floats.{Floats}
use client_server_db.Wire.{Bytes, Merged, Runtime}
use client_server_db.Wire.Loop.{Parsed, success, failure, stuck, parse, merged}
use client_server_db.Messages.{
  store, keep_unknown, mutable, merge_option, unknowns_field, unknowns_field_size, message_field,
  message_field_size,
}
use client_server_db.Messages.Machine
use client_server_db.Messages.Machine.{Machine}

pub record MachineInfo {floats : Floats} (rt : Runtime floats) : Type 0 where
  pub machine : Option (Machine rt)
  pub unknown : Bytes

module _ {floats : Floats} (rt : Runtime floats) where
  abbrev pub new_machine_info : MachineInfo rt
  new_machine_info = record { machine = Option.none; unknown = [] }

  -- `Clear`
  unfoldable pub clear : MachineInfo rt → MachineInfo rt
  clear m = record m { machine = Option.none; unknown = [] }

  -- `MergeFrom`
  unfoldable pub merge_from : MachineInfo rt → MachineInfo rt → MachineInfo rt
  merge_from m from = record {
    machine = merge_option (Machine.merge_from rt) (Machine.new_machine rt) m.machine from.machine;
    unknown = m.unknown ++ from.unknown;
  }

  -- `CopyFrom`; the flag is the test that the two are one object.
  unfoldable pub copy_from : Bool → MachineInfo rt → MachineInfo rt → MachineInfo rt
  unfolding clear merge_from
  copy_from same m from = if same then m else merge_from (clear m) from

  -- `handle_unusual` at a tag that is not 0.
  abbrev unusual : ℕ → Bytes → MachineInfo rt → Option (MachineInfo rt × Bytes)
  unusual t bs m = keep_unknown (λ u. record m { unknown = u }) (rt.skip_field t bs m.unknown)

  abbrev pub merge_machine : Bytes → Machine rt → Merged (Machine rt)
  merge_machine bs x = merged (Machine.merge_partial rt bs x)

  -- The switch of `MergePartialFromCodedStream`; a tag above the cutoff goes past it.
  unfoldable pub switch : ℕ → Bytes → MachineInfo rt → Option (MachineInfo rt × Bytes)
  switch t bs m =
      if ltb 127 t
      then unusual t bs m
      else if t / 8 == 1
      then (if t % 256 == 10
          then store (λ v. record m { machine = some v })
              (rt.read_message (Machine rt) merge_machine bs
                (mutable (Machine.new_machine rt) m.machine))
          else unusual t bs m)
      else unusual t bs m

  -- `MergePartialFromCodedStream`
  unfoldable pub merge_partial : Bytes → MachineInfo rt → Parsed (MachineInfo rt)
  merge_partial = parse rt switch

  -- `InternalSerializeWithCachedSizesToArray`
  unfoldable pub serialize : MachineInfo rt → Bytes
  serialize m =
      message_field rt (Machine.byte_size rt) (Machine.serialize rt) 1 m.machine
      ++ unknowns_field rt m.unknown

  -- `ByteSizeLong`
  unfoldable pub byte_size : MachineInfo rt → ℕ
  byte_size m =
      unknowns_field_size rt m.unknown + message_field_size rt (Machine.byte_size rt) m.machine

  -- `SerializeToString` of the runtime, on this message: false where the size is above the largest
  -- int, and else the bytes that the serializer writes.
  unfoldable pub serialize_to_string : MachineInfo rt → Option Bytes
  serialize_to_string m = if ltb (byte_size m) (2 ^ 31) then some (serialize m) else Option.none

  -- `ParseFromString` of the runtime, on this message: it clears the message, and answers true
  -- where the parser does and the input is used up.
  unfoldable pub parse_from_string : Bytes → MachineInfo rt → Option (MachineInfo rt)
  unfolding clear
  parse_from_string bs m = elim (merge_partial bs (clear m)) [
    | success m' consumed ↦ if consumed then some m' else Option.none
    | failure ↦ Option.none
    | stuck ↦ Option.none
  ]
