-- ===== src/Messages/Machine.antt =====
-- `machine::Machine` of machine.pb.cc. A submessage that is a null pointer is none.
pub mod Laws
use client_server_db.Prelude.{
  ℕ, List, [], ◌++◌, ◌+◌, ◌/◌, ◌%◌, Bool, Option, some, if◌then◌else◌, ltb, ◌==◌,
}
use client_server_db.Floats.{Floats}
use client_server_db.Wire.{Bytes, Merged, Runtime}
use client_server_db.Wire.Loop.{Parsed, parse, merged}
use client_server_db.Messages.{
  store, keep_unknown, mutable, merge_option, unknowns_field, unknowns_field_size, message_field,
  message_field_size,
}
use client_server_db.Messages.Memory
use client_server_db.Messages.Memory.{Memory}
use client_server_db.Messages.Cpu
use client_server_db.Messages.Cpu.{Cpu}
use client_server_db.Messages.Process
use client_server_db.Messages.Process.{Process}
use client_server_db.Messages.SystemInfo
use client_server_db.Messages.SystemInfo.{SystemInfo}

pub record Machine {floats : Floats} (rt : Runtime floats) : Type 0 where
  pub last_updated : Option rt.Timestamp
  pub memory : Option Memory
  pub cpu : Option (Cpu floats)
  pub process : Option Process
  pub systeminfo : Option SystemInfo
  pub unknown : Bytes

module _ {floats : Floats} (rt : Runtime floats) where
  -- The constructor: `SharedCtor` sets every pointer to null.
  abbrev pub new_machine : Machine rt
  new_machine = record {
    last_updated = Option.none;
    memory = Option.none;
    cpu = Option.none;
    process = Option.none;
    systeminfo = Option.none;
    unknown = [];
  }

  -- `Clear`
  unfoldable pub clear : Machine rt → Machine rt
  clear m = record m {
    last_updated = Option.none;
    memory = Option.none;
    cpu = Option.none;
    process = Option.none;
    systeminfo = Option.none;
    unknown = [];
  }

  -- `MergeFrom`
  unfoldable pub merge_from : Machine rt → Machine rt → Machine rt
  merge_from m from = record {
    last_updated =
        merge_option rt.merge_from_timestamp rt.new_timestamp m.last_updated from.last_updated;
    memory = merge_option Memory.merge_from Memory.new_memory m.memory from.memory;
    cpu = merge_option (Cpu.merge_from floats) (Cpu.new_cpu floats) m.cpu from.cpu;
    process = merge_option Process.merge_from Process.new_process m.process from.process;
    systeminfo =
        merge_option SystemInfo.merge_from SystemInfo.new_system_info m.systeminfo from.systeminfo;
    unknown = m.unknown ++ from.unknown;
  }

  -- `CopyFrom`; the flag is the test that the two are one object.
  unfoldable pub copy_from : Bool → Machine rt → Machine rt → Machine rt
  unfolding clear merge_from
  copy_from same m from = if same then m else merge_from (clear m) from

  -- `handle_unusual` at a tag that is not 0.
  abbrev unusual : ℕ → Bytes → Machine rt → Option (Machine rt × Bytes)
  unusual t bs m = keep_unknown (λ u. record m { unknown = u }) (rt.skip_field t bs m.unknown)

  -- The parsers of the submessages, as `ReadMessage` sees them.
  abbrev pub merge_memory : Bytes → Memory → Merged Memory
  merge_memory bs x = merged (Memory.merge_partial rt bs x)

  abbrev pub merge_cpu : Bytes → Cpu floats → Merged (Cpu floats)
  merge_cpu bs x = merged (Cpu.merge_partial rt bs x)

  abbrev pub merge_process : Bytes → Process → Merged Process
  merge_process bs x = merged (Process.merge_partial rt bs x)

  abbrev pub merge_systeminfo : Bytes → SystemInfo → Merged SystemInfo
  merge_systeminfo bs x = merged (SystemInfo.merge_partial rt bs x)

  -- The switch of `MergePartialFromCodedStream`; a tag above the cutoff goes past it.
  unfoldable pub switch : ℕ → Bytes → Machine rt → Option (Machine rt × Bytes)
  switch t bs m =
      if ltb 127 t
      then unusual t bs m
      else if t / 8 == 5
      then (if t % 256 == 42
          then store (λ v. record m { last_updated = some v })
              (rt.read_message rt.Timestamp rt.merge_timestamp bs
                (mutable rt.new_timestamp m.last_updated))
          else unusual t bs m)
      else if t / 8 == 6
      then (if t % 256 == 50
          then store (λ v. record m { memory = some v })
              (rt.read_message Memory merge_memory bs (mutable Memory.new_memory m.memory))
          else unusual t bs m)
      else if t / 8 == 7
      then (if t % 256 == 58
          then store (λ v. record m { cpu = some v })
              (rt.read_message (Cpu floats) merge_cpu bs (mutable (Cpu.new_cpu floats) m.cpu))
          else unusual t bs m)
      else if t / 8 == 8
      then (if t % 256 == 66
          then store (λ v. record m { process = some v })
              (rt.read_message Process merge_process bs (mutable Process.new_process m.process))
          else unusual t bs m)
      else if t / 8 == 9
      then (if t % 256 == 74
          then store (λ v. record m { systeminfo = some v })
              (rt.read_message SystemInfo merge_systeminfo bs
                (mutable SystemInfo.new_system_info m.systeminfo))
          else unusual t bs m)
      else unusual t bs m

  -- `MergePartialFromCodedStream`
  unfoldable pub merge_partial : Bytes → Machine rt → Parsed (Machine rt)
  merge_partial = parse rt switch

  -- `InternalSerializeWithCachedSizesToArray`
  unfoldable pub serialize : Machine rt → Bytes
  serialize m =
      message_field rt rt.timestamp_size rt.serialize_timestamp 5 m.last_updated
      ++ (message_field rt (Memory.byte_size rt) (Memory.serialize rt) 6 m.memory
          ++ (message_field rt (Cpu.byte_size rt) (Cpu.serialize rt) 7 m.cpu
              ++ (message_field rt (Process.byte_size rt) (Process.serialize rt) 8 m.process
                  ++ (message_field rt (SystemInfo.byte_size rt) (SystemInfo.serialize rt) 9
                        m.systeminfo
                      ++ unknowns_field rt m.unknown))))

  -- `ByteSizeLong`
  unfoldable pub byte_size : Machine rt → ℕ
  byte_size m =
      unknowns_field_size rt m.unknown
      + message_field_size rt rt.timestamp_size m.last_updated
      + message_field_size rt (Memory.byte_size rt) m.memory
      + message_field_size rt (Cpu.byte_size rt) m.cpu
      + message_field_size rt (Process.byte_size rt) m.process
      + message_field_size rt (SystemInfo.byte_size rt) m.systeminfo
