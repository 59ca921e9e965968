-- ===== src/Messages/MachineInfo/Laws.antt =====
-- What the serializer of `MachineInfo` writes: its length, and what the parser makes of it.
use client_server_db.Prelude.{
  ℕ, [], ◌++◌, ◌≡◌, ◌≢◌, refl, sym, ◌∙◌, ap, true, arith, length, length-append, append-nil,
}
use client_server_db.Floats.{Floats}
use client_server_db.Wire.{Bytes, Runtime}
use client_server_db.Wire.Laws.{Laws}
use client_server_db.Wire.Loop.{success, stuck, parse_end, parse-ne-stuck, Takes}
use client_server_db.Messages.Fields.{length-unknowns_field, unknowns_field-nil}
use client_server_db.Messages.Submessage.{OnSome, IsCarried, parse-submessage, length-message_field}
use client_server_db.Messages.Within.{Within, within_rules}
use client_server_db.Messages.Memory
use client_server_db.Messages.Memory.Laws as MemoryLaws
use client_server_db.Messages.Cpu
use client_server_db.Messages.Cpu.Laws as CpuLaws
use client_server_db.Messages.Process
use client_server_db.Messages.Process.Laws as ProcessLaws
use client_server_db.Messages.SystemInfo
use client_server_db.Messages.SystemInfo.Laws as SystemInfoLaws
use client_server_db.Messages.Machine
use client_server_db.Messages.Machine.Laws as MachineLaws
use client_server_db.Messages.Machine.{Machine}
use client_server_db.Messages.MachineInfo.{
  MachineInfo, merge_from, switch, merge_partial, serialize, byte_size, merge_machine,
}

module _ {floats : Floats} (rt : Runtime floats) (laws : Laws rt) where
  -- Each submessage that is there is one that its parser takes back, and there is no unknown field.
  pub record IsEncodable (m : MachineInfo rt) : Type 0 where
    pub machine :
        OnSome
          (IsCarried rt laws
            (merge_machine rt)
            (Machine.byte_size rt)
            (Machine.serialize rt)
            (Machine.merge_from rt)
            (Machine.new_machine rt))
          m.machine
    pub known : m.unknown ≡ []

  switch-Within : (t : ℕ) (bs : Bytes) (m : MachineInfo rt) → Within bs (switch rt t bs m)
  unfolding switch
  switch-Within t bs m = search within_rules depth 14

  switch-Takes : Takes rt (switch rt)
  switch-Takes t bs m m' rest h = (switch-Within t bs m).at m' rest h

  ends : (bs : Bytes) (m : MachineInfo rt) → merge_partial rt bs m ≢ stuck
  unfolding merge_partial
  ends = parse-ne-stuck rt (switch rt) laws switch-Takes

  -- On every input, the parser of a report and those of the messages inside it, of a machine, its
  -- memory, its processors, its processes and its system, end: each succeeds or fails, and the fuel
  -- of its loop does not run out. It asks for the documented laws of the runtime.
  pub merge_partial-ne-stuck :
      (bs : Bytes)
      → ((m : MachineInfo rt) → merge_partial rt bs m ≢ stuck)
        × ((m : Machine rt) → Machine.merge_partial rt bs m ≢ stuck)
        × ((m : Memory.Memory) → Memory.merge_partial rt bs m ≢ stuck)
        × ((m : Cpu.Cpu floats) → Cpu.merge_partial rt bs m ≢ stuck)
        × ((m : Process.Process) → Process.merge_partial rt bs m ≢ stuck)
        × ((m : SystemInfo.SystemInfo) → SystemInfo.merge_partial rt bs m ≢ stuck)
  merge_partial-ne-stuck bs = (
    ends bs,
    MachineLaws.merge_partial-ne-stuck rt laws bs,
    MemoryLaws.merge_partial-ne-stuck rt laws bs,
    CpuLaws.merge_partial-ne-stuck rt laws bs,
    ProcessLaws.merge_partial-ne-stuck rt laws bs,
    SystemInfoLaws.merge_partial-ne-stuck rt laws bs,
  )

  -- Parsing what the serializer wrote for one message into another merges the first into the
  -- second, whatever follows.
  pub merge_partial-serialize :
      (a m : MachineInfo rt) (rest : Bytes)
      → IsEncodable a
      → merge_partial rt (serialize rt a ++ rest) m ≡ merge_partial rt rest (merge_from rt m a)
  unfolding merge_partial serialize merge_from switch
  merge_partial-serialize a m rest h =
      rw (h.known, unknowns_field-nil, append-nil, append-nil)
        (parse-submessage rt laws (merge_machine rt) (Machine.byte_size rt) (Machine.serialize rt)
          (Machine.merge_from rt) (Machine.new_machine rt) (switch rt) switch-Takes 1 a.machine rest
          (λ x. record m { machine = x }) m.machine (omega arith) (omega arith) h.machine
          (λ bs. refl))

  -- The length of what is written is the size that was computed for it.
  pub length-serialize : (m : MachineInfo rt) → length (serialize rt m) ≡ byte_size rt m
  unfolding serialize byte_size
  length-serialize m =
      rw
        (
          length-append,
          length-message_field rt laws (merge_machine rt) (Machine.byte_size rt)
              (Machine.serialize rt) (Machine.merge_from rt) (Machine.new_machine rt) 1 m.machine
              (omega arith) (omega arith) (MachineLaws.length-serialize rt laws),
          length-unknowns_field rt laws,
        )
        (omega arith)

  -- Parsed alone, what the serializer wrote uses the input up.
  pub merge_partial-serialize_end :
      (a m : MachineInfo rt)
      → IsEncodable a
      → merge_partial rt (serialize rt a) m ≡ success (merge_from rt m a) true
  unfolding merge_partial
  merge_partial-serialize_end a m h =
      ap (λ bs. merge_partial rt bs m) (sym (append-nil (serialize rt a)))
      ∙ merge_partial-serialize a m [] h
      ∙ parse_end rt (switch rt) laws switch-Takes (merge_from rt m a)
