-- ===== src/Messages/Machine/Laws.antt =====
-- What the serializer of `Machine` writes: its length, and what the parser makes of it.
use client_server_db.Prelude.{
  ℕ, [], ◌++◌, ◌≡◌, ◌≢◌, refl, sym, ◌∙◌, ap, true, arith, length, length-append, append-nil,
  append_assoc,
}
use client_server_db.Floats.{Floats}
use client_server_db.Wire.{Bytes, Runtime}
use client_server_db.Wire.Laws.{Laws}
use client_server_db.Wire.Loop.{success, stuck, parse_end, parse-ne-stuck, Takes}
use client_server_db.Messages.Fields.{length-unknowns_field, unknowns_field-nil}
use client_server_db.Messages.Submessage.{OnSome, IsCarried, parse-submessage, length-message_field}
use client_server_db.Messages.Within.{Within, within_rules}
use client_server_db.Messages.{merge_option, message_field}
use client_server_db.Messages.Memory
use client_server_db.Messages.Memory.Laws as MemoryLaws
use client_server_db.Messages.Memory.{Memory}
use client_server_db.Messages.Cpu
use client_server_db.Messages.Cpu.Laws as CpuLaws
use client_server_db.Messages.Cpu.{Cpu}
use client_server_db.Messages.Process
use client_server_db.Messages.Process.Laws as ProcessLaws
use client_server_db.Messages.Process.{Process}
use client_server_db.Messages.SystemInfo
use client_server_db.Messages.SystemInfo.Laws as SystemInfoLaws
use client_server_db.Messages.SystemInfo.{SystemInfo}
use client_server_db.Messages.Machine.{
  Machine, merge_from, switch, merge_partial, serialize, byte_size, merge_memory, merge_cpu,
  merge_process, merge_systeminfo,
}

module _ {floats : Floats} (rt : Runtime floats) (laws : Laws rt) where
  -- Each submessage that is there is one that its parser takes back, and there is no unknown field.
  pub record IsEncodable (m : Machine rt) : Type 0 where
    pub last_updated :
        OnSome
          (IsCarried rt laws rt.merge_timestamp rt.timestamp_size rt.serialize_timestamp
            rt.merge_from_timestamp rt.new_timestamp)
          m.last_updated
    pub memory :
        OnSome
          (IsCarried rt laws
            (merge_memory rt)
            (Memory.byte_size rt)
            (Memory.serialize rt)
            Memory.merge_from
            Memory.new_memory)
          m.memory
    pub cpu :
        OnSome
          (IsCarried rt laws
            (merge_cpu rt)
            (Cpu.byte_size rt)
            (Cpu.serialize rt)
            (Cpu.merge_from floats)
            (Cpu.new_cpu floats))
          m.cpu
    pub process :
        OnSome
          (IsCarried rt laws
            (merge_process rt)
            (Process.byte_size rt)
            (Process.serialize rt)
            Process.merge_from
            Process.new_process)
          m.process
    pub systeminfo :
        OnSome
          (IsCarried rt laws
            (merge_systeminfo rt)
            (SystemInfo.byte_size rt)
            (SystemInfo.serialize rt)
            SystemInfo.merge_from
            SystemInfo.new_system_info)
          m.systeminfo
    pub known : m.unknown ≡ []

  switch-Within : (t : ℕ) (bs : Bytes) (m : Machine rt) → Within bs (switch rt t bs m)
  unfolding switch
  switch-Within t bs m = search within_rules depth 14

  switch-Takes : Takes rt (switch rt)
  switch-Takes t bs m m' rest h = (switch-Within t bs m).at m' rest h

  -- On every input the parser ends.
  pub merge_partial-ne-stuck : (bs : Bytes) (m : Machine rt) → merge_partial rt bs m ≢ stuck
  unfolding merge_partial
  merge_partial-ne-stuck = parse-ne-stuck rt (switch rt) laws switch-Takes

  -- Parsing what the serializer wrote for one message into another merges the first into the
  -- second, whatever follows.
  pub merge_partial-serialize :
      (a m : Machine rt) (rest : Bytes)
      → IsEncodable a
      → merge_partial rt (serialize rt a ++ rest) m ≡ merge_partial rt rest (merge_from rt m a)
  unfolding merge_partial serialize merge_from switch
  merge_partial-serialize a m rest h =
      let m1 = record m {
        last_updated =
            merge_option rt.merge_from_timestamp rt.new_timestamp m.last_updated a.last_updated;
      } in
      let m2 = record m1 {
        memory = merge_option Memory.merge_from Memory.new_memory m.memory a.memory;
      } in
      let m3 = record m2 {
        cpu = merge_option (Cpu.merge_from floats) (Cpu.new_cpu floats) m.cpu a.cpu;
      } in
      let m4 = record m3 {
        process = merge_option Process.merge_from Process.new_process m.process a.process;
      } in
      rw
        (
          h.known, unknowns_field-nil, append-nil, append-nil, append_assoc, append_assoc,
          append_assoc, append_assoc,
        )
        (parse-submessage rt laws rt.merge_timestamp rt.timestamp_size rt.serialize_timestamp
            rt.merge_from_timestamp rt.new_timestamp (switch rt) switch-Takes 5 a.last_updated
            (message_field rt (Memory.byte_size rt) (Memory.serialize rt) 6 a.memory
              ++ (message_field rt (Cpu.byte_size rt) (Cpu.serialize rt) 7 a.cpu
                  ++ (message_field rt (Process.byte_size rt) (Process.serialize rt) 8 a.process
                      ++ (message_field rt (SystemInfo.byte_size rt) (SystemInfo.serialize rt) 9
                            a.systeminfo
                          ++ rest))))
            (λ x. record m { last_updated = x }) m.last_updated (omega arith) (omega arith)
            h.last_updated (λ bs. refl)
          ∙ parse-submessage rt laws (merge_memory rt) (Memory.byte_size rt) (Memory.serialize rt)
              Memory.merge_from Memory.new_memory (switch rt) switch-Takes 6 a.memory
              (message_field rt (Cpu.byte_size rt) (Cpu.serialize rt) 7 a.cpu
                ++ (message_field rt (Process.byte_size rt) (Process.serialize rt) 8 a.process
                    ++ (message_field rt (SystemInfo.byte_size rt) (SystemInfo.serialize rt) 9
                          a.systeminfo
                        ++ rest)))
              (λ x. record m1 { memory = x }) m.memory (omega arith) (omega arith) h.memory
              (λ bs. refl)
          ∙ parse-submessage rt laws (merge_cpu rt) (Cpu.byte_size rt) (Cpu.serialize rt)
              (Cpu.merge_from floats) (Cpu.new_cpu floats) (switch rt) switch-Takes 7 a.cpu
              (message_field rt (Process.byte_size rt) (Process.serialize rt) 8 a.process
                ++ (message_field rt (SystemInfo.byte_size rt) (SystemInfo.serialize rt) 9
                      a.systeminfo
                    ++ rest))
              (λ x. record m2 { cpu = x }) m.cpu (omega arith) (omega arith) h.cpu (λ bs. refl)
          ∙ parse-submessage rt laws (merge_process rt) (Process.byte_size rt)
              (Process.serialize rt) Process.merge_from Process.new_process (switch rt) switch-Takes
              8 a.process
              (message_field rt (SystemInfo.byte_size rt) (SystemInfo.serialize rt) 9 a.systeminfo
                ++ rest)
              (λ x. record m3 { process = x }) m.process (omega arith) (omega arith) h.process
              (λ bs. refl)
          ∙ parse-submessage rt laws (merge_systeminfo rt) (SystemInfo.byte_size rt)
              (SystemInfo.serialize rt) SystemInfo.merge_from SystemInfo.new_system_info (switch rt)
              switch-Takes 9 a.systeminfo rest (λ x. record m4 { systeminfo = x }) m.systeminfo
              (omega arith) (omega arith) h.systeminfo (λ bs. refl))

  -- For every machine message, what the serializer writes has the length that ByteSizeLong computes
  -- for it, under the documented laws of the runtime.
  pub length-serialize : (m : Machine rt) → length (serialize rt m) ≡ byte_size rt m
  unfolding serialize byte_size
  length-serialize m =
      rw
        (
          length-append,
          length-append,
          length-append,
          length-append,
          length-append,
          length-message_field rt laws rt.merge_timestamp rt.timestamp_size rt.serialize_timestamp
              rt.merge_from_timestamp rt.new_timestamp 5 m.last_updated (omega arith) (omega arith)
              (laws.length-serialize_timestamp),
          length-message_field rt laws (merge_memory rt) (Memory.byte_size rt) (Memory.serialize rt)
              Memory.merge_from Memory.new_memory 6 m.memory (omega arith) (omega arith)
              (MemoryLaws.length-serialize rt laws),
          length-message_field rt laws (merge_cpu rt) (Cpu.byte_size rt) (Cpu.serialize rt)
              (Cpu.merge_from floats) (Cpu.new_cpu floats) 7 m.cpu (omega arith) (omega arith)
              (CpuLaws.length-serialize rt laws),
          length-message_field rt laws (merge_process rt) (Process.byte_size rt)
              (Process.serialize rt) Process.merge_from Process.new_process 8 m.process
              (omega arith) (omega arith) (ProcessLaws.length-serialize rt laws),
          length-message_field rt laws (merge_systeminfo rt) (SystemInfo.byte_size rt)
              (SystemInfo.serialize rt) SystemInfo.merge_from SystemInfo.new_system_info 9
              m.systeminfo (omega arith) (omega arith) (SystemInfoLaws.length-serialize rt laws),
          length-unknowns_field rt laws,
        )
        (omega arith)

  -- Parsed alone, what the serializer wrote uses the input up.
  pub merge_partial-serialize_end :
      (a m : Machine rt)
      → IsEncodable a
      → merge_partial rt (serialize rt a) m ≡ success (merge_from rt m a) true
  unfolding merge_partial
  merge_partial-serialize_end a m h =
      ap (λ bs. merge_partial rt bs m) (sym (append-nil (serialize rt a)))
      ∙ merge_partial-serialize a m [] h
      ∙ parse_end rt (switch rt) laws switch-Takes (merge_from rt m a)
