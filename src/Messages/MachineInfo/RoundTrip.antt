-- ===== src/Messages/MachineInfo/RoundTrip.antt =====
-- What the server's `ParseFromString` makes of what the client's `SerializeToString` wrote.
use client_server_db.Prelude.{
  ℕ, Text, [], ◌∷◌, ◌<◌, ◌≤◌, ◌^◌, ◌≡◌, refl, ap, true, Option, some, arith, length,
}
use client_server_db.Floats.{Floats}
use client_server_db.Wire.{Bytes, Runtime}
use client_server_db.Wire.Laws.{Laws}
use client_server_db.Wire.Loop.{merged}
use client_server_db.Messages.Submessage.{OnSome, IsCarried}
use client_server_db.Messages.{merge_option, message_field_size, string_field_size}
use client_server_db.Messages.Memory
use client_server_db.Messages.Memory.Laws as MemoryLaws
use client_server_db.Messages.Memory.{Memory}
use client_server_db.Messages.Cpu
use client_server_db.Messages.Cpu.Laws as CpuLaws
use client_server_db.Messages.Cpu.{Cpu}
use client_server_db.Messages.Process
use client_server_db.Messages.Process.Laws as ProcessLaws
use client_server_db.Messages.Process.{Process}
use client_server_db.Messages.SystemInfo
use client_server_db.Messages.SystemInfo.Laws as SystemInfoLaws
use client_server_db.Messages.SystemInfo.{SystemInfo}
use client_server_db.Messages.Machine
use client_server_db.Messages.Machine.Laws as MachineLaws
use client_server_db.Messages.Machine.{Machine}
use client_server_db.Messages.MachineInfo.Laws as MachineInfoLaws
use client_server_db.Messages.MachineInfo.{
  MachineInfo, new_machine_info, merge_from, serialize, byte_size, serialize_to_string,
  parse_from_string,
}

module _ {floats : Floats} (rt : Runtime floats) where
  -- Floats with one zero, and no unknown fields.
  pub record CpuIsSendable (c : Cpu floats) : Type 0 where
    pub one_zero : CpuLaws.HasOneZero c
    pub known : c.unknown ≡ []

  -- UTF-8 texts, and no unknown fields.
  pub record SystemInfoIsSendable (s : SystemInfo) : Type 0 where
    pub ip_utf8 : rt.is_utf8 s.system_ip ≡ true
    pub name_utf8 : rt.is_utf8 s.system_name ≡ true
    pub known : s.unknown ≡ []

  pub record MachineIsSendable (m : Machine rt) : Type 0 where
    pub memory : OnSome MemoryLaws.IsEncodable m.memory
    pub cpu : OnSome CpuIsSendable m.cpu
    pub process : OnSome ProcessLaws.IsEncodable m.process
    pub systeminfo : OnSome SystemInfoIsSendable m.systeminfo
    pub known : m.unknown ≡ []

  -- What the client builds: 32-bit numbers, floats with one zero, UTF-8 texts, and no unknown
  -- fields, in the submessages that are there.
  pub record IsSendable (info : MachineInfo rt) : Type 0 where
    pub machine : OnSome MachineIsSendable info.machine
    pub known : info.unknown ≡ []

module _ {floats : Floats} (rt : Runtime floats) (laws : Laws rt) where
  -- A submessage is no longer than the field that carries it.
  carried_size :
      {S : Type 0} (size : S → ℕ) (o : Option S)
      → OnSome (λ x. size x ≤ message_field_size rt size o) o
  unfolding message_field_size
  carried_size size Option.none = tt
  carried_size size (some x) = omega (arith, laws.message_size_bound (size x))

  text_size : (s : Text) → length s ≤ string_field_size rt s
  unfolding string_field_size
  text_size [] = omega arith
  text_size (c ∷ s) = omega (arith, laws.string_size_bound (c ∷ s))

  system_info-IsEncodable :
      (s : SystemInfo)
      → SystemInfoIsSendable rt s
      → SystemInfo.byte_size rt s < 2 ^ 31
      → SystemInfoLaws.IsEncodable rt.is_utf8 s
  unfolding SystemInfo.byte_size
  system_info-IsEncodable s h short = record {
    system_ip = (omega (arith, text_size s.system_ip), h.ip_utf8);
    system_name = (omega (arith, text_size s.system_name), h.name_utf8);
    known = h.known;
  }

  OnSome-map :
      {S : Type 0} {P Q R : S → Type 0} (o : Option S)
      → ((x : S) → P x → Q x → R x)
      → OnSome P o
      → OnSome Q o
      → OnSome R o
  OnSome-map Option.none f p q = tt
  OnSome-map (some x) f p q = f x p q

  timestamp-IsCarried :
      (t : rt.Timestamp)
      → rt.timestamp_size t < 2 ^ 31
      → IsCarried rt laws rt.merge_timestamp rt.timestamp_size rt.serialize_timestamp
          rt.merge_from_timestamp rt.new_timestamp t
  timestamp-IsCarried t short = record {
    merges = laws.merge-serialize_timestamp t;
    sized = laws.length-serialize_timestamp t;
    short = short;
  }

  pub machine-IsEncodable :
      (m : Machine rt)
      → MachineIsSendable rt m
      → Machine.byte_size rt m < 2 ^ 31
      → MachineLaws.IsEncodable rt laws m
  unfolding Machine.byte_size
  machine-IsEncodable m h short = record {
    last_updated =
        OnSome-map m.last_updated (λ x p q. timestamp-IsCarried x (omega arith))
          (carried_size rt.timestamp_size m.last_updated)
          (carried_size rt.timestamp_size m.last_updated);
    memory =
        OnSome-map m.memory (λ x p q. MemoryLaws.serialize-IsCarried rt laws x p (omega arith))
          h.memory (carried_size (Memory.byte_size rt) m.memory);
    cpu =
        OnSome-map m.cpu
          (λ x p q.
            CpuLaws.serialize-IsCarried rt laws x (record { known = p.known }) (omega arith))
          h.cpu (carried_size (Cpu.byte_size rt) m.cpu);
    process =
        OnSome-map m.process (λ x p q. ProcessLaws.serialize-IsCarried rt laws x p (omega arith))
          h.process (carried_size (Process.byte_size rt) m.process);
    systeminfo =
        OnSome-map m.systeminfo
          (λ x p q.
            SystemInfoLaws.serialize-IsCarried rt laws x (system_info-IsEncodable x p (omega arith))
              (omega arith))
          h.systeminfo (carried_size (SystemInfo.byte_size rt) m.systeminfo);
    known = h.known;
  }

  -- Merging into nothing what a new message takes over whole gives the message back.
  merge_option_self :
      {S : Type 0} (merge : S → S → S) (new : S) (o : Option S)
      → OnSome (λ x. merge new x ≡ x) o
      → merge_option merge new Option.none o ≡ o
  merge_option_self merge new Option.none h = refl
  merge_option_self merge new (some x) h = ap some h

  OnSome-weaken :
      {S : Type 0} {P Q : S → Type 0} (o : Option S)
      → ((x : S) → P x → Q x)
      → OnSome P o
      → OnSome Q o
  OnSome-weaken Option.none f p = tt
  OnSome-weaken (some x) f p = f x p

  OnSome-every : {S : Type 0} {P : S → Type 0} (o : Option S) → ((x : S) → P x) → OnSome P o
  OnSome-every Option.none f = tt
  OnSome-every (some x) f = f x

  machine-merge_from :
      (m : Machine rt)
      → MachineIsSendable rt m
      → Machine.merge_from rt (Machine.new_machine rt) m ≡ m
  unfolding Machine.merge_from
  machine-merge_from m h = λ i. record {
    last_updated =
        merge_option_self rt.merge_from_timestamp rt.new_timestamp m.last_updated
          (OnSome-every m.last_updated laws.merge_from_new_timestamp) i;
    memory =
        merge_option_self Memory.merge_from Memory.new_memory m.memory
          (OnSome-every m.memory MemoryLaws.merge_from-new) i;
    cpu =
        merge_option_self (Cpu.merge_from floats) (Cpu.new_cpu floats) m.cpu
          (OnSome-weaken m.cpu (λ x p. CpuLaws.merge_from-new floats x p.one_zero) h.cpu) i;
    process =
        merge_option_self Process.merge_from Process.new_process m.process
          (OnSome-every m.process ProcessLaws.merge_from-new) i;
    systeminfo =
        merge_option_self SystemInfo.merge_from SystemInfo.new_system_info m.systeminfo
          (OnSome-every m.systeminfo SystemInfoLaws.merge_from-new) i;
    unknown = m.unknown;
  }

  machine-IsCarried :
      (m : Machine rt)
      → MachineIsSendable rt m
      → Machine.byte_size rt m < 2 ^ 31
      → IsCarried rt laws
          (λ bs x. merged (Machine.merge_partial rt bs x))
          (Machine.byte_size rt)
          (Machine.serialize rt)
          (Machine.merge_from rt)
          (Machine.new_machine rt)
          m
  machine-IsCarried m h short = record {
    merges = λ x.
        ap merged
          (MachineLaws.merge_partial-serialize_end rt laws m x (machine-IsEncodable m h short));
    sized = MachineLaws.length-serialize rt laws m;
    short = short;
  }

  info-IsEncodable :
      (info : MachineInfo rt)
      → IsSendable rt info
      → byte_size rt info < 2 ^ 31
      → MachineInfoLaws.IsEncodable rt laws info
  unfolding byte_size
  info-IsEncodable info h short = record {
    machine =
        OnSome-map info.machine (λ x p q. machine-IsCarried x p (omega arith)) h.machine
          (carried_size (Machine.byte_size rt) info.machine);
    known = h.known;
  }

  info-merge_from :
      (info : MachineInfo rt) → IsSendable rt info → merge_from rt (new_machine_info rt) info ≡ info
  unfolding merge_from
  info-merge_from info h = λ i. record {
    machine =
        merge_option_self (Machine.merge_from rt) (Machine.new_machine rt) info.machine
          (OnSome-weaken info.machine machine-merge_from h.machine) i;
    unknown = info.unknown;
  }

  -- Whatever message the server parses into, the bytes that the client's serializer answers for a
  -- message with 32-bit numbers, no negative zero, UTF-8 texts and no unknown fields are parsed to
  -- that message, and the serializer does answer bytes, as many as were computed for the message.
  -- It asks that the computed length is below 2 ^ 31, and the documented laws of the runtime.
  pub parse_from_string-serialize_to_string :
      (info old : MachineInfo rt)
      → IsSendable rt info
      → byte_size rt info < 2 ^ 31
      → (bs : Bytes) × (serialize_to_string rt info ≡ some bs)
        × (length bs ≡ byte_size rt info)
        × (parse_from_string rt bs old ≡ some info)
  unfolding serialize_to_string parse_from_string
  parse_from_string-serialize_to_string info old h short = (
    serialize rt info,
    ground arith,
    MachineInfoLaws.length-serialize rt laws info,
    rw
        (
          MachineInfoLaws.merge_partial-serialize_end rt laws info (new_machine_info rt)
              (info-IsEncodable info h short),
          parse_from_string,
        )
        (ap some (info-merge_from info h)),
  )
