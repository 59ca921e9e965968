-- ===== src/Persistence/Figures.antt =====
-- What the object of a report should hold, member by member.
use client_server_db.Prelude.{Text, ◌≡◌, refl}
use client_server_db.Floats.{Floats}
use client_server_db.Machine as Object
use client_server_db.Wire.{Runtime}
use client_server_db.Messages.{mutable}
use client_server_db.Messages.Memory
use client_server_db.Messages.Cpu
use client_server_db.Messages.Process
use client_server_db.Messages.SystemInfo
use client_server_db.Messages.Machine
use client_server_db.Messages.MachineInfo.{MachineInfo}
use client_server_db.Persistence.{to_uint64, orm_object}

module _ {floats : Floats} (rt : Runtime floats) where
  -- The messages inside a report, empty ones where they are not there.
  abbrev machine_of : MachineInfo rt → Machine.Machine rt
  machine_of info = mutable (Machine.new_machine rt) info.machine

  abbrev memory_of : MachineInfo rt → Memory.Memory
  memory_of info = mutable Memory.new_memory (machine_of info).memory

  abbrev cpu_of : MachineInfo rt → Cpu.Cpu floats
  cpu_of info = mutable (Cpu.new_cpu floats) (machine_of info).cpu

  abbrev process_of : MachineInfo rt → Process.Process
  process_of info = mutable Process.new_process (machine_of info).process

  abbrev system_of : MachineInfo rt → SystemInfo.SystemInfo
  system_of info = mutable SystemInfo.new_system_info (machine_of info).systeminfo

  -- An object has the client's key and, in each of its members, the field of the report with that
  -- name.
  pub record HasFigures (key : Text) (info : MachineInfo rt) (o : Object.MachineInfo floats)
      : Type 0 where
    pub client_key : o.client_key ≡ key
    pub mem_total : o.memory.mem_total ≡ (memory_of info).mem_total
    pub mem_available : o.memory.mem_available ≡ (memory_of info).mem_available
    pub mem_free : o.memory.mem_free ≡ (memory_of info).mem_free
    pub idle_time : o.cpu.idle_time ≡ (cpu_of info).idle_time
    pub use_time : o.cpu.use_time ≡ (cpu_of info).use_time
    pub total : o.process.total ≡ (process_of info).total
    pub running : o.process.running ≡ (process_of info).running
    pub blocked : o.process.blocked ≡ (process_of info).blocked
    pub system_ip : o.system_info.system_ip ≡ (system_of info).system_ip
    pub system_name : o.system_info.system_name ≡ (system_of info).system_name
    pub time_stamp :
        o.time_stamp
        ≡ to_uint64 (rt.seconds (mutable rt.new_timestamp (machine_of info).last_updated))

  pub orm_object-HasFigures :
      (key : Text) (info : MachineInfo rt) → HasFigures key info (orm_object rt key info)
  unfolding orm_object
  orm_object-HasFigures key info = record {
    client_key = refl;
    mem_total = refl;
    mem_available = refl;
    mem_free = refl;
    idle_time = refl;
    use_time = refl;
    total = refl;
    running = refl;
    blocked = refl;
    system_ip = refl;
    system_name = refl;
    time_stamp = refl;
  }
