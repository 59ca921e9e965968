-- ===== src/Persistence.antt =====
-- server/src/persistence.cpp: the object for a report, and its row in the database.
pub mod Stored
pub mod Figures
pub mod ReadBack
use client_server_db.Prelude.{
  ℕ, Text, [], ◌∷◌, ◌++◌, ◌+◌, ◌-◌, ◌%◌, ◌^◌, Bool, Option, some, codes, if◌then◌else◌, ◌&&◌,
}
use client_server_db.Prelude.Int.{ℤ, pos_part, neg_part}
use client_server_db.Prelude.Exec.{Exec, ok, fault, pure, ◌>>=◌, ◌>>◌}
use client_server_db.Floats.{Floats}
use client_server_db.Machine.{MachineInfo}
use client_server_db.World.{World, LogEntry, critical, write_log, config_at}
use client_server_db.Wire.{Bytes, Runtime}
use client_server_db.Messages.{mutable}
use client_server_db.Messages.Memory
use client_server_db.Messages.Cpu
use client_server_db.Messages.Process
use client_server_db.Messages.SystemInfo
use client_server_db.Messages.Machine as MachineMessage
use client_server_db.Messages.MachineInfo as InfoMessage

-- What the database does: whether `begin` succeeds for a user, a password and a database, and
-- whether `persist` and `commit` do. Each throws an `odb::exception` where it does not.
pub record Database (floats : Floats) : Type 0 where
  pub begins : Text → Text → Text → Bool
  pub persists : MachineInfo floats → Bool
  pub commits : MachineInfo floats → Bool

-- The conversion of an int64_t to `unsigned long int`.
abbrev pub to_uint64 : ℤ → ℕ
to_uint64 z = (pos_part z + (2 ^ 64 - neg_part z % 2 ^ 64)) % 2 ^ 64

module _ {floats : Floats} (rt : Runtime floats) where
  -- The object of a message; `info->machine()` and the accessors below it answer the default
  -- message where there is none.
  unfoldable pub orm_object : Text → InfoMessage.MachineInfo rt → MachineInfo floats
  orm_object client_key info =
      let machine = mutable (MachineMessage.new_machine rt) info.machine in
      let cpu = mutable (Cpu.new_cpu floats) machine.cpu in
      let memory = mutable Memory.new_memory machine.memory in
      let process = mutable Process.new_process machine.process in
      let systeminfo = mutable SystemInfo.new_system_info machine.systeminfo in
      record {
        client_key = client_key;
        memory = record {
          mem_total = memory.mem_total;
          mem_available = memory.mem_available;
          mem_free = memory.mem_free;
        };
        cpu = record { idle_time = cpu.idle_time; use_time = cpu.use_time };
        process = record {
          total = process.total;
          running = process.running;
          blocked = process.blocked;
        };
        system_info = record {
          system_ip = systeminfo.system_ip;
          system_name = systeminfo.system_name;
        };
        time_stamp = to_uint64 (rt.seconds (mutable rt.new_timestamp machine.last_updated));
      }

  -- `get_orm_object`; a null pointer is none.
  unfoldable pub get_orm_object : Text → Bytes → Exec (World floats) (Option (MachineInfo floats))
  unfolding orm_object write_log
  get_orm_object client_key client_data =
      elim (InfoMessage.parse_from_string rt client_data (InfoMessage.new_machine_info rt)) [
        | some info ↦ pure (some (orm_object client_key info))
        | Option.none ↦ do
          write_log (
              critical (codes "Failed to deerialize and parse string from client : {}")
                (client_key ∷ []))
          pure Option.none
      ]

module _ {floats : Floats} (db : Database floats) where
  open db use {begins, persists, commits}

  -- The handler of `odb::exception`; the text of the exception is left out.
  abbrev pub not_persisted : LogEntry
  not_persisted = critical (codes "Failed to persist data tp database : {}") []

  -- The transaction: `persist` reads the object through the pointer.
  unfoldable pub transact : Option (MachineInfo floats) → Exec (World floats) (Unit {0})
  unfolding write_log
  transact Option.none w = (fault, w)
  transact (some m) w =
      if persists m && commits m
      then (ok tt, record w { rows = w.rows ++ (m ∷ []) })
      else write_log not_persisted w

  -- `write_client_info_db`
  unfoldable pub write_client_info_db : Option (MachineInfo floats) → Exec (World floats) (Unit {0})
  unfolding transact write_log config_at
  write_client_info_db client_info = do
    user ← config_at (codes "db_username")
    passwd ← config_at (codes "db_passwd")
    name ← config_at (codes "db_name")
    if begins user passwd name then transact client_info else write_log not_persisted
