-- ===== src/Persistence/ReadBack.antt =====
-- The object of a report that the client sent, through the code of the ODB compiler: what a search
-- answers for the row.
use client_server_db.Prelude.{ℕ, Text, ◌^◌, ◌<◌, ◌≡◌, refl, true, Option, some, arith}
use client_server_db.Prelude.Exec.{ok}
use client_server_db.Floats.{Floats}
use client_server_db.World.{World}
use client_server_db.Wire.{Bytes, Runtime}
use client_server_db.Wire.Laws as WireLaws
use client_server_db.Messages.{mutable}
use client_server_db.Messages.Submessage.{OnSome}
use client_server_db.Messages.Memory
use client_server_db.Messages.Memory.Laws as MemoryLaws
use client_server_db.Messages.Process
use client_server_db.Messages.Process.Laws as ProcessLaws
use client_server_db.Messages.Machine as MachineMessage
use client_server_db.Messages.MachineInfo.{
  MachineInfo, new_machine_info, byte_size, serialize_to_string,
}
use client_server_db.Messages.MachineInfo.RoundTrip.{
  IsSendable, MachineIsSendable, parse_from_string-serialize_to_string,
}
use client_server_db.Persistence.{orm_object, get_orm_object}
use client_server_db.Persistence.Figures.{HasFigures, orm_object-HasFigures}
use client_server_db.Persistence.Stored.{get_orm_object_lem}
use client_server_db.Odb.Traits.{Traits}
use client_server_db.Odb.Traits.Laws as OdbLaws
use client_server_db.Odb.Image.{Object}
use client_server_db.Odb.Image.RoundTrip.{IsStorable}
use client_server_db.Odb.Statements.{Driver}
use client_server_db.Odb.Object.{Session, persist, find, loaded}
use client_server_db.Odb.Table.{Server}
use client_server_db.Odb.Table.Sequences.{IsIdle, find-persist}

memory_there :
    (o : Option Memory.Memory)
    → OnSome MemoryLaws.IsEncodable o
    → MemoryLaws.IsEncodable (mutable Memory.new_memory o)
memory_there Option.none h = record {
  mem_total = omega arith;
  mem_available = omega arith;
  mem_free = omega arith;
  known = refl;
}
memory_there (some m) h = h

process_there :
    (o : Option Process.Process)
    → OnSome ProcessLaws.IsEncodable o
    → ProcessLaws.IsEncodable (mutable Process.new_process o)
process_there Option.none h = record {
  total = omega arith;
  running = omega arith;
  blocked = omega arith;
  known = refl;
}
process_there (some p) h = h

module _ {floats : Floats} (rt : Runtime floats) where
  machine_there :
      (o : Option (MachineMessage.Machine rt))
      → OnSome (MachineIsSendable rt) o
      → MachineIsSendable rt (mutable (MachineMessage.new_machine rt) o)
  machine_there Option.none h = record {
    memory = tt;
    cpu = tt;
    process = tt;
    systeminfo = tt;
    known = refl;
  }
  machine_there (some m) h = h

  -- The object of a sendable report fits the columns.
  orm_object-IsStorable :
      (key : Text) (info : MachineInfo rt)
      → IsSendable rt info
      → IsStorable (orm_object rt key info)
  unfolding orm_object
  orm_object-IsStorable key info h =
      let machine = machine_there info.machine h.machine in
      let memory = memory_there _ machine.memory in
      let process = process_there _ machine.process in
      record {
        mem_total = memory.mem_total;
        mem_available = memory.mem_available;
        mem_free = memory.mem_free;
        total = process.total;
        running = process.running;
        blocked = process.blocked;
        time_stamp = omega arith;
      }

  -- The object of a report, with what its `id_` holds.
  abbrev pub new_object : ℕ → Text → MachineInfo rt → Object floats
  new_object id key info = record { id_ = id; info = orm_object rt key info }

  -- A report that the wire carries unchanged and that is shorter than 2 ^ 31 is read by the server
  -- as an object with the key of the client and in each member the field of that report with its
  -- name; where that object is persisted, from a
  -- session between two operations and with room for the version of the image to go up twice, a
  -- search for its new id answers it with all its figures, if the server answers.
  pub find-get_orm_object :
      {traits : Traits floats} {driver : Driver traits} (server : Server driver)
      → WireLaws.Laws rt
      → OdbLaws.Laws traits
      → (id : ℕ) (key : Text) (info : MachineInfo rt) (w : World floats) (s : Session driver)
        (o : Object floats)
      → IsSendable rt info
      → byte_size rt info < 2 ^ 31
      → IsIdle driver 2 s
      → (persist driver (new_object id key info) s).0 ≡ ok o
      → server.answers (persist driver (new_object id key info) s).1.db ≡ true
      → (bs : Bytes) × (serialize_to_string rt info ≡ some bs)
        × (get_orm_object rt key bs w ≡ (ok (some (orm_object rt key info)), w))
        × ((find driver o.id_ (persist driver (new_object id key info) s).1).0
            ≡ ok (loaded (new_object o.id_ key info)))
        × HasFigures rt key info (orm_object rt key info)
  find-get_orm_object server wire odb id key info w s o sendable short idle done here =
      let (bs, written, sized, parsed) =
        parse_from_string-serialize_to_string rt wire info (new_machine_info rt) sendable short in
      (
        bs,
        written,
        get_orm_object_lem rt key bs w info parsed,
        find-persist server odb (new_object id key info) s o idle
            (orm_object-IsStorable key info sendable) done here,
        orm_object-HasFigures rt key info,
      )
