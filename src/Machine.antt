-- ===== src/Machine.antt =====
-- common/include/machine_info.hxx: the objects that the server stores, one row of the table
-- `machineinfo` for each. The pointers of the class are never null after its constructor.
use client_server_db.Prelude.{ℕ, Text}
use client_server_db.Prelude.Int.{ℤ}
use client_server_db.Floats.{Floats}

pub record Memory : Type 0 where
  pub mem_total : ℤ
  pub mem_available : ℤ
  pub mem_free : ℤ

pub record Cpu (floats : Floats) : Type 0 where
  pub idle_time : floats.Float
  pub use_time : floats.Float

pub record Process : Type 0 where
  pub total : ℤ
  pub running : ℤ
  pub blocked : ℤ

pub record SystemInfo : Type 0 where
  pub system_ip : Text
  pub system_name : Text

-- The class `machineinfo`, less `id_`, which the database assigns.
pub record MachineInfo (floats : Floats) : Type 0 where
  pub client_key : Text
  pub memory : Memory
  pub cpu : Cpu floats
  pub process : Process
  pub system_info : SystemInfo
  pub time_stamp : ℕ
