-- ===== src/ClientInfo/Report.antt =====
-- `ClientInfo::get_system_info` and `ClientInfo::get_machine_info`: the report.
pub mod Sendable
use client_server_db.Prelude.{ℕ, Text, List, [], ◌∷◌, ◌++◌, Option, some, codes}
use client_server_db.World.{LogEntry, critical}
use client_server_db.Floats.{Floats}
use client_server_db.Wire.{Runtime}
use client_server_db.ClientInfo.Rounds.{Run, returns, raises, undefined, out_of_fuel, ◌>>=◌}
use client_server_db.ClientInfo.Memory.{get_mem_info}
use client_server_db.ClientInfo.Stat.{get_cpu_idle_values, read_idle_values}
use client_server_db.ClientInfo.Process.{get_process_info}
use client_server_db.Messages.SystemInfo
use client_server_db.Messages.Machine
use client_server_db.Messages.MachineInfo

-- What the client finds on its machine: each time that it opens a file of /proc the lines of the
-- file, or none; the name of the host; and the time.
pub record Host {floats : Floats} (rt : Runtime floats) : Type 0 where
  pub meminfo : Option (List Text)
  pub idle_stat : Option (ℕ → List Text)
  pub count_stat : Option (List Text)
  pub process_stat : Option (List Text)
  pub host_name : Text
  pub now : rt.Timestamp

-- `get_system_info`
unfoldable pub get_system_info : Text → SystemInfo.SystemInfo
get_system_info host_name = record { system_ip = codes "ip"; system_name = host_name; unknown = [] }

-- `get_machine_info`
unfoldable pub get_machine_info :
    {floats : Floats} (rt : Runtime floats) → ℕ → Host rt → Run (MachineInfo.MachineInfo rt)
unfolding get_cpu_idle_values get_mem_info get_process_info get_system_info
get_machine_info {floats} rt fuel host = do
  cpu ← get_cpu_idle_values floats fuel host.idle_stat host.count_stat
  memory ← get_mem_info fuel host.meminfo
  process ← get_process_info host.process_stat
  returns (record {
    machine = some (record {
      last_updated = some host.now;
      memory = some memory;
      cpu = some cpu;
      process = some process;
      systeminfo = some (get_system_info host.host_name);
      unknown = [];
    });
    unknown = [];
  })

-- What the functions on /proc/stat give the logger where they cannot open it.
abbrev pub unopened : {A : Type 0} → Option A → List LogEntry
unopened Option.none = critical (codes "failed to open system file /proc/stat") [] ∷ []
unopened (some a) = []

-- What is given to the logger once a function has returned.
abbrev pub after : {A : Type 0} → Run A → List LogEntry → List LogEntry
after (returns a) entries = entries
after (raises e) entries = []
after undefined entries = []
after out_of_fuel entries = []

-- What `get_machine_info` gives the logger: `get_cpu_idle_values` and, inside it,
-- `get_cpu_count`, and behind `get_mem_info` the one of `get_process_info`.
unfoldable pub notes : {floats : Floats} (rt : Runtime floats) → ℕ → Host rt → List LogEntry
unfolding get_mem_info
notes {floats} rt fuel host =
    unopened host.idle_stat
    ++ after (read_idle_values floats fuel host.idle_stat) (
        unopened host.count_stat
        ++ after (get_mem_info fuel host.meminfo) (unopened host.process_stat))
