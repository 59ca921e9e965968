-- ===== src/Prototype/Same.antt =====
-- The report of the earlier client against the report of client/src/client_info.cpp.
use client_server_db.Prelude.{ℕ, Text, List, ◌≡◌, refl, Option, some}
use client_server_db.Prelude.Exec.{Exception}
use client_server_db.Floats.{Floats}
use client_server_db.Wire.{Runtime}
use client_server_db.Messages.Machine
use client_server_db.Messages.SystemInfo
use client_server_db.Messages.MachineInfo as InfoMessage
use client_server_db.ClientInfo.Memory as Later
use client_server_db.ClientInfo.Stat.{read_idle_values}
use client_server_db.ClientInfo.Stat as LaterStat
use client_server_db.ClientInfo.Process.{get_process_info}
use client_server_db.ClientInfo.Rounds.{Run, returns, raises, undefined, out_of_fuel, ◌>>=◌}
use client_server_db.ClientInfo.Report.{Host}
use client_server_db.ClientInfo.Report as Report
use client_server_db.Prototype.{
  get_machine_info, get_mem_info, get_cpu_idle_values, get_system_info, read_amounts,
}

-- What a run can be.
data Cases {A : Type 0} (r : Run A) : Type 0 where
  is_returned : (a : A) → r ≡ returns a → Cases r
  is_raised : (e : Exception) → r ≡ raises e → Cases r
  is_undefined : r ≡ undefined → Cases r
  is_endless : r ≡ out_of_fuel → Cases r

Run-Cases : {A : Type 0} (r : Run A) → Cases r
Run-Cases (returns a) = is_returned a refl
Run-Cases (raises e) = is_raised e refl
Run-Cases undefined = is_undefined refl
Run-Cases out_of_fuel = is_endless refl

module _ {floats : Floats} (rt : Runtime floats) where
  abbrev renamed : Text → Option SystemInfo.SystemInfo → Option SystemInfo.SystemInfo
  renamed user Option.none = Option.none
  renamed user (some s) = some (record s { system_ip = user })

  abbrev untimed : Text → Option (Machine.Machine rt) → Option (Machine.Machine rt)
  untimed user Option.none = Option.none
  untimed user (some m) =
      some (record m { last_updated = Option.none; systeminfo = renamed user m.systeminfo })

  -- A report with the user's name in place of the address, and without its time.
  abbrev pub as_prototype : Text → InfoMessage.MachineInfo rt → InfoMessage.MachineInfo rt
  as_prototype user info = record info { machine = untimed user info.machine }

  abbrev pub prototype_of :
      Text → Run (InfoMessage.MachineInfo rt) → Run (InfoMessage.MachineInfo rt)
  prototype_of user (returns info) = returns (as_prototype user info)
  prototype_of user (raises e) = raises e
  prototype_of user undefined = undefined
  prototype_of user out_of_fuel = out_of_fuel

  later_amounts :
      (fuel : ℕ) (lines : Option (List Text))
      → Later.get_mem_info fuel lines
        ≡ (read_amounts fuel lines >>= λ a. returns (Later.memory_message a))
  unfolding Later.get_mem_info
  later_amounts fuel Option.none = refl
  later_amounts fuel (some lines) = refl

  -- On the same machine, and where the environment has a USER, the earlier client comes to what the
  -- later one comes to, with the same fuel: the same report but for the user's name as the address
  -- and the time, which is not set; or the same exception; or undefined behaviour; or no end.
  pub get_machine_info_lem :
      (fuel : ℕ) (user : Text) (host : Host rt)
      → (get_machine_info rt fuel (some user) host).0
        ≡ prototype_of user (Report.get_machine_info rt fuel host)
  unfolding get_machine_info Report.get_machine_info get_mem_info get_cpu_idle_values
      get_system_info Report.get_system_info LaterStat.get_cpu_idle_values
  get_machine_info_lem fuel user host =
      rw later_amounts (elim (Run-Cases (read_idle_values floats fuel host.idle_stat)) [
        | is_raised x e ↦ rw e refl
        | is_undefined e ↦ rw e refl
        | is_endless e ↦ rw e refl
        | is_returned v e ↦ rw e (elim (Run-Cases (read_amounts fuel host.meminfo)) [
          | is_raised x d ↦ rw d refl
          | is_undefined d ↦ rw d refl
          | is_endless d ↦ rw d refl
          | is_returned a d ↦ rw d (elim (Run-Cases (get_process_info host.process_stat)) [
            | is_raised x c ↦ rw c refl
            | is_undefined c ↦ rw c refl
            | is_endless c ↦ rw c refl
            | is_returned p c ↦ rw c refl
          ])
        ])
      ])
