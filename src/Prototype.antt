-- ===== src/Prototype.antt =====
-- src/client_info.cpp and src/main.cpp: an earlier client, which prints what it finds and posts one
-- report. The loops over the files of /proc, `get_cpu_count`, `get_cpu_idle_value` and
-- `get_process_info` are in it word for word as they are in client/src/client_info.cpp, so their
-- models stand here for both.
pub mod Same
pub mod Posted
use client_server_db.Prelude.{ℕ, Text, List, [], ◌∷◌, ◌++◌, Option, some, codes}
use client_server_db.Prelude.Int.{ℤ}
use client_server_db.Floats.{Floats}
use client_server_db.Wire.{Bytes, Runtime}
use client_server_db.Messages.Memory
use client_server_db.Messages.Cpu
use client_server_db.Messages.SystemInfo
use client_server_db.Messages.Machine
use client_server_db.Messages.MachineInfo as InfoMessage
use client_server_db.ClientInfo.Rounds.{Run, returns, raises, undefined, out_of_fuel}
use client_server_db.ClientInfo.Memory.{Amounts, no_amounts, read_loop, memory_message}
use client_server_db.ClientInfo.Stat.{read_idle_values, cpu_idle, cpu_message, get_cpu_count}
use client_server_db.ClientInfo.Process.{get_process_info}
use client_server_db.ClientInfo.Report.{Host}

-- What is written to `cout`: each operand of `<<`.
pub data Printed (floats : Floats) : Type 0 where
  text : Text → Printed floats
  long : ℤ → Printed floats
  float : floats.Float → Printed floats

-- `"\n"`
abbrev new_line : Text
new_line = 10 ∷ []

-- A function that prints: what it comes to, and what it has printed until then.
abbrev pub Printing : Floats → Type 0 → Type 0
Printing floats A = Run A × List (Printed floats)

module _ {floats : Floats} {B : Type 0} where
  abbrev and_print : List (Printed floats) → Printing floats B → Printing floats B
  and_print front (r, more) = (r, front ++ more)

module _ {floats : Floats} {A B : Type 0} where
  infixl 5 ◌>>=◌
  abbrev pub ◌>>=◌ : Printing floats A → (A → Printing floats B) → Printing floats B
  (returns a, front) >>= f = and_print front (f a)
  (raises e, front) >>= f = (raises e, front)
  (undefined, front) >>= f = (undefined, front)
  (out_of_fuel, front) >>= f = (out_of_fuel, front)

module _ {floats : Floats} {A : Type 0} where
  abbrev pub silent : Run A → Printing floats A
  silent r = (r, [])

  abbrev pub printing : List (Printed floats) → A → Printing floats A
  printing out a = (returns a, out)

abbrev pub read_amounts : ℕ → Option (List Text) → Run Amounts
read_amounts fuel Option.none = returns no_amounts
read_amounts fuel (some lines) = read_loop fuel lines no_amounts

module _ {floats : Floats} where
  -- `get_mem_info`. The message's second field has another name in the generated code of src and
  -- the same number.
  unfoldable pub get_mem_info : ℕ → Option (List Text) → Printing floats Memory.Memory
  get_mem_info fuel lines = do
    a ← silent (read_amounts fuel lines)
    printing
        (text (new_line ++ codes " tot : ")
          ∷ long a.mem_total
          ∷ text new_line
          ∷ text (codes " free : ")
          ∷ long a.mem_free
          ∷ text new_line
          ∷ text (codes " available : ")
          ∷ long a.mem_available
          ∷ text new_line
          ∷ [])
        (memory_message a)

  -- `get_cpu_idle_values`
  unfoldable pub get_cpu_idle_values :
      ℕ → Option (ℕ → List Text) → Option (List Text) → Printing floats (Cpu.Cpu floats)
  unfolding cpu_message
  get_cpu_idle_values fuel stat count_stat = do
    v ← silent (read_idle_values floats fuel stat)
    printing
        (text (codes "idle : ")
          ∷ float (cpu_idle floats v.0 v.1 (get_cpu_count count_stat))
          ∷ text new_line
          ∷ [])
        (cpu_message floats v.0 v.1 (get_cpu_count count_stat))

-- `get_system_info`. Where the environment has no USER, `getenv` answers a null pointer, of which
-- the setter makes a string.
unfoldable pub get_system_info : Option Text → Text → Run SystemInfo.SystemInfo
get_system_info Option.none host_name = undefined
get_system_info (some user) host_name =
    returns (record { system_ip = user; system_name = host_name; unknown = [] })

module _ {floats : Floats} (rt : Runtime floats) where
  -- `get_machine_info`
  unfoldable pub get_machine_info :
      ℕ → Option Text → Host rt → Printing floats (InfoMessage.MachineInfo rt)
  unfolding get_cpu_idle_values get_mem_info get_system_info
  get_machine_info fuel user host = do
    cpu ← get_cpu_idle_values fuel host.idle_stat host.count_stat
    memory ← get_mem_info fuel host.meminfo
    process ← silent (get_process_info host.process_stat)
    systeminfo ← silent (get_system_info user host.host_name)
    printing [] (record {
      machine = some (record {
        last_updated = Option.none;
        memory = some memory;
        cpu = some cpu;
        process = some process;
        systeminfo = some systeminfo;
        unknown = [];
      });
      unknown = [];
    })

-- The HTTP client: the status and the content of the answer, or none where it throws a
-- `system_error`.
abbrev pub Http : Type 0
Http = Text → Text → Bytes → Option (Text × Text)

-- What `main` leaves behind: its output, whether it has reported an error to `cerr`, and its
-- requests: the host, the path and the content of each.
pub record Ended (floats : Floats) : Type 0 where
  pub output : List (Printed floats)
  pub errors : List Text
  pub requests : List (Text × Text × Bytes)

module _ {floats : Floats} (http : Http) where
  -- `cout << response->content.rdbuf() << endl`: a buffer without a character sets `failbit`, and
  -- then the end of the line is not written either.
  abbrev pub printed_content : Text → List (Printed floats)
  printed_content [] = []
  printed_content (c ∷ content) = text (c ∷ content) ∷ text new_line ∷ []

  -- `main` behind the request. The text of the exception is left out.
  abbrev pub answered : Option (Text × Text) → Ended floats → Ended floats
  answered Option.none d = record d { errors = d.errors ++ (codes "Client request error: " ∷ []) }
  answered (some (status, content)) d = record d {
    output = d.output ++ (text status ∷ text new_line ∷ printed_content content);
  }

  -- `main` behind `SerializeToString`.
  unfoldable pub post : Option Bytes → Ended floats → Ended floats
  post Option.none d = d
  post (some binary_data) d =
      let host = codes "192.168.1.3:9090" in
      let path = codes "/machine?id=123" in
      answered (http host path binary_data)
        (record d { requests = d.requests ++ ((host, path, binary_data) ∷ []) })

  module _ (rt : Runtime floats) where
    abbrev pub after_report :
        Printing floats (InfoMessage.MachineInfo rt) → Run (Unit {0}) × Ended floats
    after_report (returns info, out) = (
      returns tt,
      post (InfoMessage.serialize_to_string rt info)
          (record { output = out; errors = []; requests = [] }),
    )
    after_report (raises e, out) = (raises e, record { output = out; errors = []; requests = [] })
    after_report (undefined, out) = (undefined, record { output = out; errors = []; requests = [] })
    after_report (out_of_fuel, out) =
        (out_of_fuel, record { output = out; errors = []; requests = [] })

    -- `main`
    unfoldable pub main : ℕ → Option Text → Host rt → Run (Unit {0}) × Ended floats
    unfolding get_machine_info post
    main fuel user host = after_report (get_machine_info rt fuel user host)
