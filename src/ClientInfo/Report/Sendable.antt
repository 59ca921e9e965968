-- ===== src/ClientInfo/Report/Sendable.antt =====
-- A report that the client collects is one that survives the way to the server.
use client_server_db.Prelude.{
  ℕ, Text, List, [], ◌∷◌, ◌≡◌, refl, Bool, true, false, Option, some, arith, codes, if◌then◌else◌,
  is_empty, text_eq,
}
use client_server_db.Prelude.Int.{ℤ, IsInt32, to_int32-IsInt32}
use client_server_db.Prelude.Exec.{Outcome, ok, throws, fault}
use client_server_db.Prelude.Numbers.{stoi, stoi-IsInt32}
use mathlib.Core.Path.{subst}
use client_server_db.Floats.{Floats}
use client_server_db.Wire.{Runtime}
use client_server_db.Messages.Cpu.Laws as CpuLaws
use client_server_db.Messages.Cpu
use client_server_db.Messages.Memory.Laws as MemoryLaws
use client_server_db.Messages.Process.Laws as ProcessLaws
use client_server_db.Messages.MachineInfo.{MachineInfo}
use client_server_db.Messages.MachineInfo.RoundTrip.{IsSendable}
use client_server_db.ClientInfo.Rounds.{
  Run, returns, raises, undefined, out_of_fuel, run, rounds, ◌>>=◌,
}
use client_server_db.ClientInfo.Process.{
  Counts, no_counts, take_counts, count_lines, process_message, get_process_info,
}
use client_server_db.ClientInfo.Memory.{
  Amounts, memory_message, get_mem_info, read_loop, no_amounts,
}
use client_server_db.ClientInfo.Stat.{
  get_cpu_idle_values, cpu_message, read_idle_values, get_cpu_count,
}
use client_server_db.ClientInfo.Report.{Host, get_machine_info, get_system_info}

-- Each count is an int.
pub record AreInts (c : Counts) : Type 0 where
  pub processes : IsInt32 c.processes
  pub running : IsInt32 c.running
  pub blocked : IsInt32 c.blocked

-- What a run returns, if it returns, has the property.
pub record Returns {A : Type 0} (P : A → Type 0) (r : Run A) : Type 0 where
  pub at : (a : A) → r ≡ returns a → P a

module _ {A : Type 0} {P : A → Type 0} where
  returned : (a : A) → P a → Returns P (returns a)
  returned a p = record { at = λ b e. subst P (ground arith) p }

  Returns-if : (b : Bool) {x y : Run A} → Returns P x → Returns P y → Returns P (if b then x else y)
  Returns-if true p q = p
  Returns-if false p q = q

Returns-bind :
    {A B : Type 0} {P : A → Type 0} {Q : B → Type 0} (r : Run A) {f : A → Run B}
    → Returns P r
    → ((a : A) → P a → Returns Q (f a))
    → Returns Q (r >>= f)
Returns-bind (returns a) p k = k a (p.at a refl)
Returns-bind (raises e) p k = record { at = λ b e. cc }
Returns-bind undefined p k = record { at = λ b e. cc }
Returns-bind out_of_fuel p k = record { at = λ b e. cc }

Returns-stoi : (s : Text) → Returns IsInt32 (run (stoi s))
Returns-stoi s = step (stoi s) (stoi-IsInt32 s)
  where
    step : (r : Outcome ℤ) → ((z : ℤ) → r ≡ ok z → IsInt32 z) → Returns IsInt32 (run r)
    step (ok z) h = returned z (h z refl)
    step (throws e) h = record { at = λ b e. cc }
    step fault h = record { at = λ b e. cc }

take_counts-AreInts :
    (rs : List (Text × Text)) (c : Counts) → AreInts c → Returns AreInts (take_counts rs c)
unfolding take_counts
take_counts-AreInts [] c h = returned c h
take_counts-AreInts ((token, line) ∷ more) c h =
    Returns-if (is_empty token) (take_counts-AreInts more c h) (
      Returns-if (text_eq token (codes "processes"))
        (Returns-bind (run (stoi line)) (Returns-stoi line) λ v p.
          take_counts-AreInts more (record c { processes = v })
            (record { processes = p; running = h.running; blocked = h.blocked }))
        (Returns-if (text_eq token (codes "procs_running"))
          (Returns-bind (run (stoi line)) (Returns-stoi line) λ v p.
            take_counts-AreInts more (record c { running = v })
              (record { processes = h.processes; running = p; blocked = h.blocked }))
          (Returns-if (text_eq token (codes "procs_blocked"))
            (Returns-bind (run (stoi line)) (Returns-stoi line) λ v p.
              take_counts-AreInts more (record c { blocked = v })
                (record { processes = h.processes; running = h.running; blocked = p }))
            (returned c h))))

count_lines-AreInts :
    (lines : List Text) (c : Counts) → AreInts c → Returns AreInts (count_lines lines c)
unfolding count_lines
count_lines-AreInts [] c h = returned c h
count_lines-AreInts (line ∷ lines) c h =
    Returns-bind (take_counts (rounds b' ' line) c) (take_counts-AreInts (rounds b' ' line) c h)
      λ d p. count_lines-AreInts lines d p

no_counts-AreInts : AreInts no_counts
no_counts-AreInts = omega arith

get_process_info-IsEncodable :
    (lines : Option (List Text)) → Returns ProcessLaws.IsEncodable (get_process_info lines)
unfolding get_process_info
get_process_info-IsEncodable Option.none =
    returned (process_message no_counts)
      (record { total = omega arith; running = omega arith; blocked = omega arith; known = refl })
get_process_info-IsEncodable (some lines) =
    Returns-bind (count_lines lines no_counts)
      (count_lines-AreInts lines no_counts no_counts-AreInts)
      λ c p.
        returned (process_message c)
          (record { total = p.processes; running = p.running; blocked = p.blocked; known = refl })

memory_message-IsEncodable : (a : Amounts) → MemoryLaws.IsEncodable (memory_message a)
memory_message-IsEncodable a = record {
  mem_total = to_int32-IsInt32 a.mem_total;
  mem_available = to_int32-IsInt32 a.mem_available;
  mem_free = to_int32-IsInt32 a.mem_free;
  known = refl;
}

every : {A : Type 0} (r : Run A) → Returns (λ a. Unit {0}) r
every r = record { at = λ a e. tt }

get_mem_info-IsEncodable :
    (fuel : ℕ) (lines : Option (List Text))
    → Returns MemoryLaws.IsEncodable (get_mem_info fuel lines)
unfolding get_mem_info
get_mem_info-IsEncodable fuel Option.none =
    returned (memory_message no_amounts) (memory_message-IsEncodable no_amounts)
get_mem_info-IsEncodable fuel (some lines) =
    Returns-bind (read_loop fuel lines no_amounts) (every (read_loop fuel lines no_amounts))
      λ a p. returned (memory_message a) (memory_message-IsEncodable a)

module _ {floats : Floats} (rt : Runtime floats) where
  get_cpu_idle_values-known :
      (fuel : ℕ) (stat : Option (ℕ → List Text)) (count_stat : Option (List Text))
      → Returns (λ c. c.unknown ≡ []) (get_cpu_idle_values floats fuel stat count_stat)
  unfolding get_cpu_idle_values
  get_cpu_idle_values-known fuel stat count_stat =
      Returns-bind (read_idle_values floats fuel stat) (every (read_idle_values floats fuel stat))
        λ v p.
          returned (cpu_message floats v.0 v.1 (get_cpu_count count_stat))
            (unfold cpu_message in refl)

  -- Every report that get_machine_info returns, whatever /proc holds, is one that the wire format
  -- carries unchanged, where the name of the host and the text "ip" are UTF-8 and the two floats of
  -- the processor are no negative zeros: the numbers of memory and processes are in the range of
  -- an int32, by the conversions or by stoi.
  pub get_machine_info-IsSendable :
      (fuel : ℕ) (host : Host rt) (info : MachineInfo rt)
      → ((cpu : Cpu.Cpu floats)
          → get_cpu_idle_values floats fuel host.idle_stat host.count_stat ≡ returns cpu
          → CpuLaws.HasOneZero cpu)
      → rt.is_utf8 (codes "ip") ≡ true
      → rt.is_utf8 host.host_name ≡ true
      → get_machine_info rt fuel host ≡ returns info
      → IsSendable rt info
  unfolding get_machine_info get_system_info
  get_machine_info-IsSendable fuel host info one ip name e = reported.at info e
    where
      cpu_known :
          Returns
            (λ c. (c.unknown ≡ []) × CpuLaws.HasOneZero c)
            (get_cpu_idle_values floats fuel host.idle_stat host.count_stat)
      cpu_known = record {
        at = λ c e.
            ((get_cpu_idle_values-known fuel host.idle_stat host.count_stat).at c e, one c e);
      }

      reported : Returns (IsSendable rt) (get_machine_info rt fuel host)
      reported =
          Returns-bind (get_cpu_idle_values floats fuel host.idle_stat host.count_stat) cpu_known
            λ cpu c.
              Returns-bind (get_mem_info fuel host.meminfo)
                (get_mem_info-IsEncodable fuel host.meminfo)
                λ memory m.
                  Returns-bind (get_process_info host.process_stat)
                    (get_process_info-IsEncodable host.process_stat)
                    λ process p. returned _ (record {
                      machine = record {
                        memory = m;
                        cpu = record { one_zero = c.1; known = c.0 };
                        process = p;
                        systeminfo = record { ip_utf8 = ip; name_utf8 = name; known = refl };
                        known = refl;
                      };
                      known = refl;
                    })
