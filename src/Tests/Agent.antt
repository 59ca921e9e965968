-- ===== src/Tests/Agent.antt =====
-- The properties of the client, of the messages and of the shared parts at concrete inputs.
use client_server_db.Prelude.{
  Text, List, [], ◌∷◌, ◌++◌, ◌<◌, ◌^◌, ◌≡◌, ◌≢◌, refl, true, false, Option, some, arith, codes, map,
  text_eq, length, ◌&&◌,
}
use client_server_db.Prelude.Int.{pos, eqb_ℤ_iff, to_int32}
use client_server_db.Prelude.Exec.{ok, throws, out_of_range}
use client_server_db.Prelude.Numbers.{stoi, stol}
use client_server_db.Prelude.Maps.{find, or_else}
use client_server_db.Context.{Config, load, pairs, index}
use client_server_db.Context.Lookup.{find-load}
use client_server_db.Smtp.{SmtpClient, Network, send, new_client, crlf}
use client_server_db.Smtp.Dialogue.{AllWritten, send_lem, addressed, mail_lines}
use client_server_db.Wire.{Bytes}
use client_server_db.Wire.Loop.{stuck}
use client_server_db.Messages.Cpu as CpuMessage
use client_server_db.Messages.Cpu.Laws as CpuLaws
use client_server_db.Messages.Machine as MachineMessage
use client_server_db.Messages.Machine.Laws as MachineLaws
use client_server_db.Messages.MachineInfo.{
  MachineInfo, new_machine_info, byte_size, serialize_to_string, parse_from_string, merge_partial,
}
use client_server_db.Messages.MachineInfo.Laws.{merge_partial-ne-stuck}
use client_server_db.Messages.MachineInfo.RoundTrip.{
  IsSendable, parse_from_string-serialize_to_string,
}
use client_server_db.ClientInfo.Rounds.{returns, rounds}
use client_server_db.ClientInfo.Memory.{Amounts, get_mem_info, take_rounds, take_amount, read_loop}
use client_server_db.ClientInfo.Stat.{get_cpu_idle_values, get_cpu_count, cpu_message, cpu_idle}
use client_server_db.ClientInfo.Process.{get_process_info, count_lines, take_counts}
use client_server_db.ClientInfo.Report.{Host, get_machine_info, get_system_info}
use client_server_db.ClientInfo.Report.Sendable.{get_machine_info-IsSendable}
use client_server_db.Messages.Memory
use client_server_db.Messages.Process
use client_server_db.Messages.SystemInfo
use client_server_db.Messages.{
  message_field_size, int32_field_size, float_field_size, string_field_size, unknowns_field_size,
}
use client_server_db.Upload.{Server, new_server, Agent, Http, round}
use client_server_db.Upload.Rounds.{IsFree, new_server_lem, round_lem}
use client_server_db.Tests.Runtime.{integers, words, words_laws, open_network}
use client_server_db.Tests.Trees.{pages, Page}
use client_server_db.Tests.Data.{report, report_machine, report-IsSendable, report_short}

parse_from_string-serialize_to_string_example :
    (bs : Bytes) × (serialize_to_string words report ≡ some bs)
    × (length bs ≡ byte_size words report)
    × (parse_from_string words bs (new_machine_info words) ≡ some report)
parse_from_string-serialize_to_string_example =
    parse_from_string-serialize_to_string words words_laws report (new_machine_info words)
      report-IsSendable report_short

length-serialize_example :
    length (MachineMessage.serialize words report_machine)
    ≡ MachineMessage.byte_size words report_machine
length-serialize_example = MachineLaws.length-serialize words words_laws report_machine

merge_partial-ne-stuck_example :
    ((m : MachineInfo words) → merge_partial words (8 ∷ 82 ∷ 3 ∷ 1 ∷ []) m ≢ stuck)
    × ((m : MachineMessage.Machine words)
        → MachineMessage.merge_partial words (8 ∷ 82 ∷ 3 ∷ 1 ∷ []) m ≢ stuck)
    × ((m : Memory.Memory) → Memory.merge_partial words (8 ∷ 82 ∷ 3 ∷ 1 ∷ []) m ≢ stuck)
    × ((m : CpuMessage.Cpu integers)
        → CpuMessage.merge_partial words (8 ∷ 82 ∷ 3 ∷ 1 ∷ []) m ≢ stuck)
    × ((m : Process.Process) → Process.merge_partial words (8 ∷ 82 ∷ 3 ∷ 1 ∷ []) m ≢ stuck)
    × ((m : SystemInfo.SystemInfo) → SystemInfo.merge_partial words (8 ∷ 82 ∷ 3 ∷ 1 ∷ []) m ≢ stuck)
merge_partial-ne-stuck_example = merge_partial-ne-stuck words words_laws (8 ∷ 82 ∷ 3 ∷ 1 ∷ [])

pub integers-HasOneZero : (c : CpuMessage.Cpu integers) → CpuLaws.HasOneZero c
integers-HasOneZero c = record {
  idle_time = eqb_ℤ_iff c.idle_time (pos 0);
  use_time = eqb_ℤ_iff c.use_time (pos 0);
}

abbrev meminfo : List Text
meminfo = codes "MemTotal: 16 kB" ∷ codes "MemFree: 4 kB" ∷ codes "MemAvailable: 8 kB" ∷ []

abbrev amounts : Amounts
amounts = record { mem_total = pos 16; mem_available = pos 8; mem_free = pos 4 }

abbrev pub host : Host words
host = record {
  meminfo = some meminfo;
  idle_stat = Option.none;
  count_stat = some (codes "cpu  1 2 3 4 5" ∷ codes "cpu0 1 2 3 4 5" ∷ []);
  process_stat = some (codes "processes 40" ∷ codes "procs_running 2" ∷ []);
  host_name = codes "alpha";
  now = 1700;
}

abbrev pub host_info : MachineInfo words
host_info = record {
  machine = some (record {
    last_updated = some 1700;
    memory =
        some (record { mem_total = pos 16; mem_available = pos 8; mem_free = pos 4; unknown = [] });
    cpu = some (record { idle_time = pos 0; use_time = pos 100; unknown = [] });
    process = some (record { total = pos 40; running = pos 2; blocked = pos 0; unknown = [] });
    systeminfo =
        some (record { system_ip = codes "ip"; system_name = codes "alpha"; unknown = [] });
    unknown = [];
  });
  unknown = [];
}

pub host_report : get_machine_info words 5 host ≡ returns host_info
unfolding get_machine_info get_system_info get_process_info count_lines take_counts get_mem_info
    read_loop take_rounds take_amount get_cpu_idle_values cpu_message cpu_idle get_cpu_count rounds
    text_eq stol stoi to_int32
host_report = refl

get_machine_info-IsSendable_example : IsSendable words host_info
get_machine_info-IsSendable_example =
    get_machine_info-IsSendable words 5 host host_info (λ cpu e. integers-HasOneZero cpu) refl refl
      host_report

find-load_example :
    (find (codes "port") (load pages Option.none ((codes "port", codes "80") ∷ []))
      ≡ find (codes "port") ((codes "port", codes "80") ∷ []))
    × (pages.read_json (codes "x") ≡ Option.none
        → find (codes "port") (load pages (some (codes "x")) ((codes "port", codes "80") ∷ []))
          ≡ find (codes "port") ((codes "port", codes "80") ∷ []))
    × ((tree : Page)
        → pages.read_json (codes "x") ≡ some tree
        → find (codes "port") (load pages (some (codes "x")) ((codes "port", codes "80") ∷ []))
          ≡ or_else
              (find (codes "port") ((codes "port", codes "80") ∷ []))
              (find (codes "port") (pairs pages (pages.children tree))))
find-load_example = find-load pages (codes "port") (codes "x") ((codes "port", codes "80") ∷ [])

abbrev addressee : SmtpClient
addressee =
    addressed open_network (codes "mail") 25 (codes "u") (codes "p") (codes "a@b") (codes "c@d")
      (codes "Hi") (codes "there")

abbrev lines_for : Network → List Text
lines_for net =
    mail_lines net (codes "mail") 25 (codes "u") (codes "p") (codes "a@b") (codes "c@d")
      (codes "Hi") (codes "there")

send_lem_example :
    (((open_network.resolves (codes "mail") 25 && open_network.connects (codes "mail") 25) ≡ false)
      → send open_network
          (codes "a@b")
          (codes "c@d")
          (codes "Hi")
          (codes "there")
          (new_client (codes "mail") 25 (codes "u") (codes "p"))
        ≡ (ok true, record addressee { has_error = true }))
    × (open_network.resolves (codes "mail") 25 ≡ true
        → open_network.connects (codes "mail") 25 ≡ true
        → AllWritten open_network (lines_for open_network)
        → send open_network
            (codes "a@b")
            (codes "c@d")
            (codes "Hi")
            (codes "there")
            (new_client (codes "mail") 25 (codes "u") (codes "p"))
          ≡ (
            ok false,
            record addressee { sent = map (λ line. line ++ crlf) (lines_for open_network) },
          ))
send_lem_example =
    send_lem open_network (codes "mail") 25 (codes "u") (codes "p") (codes "a@b") (codes "c@d")
      (codes "Hi") (codes "there")

abbrev settings : Config
settings =
    (codes "host", codes "10.0.0.1")
    ∷ (codes "port", codes "80")
    ∷ (codes "url", codes "/machine/@")
    ∷ (codes "client_id", codes "a1")
    ∷ []

new_server_lem_example :
    ((front rest : Text)
      → (index (codes "url") settings).0 ≡ front ++ (b'@' ∷ rest)
      → IsFree b'@' front
      → (new_server settings).0
        ≡ ok (record {
          m_ip = (index (codes "host") settings).0;
          m_port = (index (codes "port") settings).0;
          m_url = front ++ (index (codes "client_id") settings).0;
        }))
    × (IsFree b'@' (index (codes "url") settings).0 → (new_server settings).0 ≡ throws out_of_range)
new_server_lem_example = new_server_lem settings

abbrev target : Server
target = record { m_ip = codes "10.0.0.1"; m_port = codes "80"; m_url = codes "/machine/a1" }

abbrev idle_agent : Agent
idle_agent = record { config = settings; log = []; requests = [] }

abbrev created : Http
created ip path content = some (codes "201 Created")

pub host_short : byte_size words host_info < 2 ^ 31
unfolding byte_size MachineMessage.byte_size Memory.byte_size CpuMessage.byte_size Process.byte_size
    SystemInfo.byte_size message_field_size int32_field_size float_field_size string_field_size
    unknowns_field_size
host_short = omega arith

round_lem_example :
    (content : Bytes) × ((round created words target 5 host idle_agent).1.requests
      ≡ [] ++ ((codes "10.0.0.1" ++ (codes ":" ++ codes "80"), codes "/machine/a1", content) ∷ []))
    × (parse_from_string words content (new_machine_info words) ≡ some host_info)
round_lem_example =
    round_lem words words_laws created target 5 host host_info idle_agent host_report
      (get_machine_info-IsSendable words 5 host host_info (λ cpu e. integers-HasOneZero cpu) refl
        refl host_report)
      host_short
