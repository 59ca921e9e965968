-- ===== src/Tests/Prototype.antt =====
-- The earlier client at a concrete input.
use client_server_db.Prelude.{[], ◌∷◌, ◌<◌, ◌^◌, ◌≡◌, refl, some, codes, arith}
use client_server_db.Prelude.Int.{pos, eqb_ℤ_iff}
use client_server_db.Wire.{Bytes}
use client_server_db.Messages.{
  message_field_size, int32_field_size, float_field_size, string_field_size, unknowns_field_size,
}
use client_server_db.Messages.Memory
use client_server_db.Messages.Cpu
use client_server_db.Messages.Process
use client_server_db.Messages.SystemInfo
use client_server_db.Messages.Machine as MachineMessage
use client_server_db.Messages.MachineInfo.{new_machine_info, byte_size, parse_from_string}
use client_server_db.Messages.MachineInfo.RoundTrip.{IsSendable}
use client_server_db.ClientInfo.Rounds.{returns}
use client_server_db.Prototype.{Http, main}
use client_server_db.Prototype.Same.{as_prototype}
use client_server_db.Prototype.Posted.{main_lem}
use client_server_db.Tests.Runtime.{words, words_laws}
use client_server_db.Tests.Agent.{host, host_info, host_report}

abbrev answering : Http
answering ip path content = some (codes "201 Created", [])

renamed-IsSendable : IsSendable words (as_prototype words (codes "root") host_info)
renamed-IsSendable = record {
  machine = record {
    memory = record {
      mem_total = omega arith;
      mem_available = omega arith;
      mem_free = omega arith;
      known = refl;
    };
    cpu = record {
      one_zero = record {
        idle_time = eqb_ℤ_iff (pos 0) (pos 0);
        use_time = eqb_ℤ_iff (pos 100) (pos 0);
      };
      known = refl;
    };
    process = record {
      total = omega arith;
      running = omega arith;
      blocked = omega arith;
      known = refl;
    };
    systeminfo = record { ip_utf8 = refl; name_utf8 = refl; known = refl };
    known = refl;
  };
  known = refl;
}

renamed_short : byte_size words (as_prototype words (codes "root") host_info) < 2 ^ 31
unfolding byte_size MachineMessage.byte_size Memory.byte_size Cpu.byte_size Process.byte_size
    SystemInfo.byte_size message_field_size int32_field_size float_field_size string_field_size
    unknowns_field_size
renamed_short = omega arith

main_lem_example :
    (content : Bytes) × ((main answering words 5 (some (codes "root")) host).0 ≡ returns tt)
    × ((main answering words 5 (some (codes "root")) host).1.requests
        ≡ (codes "192.168.1.3:9090", codes "/machine?id=123", content) ∷ [])
    × (parse_from_string words content (new_machine_info words)
        ≡ some (as_prototype words (codes "root") host_info))
main_lem_example =
    main_lem words words_laws answering 5 (codes "root") host host_info host_report
      renamed-IsSendable renamed_short
