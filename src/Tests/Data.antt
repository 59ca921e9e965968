-- ===== src/Tests/Data.antt =====
-- A report, a client and a server's state for the examples.
use client_server_db.Prelude.{List, [], ◌∷◌, ◌<◌, ◌^◌, refl, some, arith, codes, All, text_eq}
use client_server_db.Prelude.Int.{pos, eqb_ℤ_iff}
use client_server_db.Prelude.Numbers.{stoi, stol}
use client_server_db.Smtp.Dialogue.{Writes}
use client_server_db.Context.{index}
use client_server_db.Prelude.Maps.{find}
use client_server_db.World.{World}
use client_server_db.Messages.{
  message_field_size, int32_field_size, float_field_size, string_field_size, unknowns_field_size,
}
use client_server_db.Messages.Memory
use client_server_db.Messages.Cpu
use client_server_db.Messages.Process
use client_server_db.Messages.SystemInfo
use client_server_db.Messages.Machine as MachineMessage
use client_server_db.Messages.MachineInfo as InfoMessage
use client_server_db.Messages.MachineInfo.RoundTrip.{IsSendable}
use client_server_db.Alerts.Kinds.{Condition, memory, cpu, over, TriggerEvent, Client}
use client_server_db.Alerts.Delivery.Sent.{HasTrigger, HasPort}
use client_server_db.Tests.Runtime.{integers, words, open_network}

abbrev pub report_machine : MachineMessage.Machine words
report_machine = record {
  last_updated = some 1700;
  memory = some (record {
    mem_total = pos 16384;
    mem_available = pos 4096;
    mem_free = pos 2048;
    unknown = [];
  });
  cpu = some (record { idle_time = pos 10; use_time = pos 90; unknown = [] });
  process = some (record { total = pos 4000; running = pos 3; blocked = pos 1; unknown = [] });
  systeminfo = some (record { system_ip = codes "ip"; system_name = codes "alpha"; unknown = [] });
  unknown = [];
}

abbrev pub report : InfoMessage.MachineInfo words
report = record { machine = some report_machine; unknown = [] }

pub report-IsSendable : IsSendable words report
report-IsSendable = record {
  machine = record {
    memory = record {
      mem_total = omega arith;
      mem_available = omega arith;
      mem_free = omega arith;
      known = refl;
    };
    cpu = record {
      one_zero = record {
        idle_time = eqb_ℤ_iff (pos 10) (pos 0);
        use_time = eqb_ℤ_iff (pos 90) (pos 0);
      };
      known = refl;
    };
    process = record {
      total = omega arith;
      running = omega arith;
      blocked = omega arith;
      known = refl;
    };
    systeminfo = record { ip_utf8 = refl; name_utf8 = refl; known = refl };
    known = refl;
  };
  known = refl;
}

pub report_short : InfoMessage.byte_size words report < 2 ^ 31
unfolding InfoMessage.byte_size MachineMessage.byte_size Memory.byte_size Cpu.byte_size
    Process.byte_size SystemInfo.byte_size message_field_size int32_field_size float_field_size
    string_field_size unknowns_field_size
report_short = omega arith

-- A client that is told when the processor is used more than half.
abbrev pub cpu_over : TriggerEvent
cpu_over = record { event = record { alert = cpu; condition = over }; value = codes "50" }

-- An alert that the client list gives a type and no condition.
abbrev pub no_condition : TriggerEvent
no_condition = record { event = record { alert = memory; condition = Condition.none }; value = [] }

abbrev pub watched : List TriggerEvent → Client
watched events = record { key = codes "a1"; email = codes "a@b"; notify_events = events }

abbrev pub serving : Client → World integers
serving c = record {
  config = (codes "mail_server_port", codes "25") ∷ [];
  log = [];
  mails = [];
  rows = [];
  clients = c ∷ [];
  client_map = (codes "a1", c) ∷ [];
}

pub cpu_over-HasTrigger : All HasTrigger (cpu_over ∷ [])
unfolding stoi
cpu_over-HasTrigger = ((pos 50, refl), tt)

pub serving-HasPort : (c : Client) → HasPort (serving c)
unfolding stol index find text_eq
serving-HasPort c = (pos 25, refl)

pub open_network-Writes : Writes open_network
open_network-Writes line = refl
