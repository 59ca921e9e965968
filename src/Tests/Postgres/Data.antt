-- ===== src/Tests/Postgres/Data.antt =====
-- A report, and a session that has not executed a statement yet, with buffers that are too small
-- for what comes: on a table with no row, and on one with the row 7.
use client_server_db.Prelude.{[], refl, true, false, Option, codes, arith}
use client_server_db.Prelude.Int.{pos}
use client_server_db.Machine.{MachineInfo}
use client_server_db.Odb.Image.{Object, Image}
use client_server_db.Odb.Image.RoundTrip.{IsStorable}
use client_server_db.Odb.Statements.{Statements, Binding}
use client_server_db.Odb.Statements.Synced.{IsSynced}
use client_server_db.Odb.Object.{Session}
use client_server_db.Odb.Table.{Table, put}
use client_server_db.Odb.Table.Sequences.{IsIdle}
use client_server_db.Tests.Runtime.{integers}
use client_server_db.Tests.Postgres.{Buffer, plain, local}

abbrev pub info : MachineInfo integers
info = record {
  client_key = codes "key";
  memory = record { mem_total = pos 16384; mem_available = pos 4096; mem_free = pos 2048 };
  cpu = record { idle_time = pos 10; use_time = pos 90 };
  process = record { total = pos 400; running = pos 3; blocked = pos 1 };
  system_info = record { system_ip = codes "10.0.0.7"; system_name = codes "alpha" };
  time_stamp = 1700;
}

abbrev pub report : Object integers
report = record { id_ = 0; info = info }

pub info-IsStorable : IsStorable info
info-IsStorable = record {
  mem_total = omega arith;
  mem_available = omega arith;
  mem_free = omega arith;
  total = omega arith;
  running = omega arith;
  blocked = omega arith;
  time_stamp = omega arith;
}

abbrev pub small_buffer : Buffer
small_buffer = record { address = 0; room = 2; content = [] }

abbrev pub blank : Image plain
blank = record {
  id_value = 0;
  id_null = false;
  client_key_value = small_buffer;
  client_key_size = 0;
  client_key_null = false;
  memory_value = record {
    mem_total_value = pos 0;
    mem_total_null = false;
    mem_available_value = pos 0;
    mem_available_null = false;
    mem_free_value = pos 0;
    mem_free_null = false;
  };
  cpu_value = record {
    idle_time_value = pos 0;
    idle_time_null = false;
    use_time_value = pos 0;
    use_time_null = false;
  };
  process_value = record {
    total_value = pos 0;
    total_null = false;
    running_value = pos 0;
    running_null = false;
    blocked_value = pos 0;
    blocked_null = false;
  };
  system_info_value = record {
    system_ip_value = small_buffer;
    system_ip_size = 0;
    system_ip_null = false;
    system_name_value = small_buffer;
    system_name_size = 0;
    system_name_null = false;
  };
  time_stamp_value = 0;
  time_stamp_null = false;
  version = 0;
}

abbrev pub unbound : Binding plain
unbound = record { bind = []; version = 0 }

abbrev pub new_statements : Statements plain
new_statements = record {
  image = blank;
  id_image = record { id_value = 0; id_null = false; version = 0 };
  insert_image_version = 0;
  insert_image_binding = unbound;
  update_image_version = 0;
  update_id_image_version = 0;
  update_image_binding = unbound;
  select_image_version = 0;
  select_image_binding = unbound;
  select_image_truncated = λ n. false;
  id_image_version = 0;
  id_image_binding = unbound;
  lock = false;
}

pub new_statements-IsSynced : IsSynced plain new_statements
new_statements-IsSynced = record {
  insert = record { no_later = omega arith; leads = λ h e. elim (h refl) [ ] };
  update = record { no_later = omega arith; leads = λ h e. elim (h refl) [ ] };
  select = record { no_later = omega arith; leads = λ h e. elim (h refl) [ ] };
  ids = λ h. elim (h refl) [ ];
}

abbrev pub one_row : Table integers
one_row = put 7 info (λ k. Option.none)

abbrev pub session : Session local
session = record {
  statements = new_statements;
  db = record { table = λ k. Option.none; next = 7; begun = true; up = true };
}

abbrev pub session_of_row : Session local
session_of_row = record session {
  db = record { table = one_row; next = 8; begun = true; up = true };
}

abbrev pub row_report : Object integers
row_report = record { id_ = 7; info = info }

pub session-IsIdle : IsIdle local 2 session
session-IsIdle = record {
  in_transaction = refl;
  unlocked = refl;
  synced = new_statements-IsSynced;
  version = omega arith;
}

pub session_of_row-IsIdle : IsIdle local 2 session_of_row
session_of_row-IsIdle = record {
  in_transaction = refl;
  unlocked = refl;
  synced = new_statements-IsSynced;
  version = omega arith;
}
