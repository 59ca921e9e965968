-- ===== src/Tests/Postgres.antt =====
-- A concrete ODB runtime and server for the examples, with their laws: numbers are their own
-- images, a buffer moves where it has to grow, and the table is a function.
pub mod Answers
pub mod Data
use client_server_db.Prelude.{
  ℕ, Text, List, [], ◌+◌, ◌^◌, ◌<◌, ◌≤◌, ◌≡◌, refl, sym, Bool, true, false, not, Option, some,
  arith, length, leb, ltb, ◌==◌, if◌then◌else◌, Bool-cases, inl, inr,
}
use client_server_db.Prelude.Exec.{Outcome, ok, throws, database_exception}
use client_server_db.Prelude.Int.{ℤ}
use client_server_db.Machine.{MachineInfo}
use client_server_db.Odb.Traits.{Traits}
use client_server_db.Odb.Traits.Laws.{Laws}
use client_server_db.Odb.Image.{Object, IdImage, Image, of_image, id_of_id_image}
use client_server_db.Odb.Binding.{Flags}
use client_server_db.Odb.Statements.{Driver, Fetched, success, no_data, truncated}
use client_server_db.Odb.Table.{Table, put, remove, replace, count, object}
use client_server_db.Tests.Runtime.{integers}

-- Where the bytes are, how many there is room for, and the bytes.
pub record Buffer : Type 0 where
  pub address : ℕ
  pub room : ℕ
  pub content : Text

abbrev pub make_room : Buffer → ℕ → Buffer
make_room b n =
    if leb n b.room then b else record { address = b.address + 1; room = n; content = b.content }

abbrev pub write : Buffer → Text → Buffer
write b s = record { address = b.address; room = b.room; content = s }

abbrev pub plain : Traits integers
plain = record {
  Integer = ℤ;
  Real = ℤ;
  Bigint = ℕ;
  integer_image = λ z. (z, false);
  integer_value = λ z null. z;
  real_image = λ z. (z, false);
  real_value = λ z null. z;
  bigint_image = λ n. (n, false);
  bigint_value = λ n null. n;
  Buffer = Buffer;
  Address = ℕ;
  buffer_data = λ b. b.address;
  capacity = λ b. b.room;
  reserve = make_room;
  string_image = λ b s. (write (make_room b (length s)) s, length s, false);
  string_value = λ b size null. b.content;
  Lock = Bool;
  is_locked = λ l. l;
  auto_lock = λ l. (true, not l);
  unlock = λ l got. if got then false else l;
}

pub plain_laws : Laws plain
plain_laws = record {
  integer_image_value = λ z h. refl;
  real_image_value = λ z. refl;
  bigint_image_value = λ n h. refl;
  string_image_value = λ b s. refl;
  string_image_data = λ b s h. ground arith;
  capacity-reserve = λ b n. ground arith;
  auto_lock_free = λ l h. ground arith;
  unlock_free = λ l h. refl;
}

-- The table, the number for the next row, and what the server is ready for.
pub record Connection : Type 0 where
  pub table : Table integers
  pub next : ℕ
  pub begun : Bool
  pub up : Bool

abbrev pub insert_row :
    Option (MachineInfo integers)
    → Bool
    → Image plain
    → Connection
    → Outcome (Option (ℕ × Bool)) × Connection
insert_row Option.none true im d = (
  ok (some (d.next, false)),
  record d { table = put d.next (of_image plain im).info d.table; next = d.next + 1 },
)
insert_row Option.none false im d = (throws database_exception, d)
insert_row (some info) b im d = (throws database_exception, d)

-- Whether a text is cut, and the buffer after a fetch of it.
abbrev pub cut : Text → Buffer → Bool
cut s b = not (leb (length s) b.room)

abbrev pub write_fitting : Text → Buffer → Buffer
write_fitting s b = if leb (length s) b.room then write b s else b

abbrev pub flags_of : Bool → Bool → Bool → Flags plain
flags_of key ip name n =
    if n == 1 then key else if n == 10 then ip else if n == 11 then name else false

abbrev pub fetch_object : Object integers → Image plain → Image plain
fetch_object o im = record im {
  id_value = o.id_;
  client_key_value = write_fitting o.info.client_key im.client_key_value;
  client_key_size = length o.info.client_key;
  memory_value = record im.memory_value {
    mem_total_value = o.info.memory.mem_total;
    mem_available_value = o.info.memory.mem_available;
    mem_free_value = o.info.memory.mem_free;
  };
  cpu_value = record im.cpu_value {
    idle_time_value = o.info.cpu.idle_time;
    use_time_value = o.info.cpu.use_time;
  };
  process_value = record im.process_value {
    total_value = o.info.process.total;
    running_value = o.info.process.running;
    blocked_value = o.info.process.blocked;
  };
  system_info_value = record im.system_info_value {
    system_ip_value =
        write_fitting o.info.system_info.system_ip im.system_info_value.system_ip_value;
    system_ip_size = length o.info.system_info.system_ip;
    system_name_value =
        write_fitting o.info.system_info.system_name im.system_info_value.system_name_value;
    system_name_size = length o.info.system_info.system_name;
  };
  time_stamp_value = o.info.time_stamp;
}

abbrev pub fetch_from :
    Option (Object integers) → Image plain → Flags plain → Fetched × Image plain × Flags plain
fetch_from Option.none im t = (no_data, im, t)
fetch_from (some o) im t =
    let key = cut o.info.client_key im.client_key_value in
    let ip = cut o.info.system_info.system_ip im.system_info_value.system_ip_value in
    let name = cut o.info.system_info.system_name im.system_info_value.system_name_value in
    (
      if (if key then true else if ip then true else name) then truncated else success,
      fetch_object o im,
      flags_of key ip name,
    )

-- The columns that were cut are fetched again.
abbrev pub refetch_from : Option (Object integers) → Image plain → Flags plain → Image plain
refetch_from Option.none im t = im
refetch_from (some o) im t = record im {
  client_key_value =
      if t 1 then write im.client_key_value o.info.client_key else im.client_key_value;
  system_info_value = record im.system_info_value {
    system_ip_value =
        if t 10
        then write im.system_info_value.system_ip_value o.info.system_info.system_ip
        else im.system_info_value.system_ip_value;
    system_name_value =
        if t 11
        then write im.system_info_value.system_name_value o.info.system_info.system_name
        else im.system_info_value.system_name_value;
  };
}

abbrev pub local : Driver plain
local = record {
  Db = Connection;
  in_transaction = λ d. d.begun;
  insert = λ st types bs im ids d. insert_row (d.table d.next) (ltb d.next (2 ^ 64)) im d;
  update = λ st types bs im ids idi d.
      if d.up
      then (
        ok (count (d.table (id_of_id_image plain idi))),
        record d { table = replace (id_of_id_image plain idi) (of_image plain im).info d.table },
      )
      else (throws database_exception, d);
  delete = λ st ids idi d.
      if d.up
      then (
        ok (count (d.table (id_of_id_image plain idi))),
        record d { table = remove (id_of_id_image plain idi) d.table },
      )
      else (throws database_exception, d);
  Cursor = Option (Object integers);
  select = λ st types ids idi d.
      if d.up
      then (ok (object (id_of_id_image plain idi) (d.table (id_of_id_image plain idi))), d)
      else (throws database_exception, d);
  fetch = λ c bs im t. fetch_from c im t;
  refetch = λ c bs im t. refetch_from c im t;
  Query = Text;
  is_empty = λ q. leb (length q) 0;
  clause = λ q. q;
  Rows = Text;
  select_query = λ name text q bs im d. (ok text, d);
  delete_query = λ name text q d. (ok 0, d);
}
