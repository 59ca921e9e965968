-- ===== src/Odb/QueryColumns.antt =====
-- `query_columns< ::machineinfo, id_pgsql, A >`: what a query names the columns by.
pub mod Named
use client_server_db.Prelude.{Text, codes, Option}

-- `pgsql::database_type_id`, as far as the class uses it.
pub data DatabaseType : Type 0 where
  id_integer id_bigint id_real id_string : DatabaseType

-- `pgsql::query_column`: the three arguments of its constructor.
pub record QueryColumn (type : DatabaseType) : Type 0 where
  pub table : Text
  pub column : Text
  pub conversion : Option Text

pub record MemoryClass : Type 0 where
  pub mem_total : QueryColumn id_integer
  pub mem_available : QueryColumn id_integer
  pub mem_free : QueryColumn id_integer

pub record CpuClass : Type 0 where
  pub idle_time : QueryColumn id_real
  pub use_time : QueryColumn id_real

pub record ProcessClass : Type 0 where
  pub total : QueryColumn id_integer
  pub running : QueryColumn id_integer
  pub blocked : QueryColumn id_integer

pub record SystemInfoClass : Type 0 where
  pub system_ip : QueryColumn id_string
  pub system_name : QueryColumn id_string

pub record QueryColumns : Type 0 where
  pub id : QueryColumn id_bigint
  pub client_key : QueryColumn id_string
  pub memory : MemoryClass
  pub cpu : CpuClass
  pub process : ProcessClass
  pub system_info : SystemInfoClass
  pub time_stamp : QueryColumn id_bigint

abbrev query_column : (type : DatabaseType) → Text → Text → QueryColumn type
query_column type table column = record { table = table; column = column; conversion = Option.none }

-- The static members, for `A::table_name`.
unfoldable pub query_columns : Text → QueryColumns
query_columns table_name = record {
  id = query_column id_bigint table_name (codes "\"id\"");
  client_key = query_column id_string table_name (codes "\"client_key\"");
  memory = record {
    mem_total = query_column id_integer table_name (codes "\"memory_mem_total\"");
    mem_available = query_column id_integer table_name (codes "\"memory_mem_available\"");
    mem_free = query_column id_integer table_name (codes "\"memory_mem_free\"");
  };
  cpu = record {
    idle_time = query_column id_real table_name (codes "\"cpu_idle_time\"");
    use_time = query_column id_real table_name (codes "\"cpu_use_time\"");
  };
  process = record {
    total = query_column id_integer table_name (codes "\"process_total\"");
    running = query_column id_integer table_name (codes "\"process_running\"");
    blocked = query_column id_integer table_name (codes "\"process_blocked\"");
  };
  system_info = record {
    system_ip = query_column id_string table_name (codes "\"system_info_system_ip\"");
    system_name = query_column id_string table_name (codes "\"system_info_system_name\"");
  };
  time_stamp = query_column id_bigint table_name (codes "\"time_stamp\"");
}

-- `table_name`
unfoldable pub table_name : Text
table_name = codes "\"machineinfo\""
