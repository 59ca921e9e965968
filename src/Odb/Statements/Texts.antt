-- ===== src/Odb/Statements/Texts.antt =====
-- The texts and the types of the statements, against the bindings: what stands for a parameter or a
-- column in the text is what the binding at its place leads to.
use client_server_db.Prelude.{
  ℕ, Text, List, [], ◌∷◌, ◌++◌, ◌+◌, ◌/◌, ◌%◌, ◌≡◌, refl, Option, some, codes, map, length,
  if◌then◌else◌, ltb,
}
use client_server_db.Floats.{Floats}
use client_server_db.Odb.Traits.{Traits}
use client_server_db.Odb.Image.{IdImage, Image}
use client_server_db.Odb.Binding.{
  BufferType, integer, bigint, real, text, Column, id, client_key, mem_total, mem_available,
  mem_free, idle_time, use_time, total, running, blocked, system_ip, system_name, time_stamp, Bind,
  member, bytes, bind, id_bind, statement_select, statement_insert, statement_update,
}
use client_server_db.Odb.Statements.{
  Oid, text_oid, int4_oid, float4_oid, int8_oid, persist_statement, find_statement,
  update_statement, query_statement, erase_statement, erase_query_statement,
  persist_statement_types, find_statement_types, update_statement_types,
}

-- The name of a column in the table `machineinfo` of machine_info.sql.
unfoldable pub column_name : Column → Text
column_name id = codes "id"
column_name client_key = codes "client_key"
column_name mem_total = codes "memory_mem_total"
column_name mem_available = codes "memory_mem_available"
column_name mem_free = codes "memory_mem_free"
column_name idle_time = codes "cpu_idle_time"
column_name use_time = codes "cpu_use_time"
column_name total = codes "process_total"
column_name running = codes "process_running"
column_name blocked = codes "process_blocked"
column_name system_ip = codes "system_info_system_ip"
column_name system_name = codes "system_info_system_name"
column_name time_stamp = codes "time_stamp"

-- The type of a parameter that is bound so.
unfoldable pub oid_of : BufferType → Oid
oid_of integer = int4_oid
oid_of bigint = int8_oid
oid_of real = float4_oid
oid_of text = text_oid

unfoldable pub quoted : Column → Text
unfolding column_name
quoted c = codes "\"" ++ (column_name c ++ codes "\"")

unfoldable qualified : Column → Text
unfolding quoted
qualified c = codes "\"machineinfo\"." ++ quoted c

-- `$n`, for n below 100.
unfoldable parameter : ℕ → Text
parameter n =
    codes "$" ++ (if ltb n 10 then (b'0' + n) ∷ [] else (b'0' + n / 10) ∷ (b'0' + n % 10) ∷ [])

unfoldable comma_separated : List Text → Text
comma_separated [] = []
comma_separated (t ∷ []) = t
comma_separated (t ∷ u ∷ ts) = t ++ (codes ", " ++ comma_separated (u ∷ ts))

-- A text for each column and its number, counted from n on.
unfoldable numbered : (ℕ → Column → Text) → ℕ → List Column → List Text
numbered f n [] = []
numbered f n (c ∷ cs) = f n c ∷ numbered f (n + 1) cs

-- What the statements should say of a list of columns.
unfoldable pub insert_text : List Column → Text
unfolding quoted parameter comma_separated numbered
insert_text cs =
    codes "INSERT INTO \"machineinfo\" ("
    ++ (comma_separated (map quoted (id ∷ cs))
        ++ (codes ") VALUES (DEFAULT, "
            ++ (comma_separated (numbered (λ n c. parameter n) 1 cs)
                ++ codes ") RETURNING \"id\"")))

unfoldable pub update_text : List Column → List Column → Text
unfolding quoted parameter comma_separated numbered
update_text cs ids =
    codes "UPDATE \"machineinfo\" SET "
    ++ (comma_separated (numbered (λ n c. quoted c ++ (codes "=" ++ parameter n)) 1 cs)
        ++ (codes " WHERE "
            ++ comma_separated
                (numbered (λ n c. quoted c ++ (codes "=" ++ parameter n)) (1 + length cs) ids)))

unfoldable pub select_text : List Column → Text
unfolding qualified comma_separated
select_text cs =
    codes "SELECT " ++ (comma_separated (map qualified cs) ++ codes " FROM \"machineinfo\"")

unfoldable pub find_text : List Column → List Column → Text
unfolding select_text qualified parameter comma_separated numbered
find_text cs ids =
    select_text cs
    ++ (codes " WHERE "
        ++ comma_separated (numbered (λ n c. qualified c ++ (codes "=" ++ parameter n)) 1 ids))

unfoldable pub delete_text : List Column → Text
unfolding quoted parameter comma_separated numbered
delete_text ids =
    codes "DELETE FROM \"machineinfo\" WHERE "
    ++ comma_separated (numbered (λ n c. quoted c ++ (codes "=" ++ parameter n)) 1 ids)

-- The columns but for the id, in the order of machine_info.sql.
abbrev pub data_columns : List Column
data_columns =
    client_key ∷ mem_total ∷ mem_available ∷ mem_free ∷ idle_time ∷ use_time ∷ total ∷ running
    ∷ blocked ∷ system_ip ∷ system_name ∷ time_stamp ∷ []

-- The type that a column is bound with, after its type in machine_info.sql.
abbrev pub type_of : Column → BufferType
type_of id = bigint
type_of client_key = text
type_of idle_time = real
type_of use_time = real
type_of system_ip = text
type_of system_name = text
type_of time_stamp = bigint
type_of amount = integer

abbrev pub oids : List Column → List Oid
oids = map (λ c. oid_of (type_of c))

module _ {floats : Floats} (traits : Traits floats) where
  -- How a number is bound: to its own member of the image, and to its own flag.
  abbrev pub wired_number : Column → Bind traits
  wired_number c = record {
    type = type_of c;
    buffer = member c;
    capacity = Option.none;
    size = Option.none;
    is_null = c;
  }

  -- How a text is bound: to the bytes of its buffer and their number, its own size and flag.
  abbrev pub wired_text : Column → traits.Buffer → Bind traits
  wired_text c b = record {
    type = text;
    buffer = bytes (traits.buffer_data b);
    capacity = some (traits.capacity b);
    size = some c;
    is_null = c;
  }

  -- How a column of an image is bound.
  abbrev pub wired : Image traits → Column → Bind traits
  wired i client_key = wired_text client_key i.client_key_value
  wired i system_ip = wired_text system_ip i.system_info_value.system_ip_value
  wired i system_name = wired_text system_name i.system_info_value.system_name_value
  wired i c = wired_number c

  -- For every image. The bindings of an INSERT and an UPDATE lead, in the order of the columns, each
  -- to its column's own value, size and flag in the image, with its type; those of a search have
  -- the id in front, and that of an id leads to the id. The texts of the INSERT, the UPDATE, the
  -- SELECT and the search, and of the DELETE of one id, are written for these columns in this
  -- order, so the parameter $n is the n-th bound column and the n-th selected column goes where the
  -- n-th binding leads; the DELETE of a query has no condition; and the types that the INSERT, the
  -- UPDATE and the search are prepared with are those of the columns.
  pub statements_lem :
      (i : Image traits) (idi : IdImage traits)
      → (bind traits i statement_insert ≡ map (wired i) data_columns)
        × (bind traits i statement_update ≡ map (wired i) data_columns)
        × (bind traits i statement_select ≡ map (wired i) (id ∷ data_columns))
        × (id_bind traits idi ≡ wired_number id ∷ [])
        × (persist_statement.text ≡ insert_text data_columns)
        × (update_statement.text ≡ update_text data_columns (id ∷ []))
        × (query_statement.text ≡ select_text (id ∷ data_columns))
        × (find_statement.text ≡ find_text (id ∷ data_columns) (id ∷ []))
        × (erase_statement.text ≡ delete_text (id ∷ []))
        × (erase_query_statement.text ≡ codes "DELETE FROM \"machineinfo\"")
        × (persist_statement_types ≡ oids data_columns)
        × (update_statement_types ≡ oids (data_columns ++ (id ∷ [])))
        × (find_statement_types ≡ oids (id ∷ []))
  unfolding persist_statement update_statement query_statement find_statement erase_statement
      erase_query_statement insert_text update_text select_text find_text delete_text oid_of bind
      id_bind persist_statement_types update_statement_types find_statement_types
  statements_lem i idi =
      (refl, refl, refl, refl, refl, refl, refl, refl, refl, refl, refl, refl, refl)
