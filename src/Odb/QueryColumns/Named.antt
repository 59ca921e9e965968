-- ===== src/Odb/QueryColumns/Named.antt =====
-- The columns of a query against the statement that it completes.
use client_server_db.Prelude.{Text, List, [], ◌∷◌, ◌≡◌, refl, Option, map}
use client_server_db.Floats.{Floats}
use client_server_db.Odb.Traits.{Traits}
use client_server_db.Odb.Image.{Image}
use client_server_db.Odb.Binding.{
  BufferType, integer, bigint, real, text, Bind, bind, statement_select,
}
use client_server_db.Odb.Statements.Texts.{quoted}
use client_server_db.Odb.QueryColumns.{
  DatabaseType, id_integer, id_bigint, id_real, id_string, QueryColumn, QueryColumns, query_columns,
}

-- The type of the column that a binding of this type reads.
unfoldable pub database_type_of : BufferType → DatabaseType
database_type_of integer = id_integer
database_type_of bigint = id_bigint
database_type_of real = id_real
database_type_of text = id_string

-- A column of a query without its index.
abbrev pub Named : Type 0
Named = DatabaseType × Text × Text × Option Text

abbrev named : {type : DatabaseType} → QueryColumn type → Named
named {type} c = (type, c.table, c.column, c.conversion)

-- The columns, in the order of the class.
unfoldable pub listed : QueryColumns → List Named
listed q =
    named q.id
    ∷ named q.client_key
    ∷ named q.memory.mem_total
    ∷ named q.memory.mem_available
    ∷ named q.memory.mem_free
    ∷ named q.cpu.idle_time
    ∷ named q.cpu.use_time
    ∷ named q.process.total
    ∷ named q.process.running
    ∷ named q.process.blocked
    ∷ named q.system_info.system_ip
    ∷ named q.system_info.system_name
    ∷ named q.time_stamp
    ∷ []

module _ {floats : Floats} (traits : Traits floats) where
  -- What a query should call the columns that are bound.
  unfoldable pub names_of : Text → List (Bind traits) → List Named
  unfolding database_type_of quoted
  names_of table = map (λ b. (database_type_of b.type, table, quoted b.is_null, Option.none))

  -- For every image and every name of the table: the columns that a query can name are the columns
  -- that the query selects, in their order, each by its name in the statement, of that table, with
  -- the type that is bound and no conversion.
  pub query_columns_lem :
      (table : Text) (i : Image traits)
      → listed (query_columns table) ≡ names_of table (bind traits i statement_select)
  unfolding query_columns listed names_of bind
  query_columns_lem table i = refl
