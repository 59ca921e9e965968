-- ===== src/Odb/Statements.antt =====
-- The statements of the class, the images and bindings that they share, and what the generated code
-- calls of the ODB runtime to execute them.
pub mod Texts
pub mod Synced
use client_server_db.Prelude.{
  ℕ, Text, List, [], ◌∷◌, ◌++◌, ◌+◌, ◌%◌, ◌^◌, Bool, true, false, Option, some, codes, ◌==◌, ◌||◌,
  if◌then◌else◌,
}
use client_server_db.Prelude.Exec.{Outcome}
use client_server_db.Floats.{Floats}
use client_server_db.Odb.Traits.{Traits}
use client_server_db.Odb.Image.{IdImage, Image, changed}
use client_server_db.Odb.Binding.{
  StatementKind, statement_select, statement_insert, statement_update, Bind, bind, id_bind, Flags,
}

-- The type of a parameter.
pub data Oid : Type 0 where
  text_oid int4_oid float4_oid int8_oid : Oid

-- A prepared statement: its name and its text.
pub record Statement : Type 0 where
  pub name : Text
  pub text : Text

unfoldable pub persist_statement : Statement
persist_statement = record {
  name = codes "persist_machineinfo";
  text =
      codes "INSERT INTO \"machineinfo\" (\"id\", \"client_key\", \"memory_mem_total\", "
      ++ (codes
            "\"memory_mem_available\", \"memory_mem_free\", \"cpu_idle_time\", \"cpu_use_time\", "
          ++ (codes "\"process_total\", \"process_running\", \"process_blocked\", "
              ++ (codes
                    "\"system_info_system_ip\", \"system_info_system_name\", \"time_stamp\") VALUES "
                  ++ codes
                      "(DEFAULT, $1, $2, $3, $4, $5, $6, $7, $8, $9, $10, $11, $12) RETURNING \"id\"")));
}

-- The columns of the two statements that select.
abbrev select_columns : Text
select_columns =
    codes "SELECT \"machineinfo\".\"id\", \"machineinfo\".\"client_key\", "
    ++ (codes "\"machineinfo\".\"memory_mem_total\", \"machineinfo\".\"memory_mem_available\", "
        ++ (codes "\"machineinfo\".\"memory_mem_free\", \"machineinfo\".\"cpu_idle_time\", "
            ++ (codes "\"machineinfo\".\"cpu_use_time\", \"machineinfo\".\"process_total\", "
                ++ (codes
                      "\"machineinfo\".\"process_running\", \"machineinfo\".\"process_blocked\", "
                    ++ (codes "\"machineinfo\".\"system_info_system_ip\", "
                        ++ (codes "\"machineinfo\".\"system_info_system_name\", "
                            ++ codes "\"machineinfo\".\"time_stamp\" FROM \"machineinfo\""))))))

unfoldable pub find_statement : Statement
find_statement = record {
  name = codes "find_machineinfo";
  text = select_columns ++ codes " WHERE \"machineinfo\".\"id\"=$1";
}

unfoldable pub update_statement : Statement
update_statement = record {
  name = codes "update_machineinfo";
  text =
      codes "UPDATE \"machineinfo\" SET \"client_key\"=$1, \"memory_mem_total\"=$2, "
      ++ (codes "\"memory_mem_available\"=$3, \"memory_mem_free\"=$4, \"cpu_idle_time\"=$5, "
          ++ (codes "\"cpu_use_time\"=$6, \"process_total\"=$7, \"process_running\"=$8, "
              ++ (codes "\"process_blocked\"=$9, \"system_info_system_ip\"=$10, "
                  ++ codes
                      "\"system_info_system_name\"=$11, \"time_stamp\"=$12 WHERE \"id\"=$13")));
}

unfoldable pub erase_statement : Statement
erase_statement = record {
  name = codes "erase_machineinfo";
  text = codes "DELETE FROM \"machineinfo\" WHERE \"id\"=$1";
}

unfoldable pub query_statement : Statement
query_statement = record { name = codes "query_machineinfo"; text = select_columns }

unfoldable pub erase_query_statement : Statement
erase_query_statement = record {
  name = codes "erase_query_machineinfo";
  text = codes "DELETE FROM \"machineinfo\"";
}

unfoldable pub persist_statement_types : List Oid
persist_statement_types =
    text_oid ∷ int4_oid ∷ int4_oid ∷ int4_oid ∷ float4_oid ∷ float4_oid ∷ int4_oid ∷ int4_oid
    ∷ int4_oid ∷ text_oid ∷ text_oid ∷ int8_oid ∷ []

unfoldable pub find_statement_types : List Oid
find_statement_types = int8_oid ∷ []

unfoldable pub update_statement_types : List Oid
update_statement_types =
    text_oid ∷ int4_oid ∷ int4_oid ∷ int4_oid ∷ float4_oid ∷ float4_oid ∷ int4_oid ∷ int4_oid
    ∷ int4_oid ∷ text_oid ∷ text_oid ∷ int8_oid ∷ int8_oid ∷ []

-- `select_statement::result`
pub data Fetched : Type 0 where
  success no_data truncated : Fetched

module _ {floats : Floats} (traits : Traits floats) where
  -- `pgsql::binding`
  pub record Binding : Type 0 where
    pub bind : List (Bind traits)
    pub version : ℕ

  -- `object_statements<machineinfo>`, less the statements themselves; `lock` is their lock.
  pub record Statements : Type 0 where
    pub image : Image traits
    pub id_image : IdImage traits
    pub insert_image_version : ℕ
    pub insert_image_binding : Binding
    pub update_image_version : ℕ
    pub update_id_image_version : ℕ
    pub update_image_binding : Binding
    pub select_image_version : ℕ
    pub select_image_binding : Binding
    pub select_image_truncated : Flags traits
    pub id_image_version : ℕ
    pub id_image_binding : Binding
    pub lock : traits.Lock

  -- What the runtime and the server do. Each call gets what its statement was made with: the
  -- bindings, and the images that their pointers lead to.
  pub record Driver : Type 1 where
    pub Db : Type 0
    -- Whether `transaction::current ()` finds one.
    pub in_transaction : Db → Bool
    -- `insert_statement::execute`: false where the row is there, and else the image of the new id,
    -- which goes where the last binding leads.
    pub insert :
        Statement
        → List Oid
        → List (Bind traits)
        → Image traits
        → List (Bind traits)
        → Db
        → Outcome (Option (traits.Bigint × Bool)) × Db
    -- `update_statement::execute` and `delete_statement::execute`: the number of rows.
    pub update :
        Statement
        → List Oid
        → List (Bind traits)
        → Image traits
        → List (Bind traits)
        → IdImage traits
        → Db
        → Outcome ℕ × Db
    pub delete : Statement → List (Bind traits) → IdImage traits → Db → Outcome ℕ × Db
    -- `select_statement::execute`, `fetch` and `refetch`.
    pub Cursor : Type 0
    pub select :
        Statement → List Oid → List (Bind traits) → IdImage traits → Db → Outcome Cursor × Db
    pub fetch :
        Cursor
        → List (Bind traits)
        → Image traits
        → Flags traits
        → Fetched × Image traits × Flags traits
    pub refetch : Cursor → List (Bind traits) → Image traits → Flags traits → Image traits
    -- `query_base`, and the two statements that are made for a query.
    pub Query : Type 0
    pub is_empty : Query → Bool
    pub clause : Query → Text
    pub Rows : Type 0
    pub select_query :
        Text → Text → Query → List (Bind traits) → Image traits → Db → Outcome Rows × Db
    pub delete_query : Text → Text → Query → Db → Outcome ℕ × Db

  -- `version++` on a size_t.
  abbrev pub next_version : ℕ → ℕ
  next_version v = (v + 1) % 2 ^ 64

  -- Whether a binding is to be written again: `v != w || b.version == 0`.
  abbrev pub is_stale : ℕ → ℕ → Binding → Bool
  is_stale v w b = changed v w || (b.version == 0)

  abbrev pub rebound : List (Bind traits) → Binding → Binding
  rebound bs b = record { bind = bs; version = next_version b.version }
