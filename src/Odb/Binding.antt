-- ===== src/Odb/Binding.antt =====
-- `bind`, which tells a statement where the members of an image are, and `grow`, which makes room
-- in the buffers whose flag says that a result was truncated.
use client_server_db.Prelude.{
  ℕ, List, [], ◌∷◌, ◌++◌, ◌+◌, Bool, true, false, Option, some, ◌==◌, ◌||◌, if◌then◌else◌,
}
use client_server_db.Floats.{Floats}
use client_server_db.Odb.Traits.{Traits}
use client_server_db.Odb.Image.{
  MemoryImage, CpuImage, ProcessImage, SystemInfoImage, IdImage, Image,
}

-- `pgsql::statement_kind`
pub data StatementKind : Type 0 where
  statement_select statement_insert statement_update statement_delete : StatementKind

-- `pgsql::bind::buffer_type`, as far as the class uses it.
pub data BufferType : Type 0 where
  integer bigint real text : BufferType

-- The columns, for the members of an image.
pub data Column : Type 0 where
  id client_key mem_total mem_available mem_free idle_time use_time : Column
  total running blocked system_ip system_name time_stamp : Column

module _ {floats : Floats} (traits : Traits floats) where
  open traits use {Address, buffer_data, capacity, reserve}

  -- A pointer to a column's value in the image, or to the bytes of a buffer.
  pub data Pointer : Type 0 where
    member : Column → Pointer
    bytes : Address → Pointer

  -- `pgsql::bind`. Its pointers to the size and to `is_null` go to the column's members, which do
  -- not move, so the column stands for them; the capacity and the size are written for texts only.
  pub record Bind : Type 0 where
    pub type : BufferType
    pub buffer : Pointer
    pub capacity : Option ℕ
    pub size : Option Column
    pub is_null : Column

  -- The three assignments for a number.
  abbrev pub number : BufferType → Column → Bind
  number type c = record {
    type = type;
    buffer = member c;
    capacity = Option.none;
    size = Option.none;
    is_null = c;
  }

  -- The five assignments for a text.
  abbrev pub texts : Column → traits.Buffer → Bind
  texts c b = record {
    type = text;
    buffer = bytes (buffer_data b);
    capacity = some (traits.capacity b);
    size = some c;
    is_null = c;
  }

  unfoldable pub memory_bind : MemoryImage traits → StatementKind → List Bind
  memory_bind i sk =
      number integer mem_total ∷ number integer mem_available ∷ number integer mem_free ∷ []

  unfoldable pub cpu_bind : CpuImage traits → StatementKind → List Bind
  cpu_bind i sk = number real idle_time ∷ number real use_time ∷ []

  unfoldable pub process_bind : ProcessImage traits → StatementKind → List Bind
  process_bind i sk = number integer total ∷ number integer running ∷ number integer blocked ∷ []

  unfoldable pub system_info_bind : SystemInfoImage traits → StatementKind → List Bind
  system_info_bind i sk =
      texts system_ip i.system_ip_value ∷ texts system_name i.system_name_value ∷ []

  -- `sk != statement_insert && sk != statement_update`
  abbrev pub binds_id : StatementKind → Bool
  binds_id statement_insert = false
  binds_id statement_update = false
  binds_id other = true

  -- `bind` of the object: what is written to the array from its start.
  unfoldable pub bind : Image traits → StatementKind → List Bind
  unfolding memory_bind cpu_bind process_bind system_info_bind
  bind i sk =
      (if binds_id sk then number bigint id ∷ [] else [])
      ++ (texts client_key i.client_key_value
          ∷ (memory_bind i.memory_value sk
              ++ (cpu_bind i.cpu_value sk
                  ++ (process_bind i.process_value sk
                      ++ (system_info_bind i.system_info_value sk
                          ++ (number bigint time_stamp ∷ []))))))

  -- `bind (pgsql::bind*, id_image_type&)`
  unfoldable pub id_bind : IdImage traits → List Bind
  id_bind i = number bigint id ∷ []

  -- The array of flags that `grow` gets, and a write of 0 to it. A value gets the array from its
  -- first column on: `t + n`.
  abbrev pub Flags : Type 0
  Flags = ℕ → Bool

  abbrev pub clear_flag : ℕ → Flags → Flags
  clear_flag n t k = if n == k then false else t k

  -- `grow`: the image, the flags, and whether a buffer grew.
  unfoldable pub memory_grow : MemoryImage traits → ℕ → Flags → MemoryImage traits × Flags × Bool
  memory_grow i n t = (i, clear_flag (n + 2) (clear_flag (n + 1) (clear_flag n t)), false)

  unfoldable pub cpu_grow : CpuImage traits → ℕ → Flags → CpuImage traits × Flags × Bool
  cpu_grow i n t = (i, clear_flag (n + 1) (clear_flag n t), false)

  unfoldable pub process_grow : ProcessImage traits → ℕ → Flags → ProcessImage traits × Flags × Bool
  process_grow i n t = (i, clear_flag (n + 2) (clear_flag (n + 1) (clear_flag n t)), false)

  -- `if (t[n]) { value.capacity (size); grew = true; }`
  abbrev pub reserve_if : Bool → ℕ → traits.Buffer → traits.Buffer
  reserve_if true size b = reserve b size
  reserve_if false size b = b

  unfoldable pub system_info_grow :
      SystemInfoImage traits → ℕ → Flags → SystemInfoImage traits × Flags × Bool
  system_info_grow i n t = (
    record i {
      system_ip_value = reserve_if (t n) i.system_ip_size i.system_ip_value;
      system_name_value = reserve_if (t (n + 1)) i.system_name_size i.system_name_value;
    },
    t,
    t n || t (n + 1),
  )

  unfoldable pub grow : Image traits → Flags → Image traits × Flags × Bool
  unfolding memory_grow cpu_grow process_grow system_info_grow
  grow i t =
      let t1 = clear_flag 0 t in
      let key_grew = t1 1 in
      let (memory, t2, memory_grew) = memory_grow i.memory_value 2 t1 in
      let (cpu, t3, cpu_grew) = cpu_grow i.cpu_value 5 t2 in
      let (process, t4, process_grew) = process_grow i.process_value 7 t3 in
      let (system_info, t5, system_info_grew) = system_info_grow i.system_info_value 10 t4 in
      (
        record i {
          client_key_value = reserve_if key_grew i.client_key_size i.client_key_value;
          memory_value = memory;
          cpu_value = cpu;
          process_value = process;
          system_info_value = system_info;
        },
        clear_flag 12 t5,
        (((key_grew || memory_grew) || cpu_grew) || process_grew) || system_info_grew,
      )
