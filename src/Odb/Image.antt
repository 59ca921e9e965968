-- ===== src/Odb/Image.antt =====
-- The images of the objects: what the statements read their parameters from and write their results
-- to, and the two directions of `init`.
pub mod RoundTrip
use client_server_db.Prelude.{ℕ, Bool, true, false, not, ◌&&◌, ◌||◌, ◌==◌}
use client_server_db.Floats.{Floats}
use client_server_db.Machine
use client_server_db.Machine.{MachineInfo}
use client_server_db.Odb.Traits.{Traits}

-- The class `machineinfo` with `id_`.
pub record Object (floats : Floats) : Type 0 where
  pub id_ : ℕ
  pub info : MachineInfo floats

-- `a != b` of two numbers.
abbrev pub changed : ℕ → ℕ → Bool
changed a b = not (a == b)

module _ {floats : Floats} (traits : Traits floats) where
  open traits use {
    Integer, Real, Bigint, Buffer, integer_image, integer_value, real_image, real_value,
    bigint_image, bigint_value, capacity, string_image, string_value,
  }

  -- `composite_value_traits< ::Memory, id_pgsql >::image_type`
  pub record MemoryImage : Type 0 where
    pub mem_total_value : Integer
    pub mem_total_null : Bool
    pub mem_available_value : Integer
    pub mem_available_null : Bool
    pub mem_free_value : Integer
    pub mem_free_null : Bool

  -- `composite_value_traits< ::CPU, id_pgsql >::image_type`
  pub record CpuImage : Type 0 where
    pub idle_time_value : Real
    pub idle_time_null : Bool
    pub use_time_value : Real
    pub use_time_null : Bool

  -- `composite_value_traits< ::Process, id_pgsql >::image_type`
  pub record ProcessImage : Type 0 where
    pub total_value : Integer
    pub total_null : Bool
    pub running_value : Integer
    pub running_null : Bool
    pub blocked_value : Integer
    pub blocked_null : Bool

  -- `composite_value_traits< ::SystemInfo, id_pgsql >::image_type`
  pub record SystemInfoImage : Type 0 where
    pub system_ip_value : Buffer
    pub system_ip_size : ℕ
    pub system_ip_null : Bool
    pub system_name_value : Buffer
    pub system_name_size : ℕ
    pub system_name_null : Bool

  -- `object_traits_impl< ::machineinfo, id_pgsql >::id_image_type`
  pub record IdImage : Type 0 where
    pub id_value : Bigint
    pub id_null : Bool
    pub version : ℕ

  -- `object_traits_impl< ::machineinfo, id_pgsql >::image_type`
  pub record Image : Type 0 where
    pub id_value : Bigint
    pub id_null : Bool
    pub client_key_value : Buffer
    pub client_key_size : ℕ
    pub client_key_null : Bool
    pub memory_value : MemoryImage
    pub cpu_value : CpuImage
    pub process_value : ProcessImage
    pub system_info_value : SystemInfoImage
    pub time_stamp_value : Bigint
    pub time_stamp_null : Bool
    pub version : ℕ

  -- `get_null` of each value: every column of it is null.
  unfoldable pub memory_get_null : MemoryImage → Bool
  memory_get_null i = ((true && i.mem_total_null) && i.mem_available_null) && i.mem_free_null

  unfoldable pub cpu_get_null : CpuImage → Bool
  cpu_get_null i = (true && i.idle_time_null) && i.use_time_null

  unfoldable pub process_get_null : ProcessImage → Bool
  process_get_null i = ((true && i.total_null) && i.running_null) && i.blocked_null

  unfoldable pub system_info_get_null : SystemInfoImage → Bool
  system_info_get_null i = (true && i.system_ip_null) && i.system_name_null

  -- `set_null` of each value.
  unfoldable pub memory_set_null : MemoryImage → MemoryImage
  memory_set_null i = record i {
    mem_total_null = true;
    mem_available_null = true;
    mem_free_null = true;
  }

  unfoldable pub cpu_set_null : CpuImage → CpuImage
  cpu_set_null i = record i { idle_time_null = true; use_time_null = true }

  unfoldable pub process_set_null : ProcessImage → ProcessImage
  process_set_null i = record i { total_null = true; running_null = true; blocked_null = true }

  unfoldable pub system_info_set_null : SystemInfoImage → SystemInfoImage
  system_info_set_null i = record i { system_ip_null = true; system_name_null = true }

  -- `init (image_type&, const value_type&, statement_kind)`: the image, and whether a buffer grew.
  unfoldable pub memory_to_image : MemoryImage → Machine.Memory → MemoryImage × Bool
  memory_to_image i o = (
    record i {
      mem_total_value = (integer_image o.mem_total).0;
      mem_total_null = (integer_image o.mem_total).1;
      mem_available_value = (integer_image o.mem_available).0;
      mem_available_null = (integer_image o.mem_available).1;
      mem_free_value = (integer_image o.mem_free).0;
      mem_free_null = (integer_image o.mem_free).1;
    },
    false,
  )

  unfoldable pub cpu_to_image : CpuImage → Machine.Cpu floats → CpuImage × Bool
  cpu_to_image i o = (
    record i {
      idle_time_value = (real_image o.idle_time).0;
      idle_time_null = (real_image o.idle_time).1;
      use_time_value = (real_image o.use_time).0;
      use_time_null = (real_image o.use_time).1;
    },
    false,
  )

  unfoldable pub process_to_image : ProcessImage → Machine.Process → ProcessImage × Bool
  process_to_image i o = (
    record i {
      total_value = (integer_image o.total).0;
      total_null = (integer_image o.total).1;
      running_value = (integer_image o.running).0;
      running_null = (integer_image o.running).1;
      blocked_value = (integer_image o.blocked).0;
      blocked_null = (integer_image o.blocked).1;
    },
    false,
  )

  unfoldable pub system_info_to_image :
      SystemInfoImage → Machine.SystemInfo → SystemInfoImage × Bool
  system_info_to_image i o =
      let (ip, ip_size, ip_null) = string_image i.system_ip_value o.system_ip in
      let (name, name_size, name_null) = string_image i.system_name_value o.system_name in
      (
        record i {
          system_ip_value = ip;
          system_ip_size = ip_size;
          system_ip_null = ip_null;
          system_name_value = name;
          system_name_size = name_size;
          system_name_null = name_null;
        },
        (false || changed (capacity i.system_ip_value) (capacity ip))
            || changed (capacity i.system_name_value) (capacity name),
      )

  -- The same for the object. What `init` answers for the values with no buffer is not looked at.
  unfoldable pub to_image : Image → Object floats → Image × Bool
  unfolding memory_to_image cpu_to_image process_to_image system_info_to_image
  to_image i o =
      let (key, key_size, key_null) = string_image i.client_key_value o.info.client_key in
      let (system_info, grew) = system_info_to_image i.system_info_value o.info.system_info in
      (
        record i {
          client_key_value = key;
          client_key_size = key_size;
          client_key_null = key_null;
          memory_value = (memory_to_image i.memory_value o.info.memory).0;
          cpu_value = (cpu_to_image i.cpu_value o.info.cpu).0;
          process_value = (process_to_image i.process_value o.info.process).0;
          system_info_value = system_info;
          time_stamp_value = (bigint_image o.info.time_stamp).0;
          time_stamp_null = (bigint_image o.info.time_stamp).1;
        },
        (false || changed (capacity i.client_key_value) (capacity key)) || grew,
      )

  -- `init (value_type&, const image_type&, database*)`: every field of the value is written.
  unfoldable pub memory_of_image : MemoryImage → Machine.Memory
  memory_of_image i = record {
    mem_total = integer_value i.mem_total_value i.mem_total_null;
    mem_available = integer_value i.mem_available_value i.mem_available_null;
    mem_free = integer_value i.mem_free_value i.mem_free_null;
  }

  unfoldable pub cpu_of_image : CpuImage → Machine.Cpu floats
  cpu_of_image i = record {
    idle_time = real_value i.idle_time_value i.idle_time_null;
    use_time = real_value i.use_time_value i.use_time_null;
  }

  unfoldable pub process_of_image : ProcessImage → Machine.Process
  process_of_image i = record {
    total = integer_value i.total_value i.total_null;
    running = integer_value i.running_value i.running_null;
    blocked = integer_value i.blocked_value i.blocked_null;
  }

  unfoldable pub system_info_of_image : SystemInfoImage → Machine.SystemInfo
  system_info_of_image i = record {
    system_ip = string_value i.system_ip_value i.system_ip_size i.system_ip_null;
    system_name = string_value i.system_name_value i.system_name_size i.system_name_null;
  }

  unfoldable pub of_image : Image → Object floats
  unfolding memory_of_image cpu_of_image process_of_image system_info_of_image
  of_image i = record {
    id_ = bigint_value i.id_value i.id_null;
    info = record {
      client_key = string_value i.client_key_value i.client_key_size i.client_key_null;
      memory = memory_of_image i.memory_value;
      cpu = cpu_of_image i.cpu_value;
      process = process_of_image i.process_value;
      system_info = system_info_of_image i.system_info_value;
      time_stamp = bigint_value i.time_stamp_value i.time_stamp_null;
    };
  }

  -- `init (id_image_type&, const id_type&)`, and `id` of the two images.
  unfoldable pub id_to_image : IdImage → ℕ → IdImage
  id_to_image i id = record i { id_value = (bigint_image id).0; id_null = (bigint_image id).1 }

  unfoldable pub id_of_id_image : IdImage → ℕ
  id_of_id_image i = bigint_value i.id_value i.id_null

  unfoldable pub id_of_image : Image → ℕ
  id_of_image i = bigint_value i.id_value i.id_null
