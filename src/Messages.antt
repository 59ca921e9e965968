-- ===== src/Messages.antt =====
-- common/src/machine.pb.cc: the messages of metadata/machine.proto. This module has the steps that
-- the code of every message repeats; each message has a module below.
pub mod Fields
pub mod Within
pub mod Memory
pub mod Cpu
pub mod Process
pub mod SystemInfo
pub mod Submessage
pub mod Machine
pub mod MachineInfo
use client_server_db.Prelude.{
  ℕ, Text, List, [], ◌∷◌, ◌++◌, ◌+◌, Bool, Option, some, is_empty, if◌then◌else◌, ◌&&◌, not,
}
use client_server_db.Prelude.Int.{ℤ, is_zero}
use client_server_db.Floats.{Floats}
use client_server_db.Wire.{Bytes, Runtime}

-- `DO_(Read…(input, &field_))`: fail, or store the value and go on behind it.
abbrev pub store : {A M : Type 0} → (A → M) → Option (A × Bytes) → Option (M × Bytes)
store set Option.none = Option.none
store set (some (a, rest)) = some (set a, rest)

-- `DO_(SkipField(…))`: the field goes to the unknown fields.
abbrev pub keep_unknown : {M : Type 0} → (Bytes → M) → Option (Bytes × Bytes) → Option (M × Bytes)
keep_unknown set Option.none = Option.none
keep_unknown set (some (rest, unknown)) = some (set unknown, rest)

-- `mutable_f()`: the submessage, made new where there was none.
abbrev pub mutable : {S : Type 0} → S → Option S → S
mutable new Option.none = new
mutable new (some x) = x

-- `if (from.has_f()) mutable_f()->MergeFrom(from.f())`
abbrev pub merge_option : {S : Type 0} → (S → S → S) → S → Option S → Option S → Option S
merge_option merge new m Option.none = m
merge_option merge new m (some x) = some (merge (mutable new m) x)

module _ {floats : Floats} (rt : Runtime floats) where
  -- `DO_(ReadString(…))` and `DO_(VerifyUtf8String(…))` on what was read.
  abbrev pub store_string : {M : Type 0} → (Text → M) → Option (Text × Bytes) → Option (M × Bytes)
  store_string set Option.none = Option.none
  store_string set (some (s, rest)) = if rt.is_utf8 s then some (set s, rest) else Option.none

  -- `if (this->f() != 0) target = WriteInt32ToArray(n, this->f(), target)`
  unfoldable pub int32_field : ℕ → ℤ → Bytes
  int32_field n v = if is_zero v then [] else rt.write_int32 n v

  unfoldable pub float_field : ℕ → floats.Float → Bytes
  float_field n x = if floats.is_zero x then [] else rt.write_float n x

  unfoldable pub string_field : ℕ → Text → Bytes
  string_field n s = if is_empty s then [] else rt.write_string n s

  -- The block on `have_unknown_fields` that ends every serializer.
  unfoldable pub unknowns_field : Bytes → Bytes
  unknowns_field u = if not (is_empty u) && rt.preserves_unknowns then rt.write_unknowns u else []

  -- `if (this->f() != 0) total_size += 1 + Int32Size(this->f())`
  unfoldable pub int32_field_size : ℤ → ℕ
  int32_field_size v = if is_zero v then 0 else 1 + rt.int32_size v

  unfoldable pub float_field_size : floats.Float → ℕ
  float_field_size x = if floats.is_zero x then 0 else 1 + 4

  unfoldable pub string_field_size : Text → ℕ
  string_field_size s = if is_empty s then 0 else 1 + rt.string_size s

  unfoldable pub unknowns_field_size : Bytes → ℕ
  unknowns_field_size u =
      if not (is_empty u) && rt.preserves_unknowns then rt.unknowns_size u else 0

  -- `if (this->has_f()) target = InternalWriteMessageToArray(n, *this->f_, …)`
  unfoldable pub message_field : {S : Type 0} → (S → ℕ) → (S → Bytes) → ℕ → Option S → Bytes
  message_field size serialize n Option.none = []
  message_field size serialize n (some x) = rt.write_message n (size x) (serialize x)

  -- `if (this->has_f()) total_size += 1 + MessageSize(*this->f_)`
  unfoldable pub message_field_size : {S : Type 0} → (S → ℕ) → Option S → ℕ
  message_field_size size Option.none = 0
  message_field_size size (some x) = 1 + rt.message_size (size x)
