-- ===== src/Odb/Traits.antt =====
-- What the generated code takes from the ODB runtime: `pgsql::value_traits`, which convert between
-- values and their images, and `details::buffer`. The runtime is not part of the repository.
pub mod Laws
use client_server_db.Prelude.{ℕ, Text, Bool}
use client_server_db.Prelude.Int.{ℤ}
use client_server_db.Floats.{Floats}

pub record Traits (floats : Floats) : Type 1 where
  -- The images of int, float and unsigned long: the value and `is_null` that `set_image` sets, and
  -- what `set_value` makes of them.
  pub Integer : Type 0
  pub Real : Type 0
  pub Bigint : Type 0
  pub integer_image : ℤ → Integer × Bool
  pub integer_value : Integer → Bool → ℤ
  pub real_image : floats.Float → Real × Bool
  pub real_value : Real → Bool → floats.Float
  pub bigint_image : ℕ → Bigint × Bool
  pub bigint_value : Bigint → Bool → ℕ
  -- A buffer: the address of its bytes, `capacity ()`, and `capacity (n)`.
  pub Buffer : Type 0
  pub Address : Type 0
  pub buffer_data : Buffer → Address
  pub capacity : Buffer → ℕ
  pub reserve : Buffer → ℕ → Buffer
  -- The image of a string: the buffer, the size and `is_null`.
  pub string_image : Buffer → Text → Buffer × ℕ × Bool
  pub string_value : Buffer → ℕ → Bool → Text
  -- The lock of the statements: `locked ()`; what a new `auto_lock` makes of it, with its own
  -- `locked ()`; and what the `auto_lock` leaves behind `unlock ()` or its end.
  pub Lock : Type 0
  pub is_locked : Lock → Bool
  pub auto_lock : Lock → Lock × Bool
  pub unlock : Lock → Bool → Lock
