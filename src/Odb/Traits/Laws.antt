-- ===== src/Odb/Traits/Laws.antt =====
-- The documented behaviour of the conversions and of the buffers: a value is what its image stands
-- for, a buffer moves its bytes only when its capacity changes, and a lock that is free can be
-- taken and given back.
use client_server_db.Prelude.{true, false, ℕ, Text, ◌^◌, ◌<◌, ◌≡◌, ◌≤◌}
use client_server_db.Prelude.Int.{ℤ, IsInt32}
use client_server_db.Floats.{Floats}
use client_server_db.Odb.Traits.{Traits}

pub record Laws {floats : Floats} (traits : Traits floats) : Type 0 where
  pub integer_image_value :
      (z : ℤ)
      → IsInt32 z
      → traits.integer_value (traits.integer_image z).0 (traits.integer_image z).1 ≡ z
  pub real_image_value :
      (x : floats.Float) → traits.real_value (traits.real_image x).0 (traits.real_image x).1 ≡ x
  pub bigint_image_value :
      (n : ℕ)
      → n < 2 ^ 64
      → traits.bigint_value (traits.bigint_image n).0 (traits.bigint_image n).1 ≡ n
  pub string_image_value :
      (b : traits.Buffer) (s : Text)
      → traits.string_value
          (traits.string_image b s).0
          (traits.string_image b s).1
          (traits.string_image b s).2
        ≡ s
  pub string_image_data :
      (b : traits.Buffer) (s : Text)
      → traits.capacity b ≡ traits.capacity (traits.string_image b s).0
      → traits.buffer_data b ≡ traits.buffer_data (traits.string_image b s).0
  pub capacity-reserve : (b : traits.Buffer) (n : ℕ) → n ≤ traits.capacity (traits.reserve b n)
  pub auto_lock_free :
      (l : traits.Lock) → traits.is_locked l ≡ false → (traits.auto_lock l).1 ≡ true
  pub unlock_free :
      (l : traits.Lock)
      → traits.is_locked l ≡ false
      → traits.is_locked (traits.unlock (traits.auto_lock l).0 true) ≡ false
