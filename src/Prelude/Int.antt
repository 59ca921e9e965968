-- ===== src/Prelude/Int.antt =====
-- Signed integers over the native numbers, and the ranges of the machine's int and long.
use Prim.Native.Nat.{ℕ, suc, ◌+◌, ◌-◌, ◌%◌, ◌^◌, ◌≤◌, ◌<◌}
use mathlib.Core.Path.{◌≡◌}
use mathlib.Core.Bool.{Bool, ◌&&◌}
use native.Mathlib.Omega.{arith}
use client_server_db.Prelude.Tests.{ltb, leb, ◌==◌, if◌then◌else◌}

-- `negsuc n` is -(n + 1).
pub data ℤ : Type 0 where
  pos : ℕ → ℤ
  negsuc : ℕ → ℤ

abbrev pub pos_part : ℤ → ℕ
pos_part (pos n) = n
pos_part (negsuc n) = 0

abbrev pub neg_part : ℤ → ℕ
neg_part (pos n) = 0
neg_part (negsuc n) = suc n

abbrev pub sub_ℕ : ℕ → ℕ → ℤ
sub_ℕ a b = if leb b a then pos (a - b) else negsuc (b - a - 1)

infixl 65 ◌-ℤ◌
unfoldable pub ◌-ℤ◌ : ℤ → ℤ → ℤ
a -ℤ b = sub_ℕ (pos_part a + neg_part b) (neg_part a + pos_part b)

abbrev pub ltb_ℤ : ℤ → ℤ → Bool
ltb_ℤ a b = ltb (pos_part a + neg_part b) (pos_part b + neg_part a)

abbrev pub eqb_ℤ : ℤ → ℤ → Bool
eqb_ℤ a b = pos_part a + neg_part b == pos_part b + neg_part a

abbrev pub is_zero : ℤ → Bool
is_zero z = eqb_ℤ z (pos 0)

-- The values of a `w`-bit two's-complement integer.
abbrev pub fits : ℕ → ℤ → Bool
fits w z = ltb (pos_part z) (2 ^ (w - 1)) && leb (neg_part z) (2 ^ (w - 1))

abbrev pub IsInt32 : ℤ → Type 0
IsInt32 z = (pos_part z < 2 ^ 31) × (neg_part z ≤ 2 ^ 31)

abbrev pub IsInt64 : ℤ → Type 0
IsInt64 z = (pos_part z < 2 ^ 63) × (neg_part z ≤ 2 ^ 63)

-- The conversion to int32_t: the integer of that range that is equal modulo 2 ^ 32.
unfoldable pub to_int32 : ℤ → ℤ
to_int32 z =
    let low = (pos_part z + (2 ^ 32 - neg_part z % 2 ^ 32)) % 2 ^ 32 in
    if ltb low (2 ^ 31) then pos low else negsuc (2 ^ 32 - low - 1)

-- A conversion of a value that is in range changes nothing.
pub to_int32_id : (z : ℤ) → IsInt32 z → to_int32 z ≡ z
unfolding to_int32
to_int32_id (pos n) h = ground arith
to_int32_id (negsuc n) h = ground arith

-- Whatever is converted, the result is in range.
pub to_int32-IsInt32 : (z : ℤ) → IsInt32 (to_int32 z)
unfolding to_int32
to_int32-IsInt32 z = ground arith

pub eqb_ℤ_iff : (a b : ℤ) → eqb_ℤ a b ≡ Bool.true → a ≡ b
eqb_ℤ_iff (pos a) (pos b) h = ground arith
eqb_ℤ_iff (pos a) (negsuc b) h = ground arith
eqb_ℤ_iff (negsuc a) (pos b) h = ground arith
eqb_ℤ_iff (negsuc a) (negsuc b) h = ground arith
