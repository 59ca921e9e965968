-- ===== src/Prelude/Numbers.antt =====
-- `stol` and `stoi` of the C++ standard library, in base 10, as the program calls them: leading
-- white space, an optional sign, and the digits up to the first other byte.
use Prim.Native.Nat.{ℕ, ◌+◌, ◌-◌, ◌*◌}
use mathlib.Core.Path.{◌≡◌, refl}
use mathlib.Core.Bool.{Bool, true, false, ◌&&◌, ◌||◌}
use mathlib.Core.List.{[], ◌∷◌}
use native.Mathlib.Omega.{arith}
use client_server_db.Prelude.Tests.{leb, ◌==◌, if◌then◌else◌}
use client_server_db.Prelude.Lists.{Text, codes}
use client_server_db.Prelude.Int.{ℤ, pos, negsuc, fits, sub_ℕ, IsInt32, IsInt64}
use client_server_db.Prelude.Exec.{Outcome, ok, throws, fault, invalid_argument, out_of_range}

abbrev is_space : ℕ → Bool
is_space c = c == 32 || (leb 9 c && leb c 13)

abbrev is_digit : ℕ → Bool
is_digit c = leb b'0' c && leb c b'9'

skip_space : Text → Text
skip_space [] = []
skip_space (c ∷ s) = if is_space c then skip_space s else c ∷ s

digits : ℕ → Text → ℕ
digits acc [] = acc
digits acc (c ∷ s) = let rest = digits (acc * 10 + (c - b'0')) s in if is_digit c then rest else acc

starts_digit : Text → Bool
starts_digit [] = false
starts_digit (c ∷ s) = is_digit c

signed : Bool → Text → Outcome ℤ
unfolding starts_digit digits
signed negative s =
    if starts_digit s
    then ok (if negative then sub_ℕ 0 (digits 0 s) else pos (digits 0 s))
    else throws invalid_argument

after_space : Text → Outcome ℤ
unfolding signed
after_space [] = throws invalid_argument
after_space (c ∷ s) =
    if c == b'-' then signed true s else if c == b'+' then signed false s else signed false (c ∷ s)

in_range : ℕ → Outcome ℤ → Outcome ℤ
in_range w (ok z) = if fits w z then ok z else throws out_of_range
in_range w r = r

unfoldable pub stol : Text → Outcome ℤ
unfolding in_range after_space skip_space
stol s = in_range 64 (after_space (skip_space s))

unfoldable pub stoi : Text → Outcome ℤ
unfolding in_range after_space skip_space
stoi s = in_range 32 (after_space (skip_space s))

in_range-fits : (w : ℕ) (r : Outcome ℤ) (z : ℤ) → in_range w r ≡ ok z → fits w z ≡ true
unfolding in_range
in_range-fits w (ok y) z h = ground arith
in_range-fits w (throws e) z h = cc
in_range-fits w fault z h = cc

fits-IsInt32 : (z : ℤ) → fits 32 z ≡ true → IsInt32 z
fits-IsInt32 z h = ground arith

fits-IsInt64 : (z : ℤ) → fits 64 z ≡ true → IsInt64 z
fits-IsInt64 z h = ground arith

pub stoi-IsInt32 : (s : Text) (z : ℤ) → stoi s ≡ ok z → IsInt32 z
unfolding stoi
stoi-IsInt32 s z h = fits-IsInt32 z (in_range-fits 32 (after_space (skip_space s)) z h)

pub stol-IsInt64 : (s : Text) (z : ℤ) → stol s ≡ ok z → IsInt64 z
unfolding stol
stol-IsInt64 s z h = fits-IsInt64 z (in_range-fits 64 (after_space (skip_space s)) z h)

-- A blank in front is skipped, and a letter is no number.
pub stoi-blank : (s : Text) → stoi (32 ∷ s) ≡ stoi s
unfolding stoi skip_space
stoi-blank s = refl

pub stoi-letter : (s : Text) → stoi (b'p' ∷ s) ≡ throws invalid_argument
unfolding stoi skip_space after_space signed starts_digit in_range
stoi-letter s = refl

stol_kilobytes : stol (codes "       16384 kB") ≡ ok (pos 16384)
unfolding stol
stol_kilobytes = refl

stoi_empty : stoi [] ≡ throws invalid_argument
unfolding stoi
stoi_empty = refl

stoi_negative : stoi (codes "-17") ≡ ok (negsuc 16)
unfolding stoi
stoi_negative = refl

stoi_too_large : stoi (codes "2147483648") ≡ throws out_of_range
unfolding stoi
stoi_too_large = refl
