-- ===== src/Strings.antt =====
-- The members of `std::string` that the program calls, at one character.
use client_server_db.Prelude.{ℕ, suc, Text, [], ◌∷◌, Option, some, if◌then◌else◌, ◌==◌, take, drop}

abbrev next : Option ℕ → Option ℕ
next Option.none = Option.none
next (some n) = some (suc n)

-- `s.find(c)`; none is `npos`.
unfoldable pub find : ℕ → Text → Option ℕ
find c [] = Option.none
find c (x ∷ s) = if x == c then some 0 else next (find c s)

abbrev last_of : Option ℕ → Option ℕ → Option ℕ
last_of Option.none here = here
last_of (some n) here = some (suc n)

-- `s.rfind(c)`
unfoldable pub rfind : ℕ → Text → Option ℕ
rfind c [] = Option.none
rfind c (x ∷ s) = last_of (rfind c s) (if x == c then some 0 else Option.none)

-- `s.substr(pos, n)` for a `pos` within the string.
abbrev pub substr : ℕ → ℕ → Text → Text
substr pos n s = take n (drop pos s)
