-- ===== src/ClientInfo/Stat/Words.antt =====
-- What the readers of /proc/stat pick from a line, said by the words of the line: the tokens that
-- are not empty. A word that no blank follows is not a token.
use client_server_db.Prelude.{
  ℕ, zero, suc, Text, List, [], ◌∷◌, ◌+◌, ◌<◌, ◌≡◌, refl, Bool, true, false, arith, codes, text_eq,
  is_empty, if◌then◌else◌, leb, ◌&&◌, take, length, Bool-cases, inl, inr,
}
use client_server_db.Prelude.Int.{ℤ, pos}
use client_server_db.Prelude.Numbers.{stol}
use client_server_db.ClientInfo.Rounds.{Run, returns, run, rounds}
use client_server_db.ClientInfo.Stat.{counts, idle_loop, get_cpu_idle_value}

unfoldable pub words : List (Text × Text) → List Text
words [] = []
words ((token, line) ∷ more) =
    let rest = words more in if is_empty token then rest else token ∷ rest

-- The word at a place, as a number; 0 where there are not so many words.
unfoldable pub number_at : ℕ → List Text → Run ℤ
number_at k [] = returns (pos 0)
number_at zero (w ∷ ws) = run (stol w)
number_at (suc k) (w ∷ ws) = number_at k ws

-- The fifth word of a line whose first word is "cpu".
unfoldable pub idle_of : List Text → Run ℤ
unfolding number_at
idle_of [] = returns (pos 0)
idle_of (w ∷ ws) = if text_eq w (codes "cpu") then number_at 3 ws else returns (pos 0)

-- The line of a processor: its first word begins with "cpu".
unfoldable pub is_cpu_line : List Text → Bool
is_cpu_line [] = false
is_cpu_line (w ∷ ws) = leb 3 (length w) && text_eq (take 3 w) (codes "cpu")

idle_loop-number_at :
    (rs : List (Text × Text)) (n k : ℕ) (token0 : Text)
    → n + k ≡ 4
    → 0 < n
    → text_eq token0 (codes "cpu") ≡ true
    → idle_loop rs n token0 ≡ number_at k (words rs)
unfolding idle_loop words number_at
idle_loop-number_at [] n k token0 e h c = refl
idle_loop-number_at ((t, l) ∷ more) n zero token0 e h c =
    ground (arith, idle_loop-number_at more n zero token0)
idle_loop-number_at ((t, l) ∷ more) n (suc k) token0 e h c =
    ground
      (arith, idle_loop-number_at more n (suc k) token0, idle_loop-number_at more (n + 1) k token0)

idle_loop-idle_of :
    (rs : List (Text × Text)) (token0 : Text) → idle_loop rs 0 token0 ≡ idle_of (words rs)
unfolding idle_loop words idle_of
idle_loop-idle_of [] token0 = refl
idle_loop-idle_of (([], l) ∷ more) token0 = idle_loop-idle_of more token0
idle_loop-idle_of ((c ∷ t, l) ∷ more) token0 = elim (Bool-cases (text_eq (c ∷ t) (codes "cpu"))) [
  | inl e ↦ rw (e, idle_loop-number_at more 1 3 (c ∷ t) (omega arith) (omega arith) e)
  | inr e ↦ rw e
]

-- get_cpu_idle_value answers the fifth word of a line whose first word is "cpu", read by stol, and
-- 0 for every other line and for a line with too few words.
pub get_cpu_idle_value-idle_of :
    (line : Text) → get_cpu_idle_value line ≡ idle_of (words (rounds b' ' line))
unfolding get_cpu_idle_value
get_cpu_idle_value-idle_of line = idle_loop-idle_of (rounds b' ' line) []

pub counts-is_cpu_line : (rs : List (Text × Text)) → counts rs ≡ is_cpu_line (words rs)
unfolding counts words is_cpu_line
counts-is_cpu_line [] = refl
counts-is_cpu_line (([], l) ∷ more) = counts-is_cpu_line more
counts-is_cpu_line ((c ∷ t, l) ∷ more) = refl
