-- ===== src/ClientInfo/Stat.antt =====
-- `get_cpu_count`, `get_cpu_idle_value` and `get_cpu_idle_values`, which read /proc/stat.
pub mod Words
pub mod Values
use client_server_db.Prelude.{
  ℕ, zero, suc, Text, List, [], ◌∷◌, ◌+◌, ◌≤◌, Bool, true, false, Option, some, codes, text_eq,
  is_empty, not, if◌then◌else◌, ◌&&◌, leb, ◌==◌, take, length,
}
use client_server_db.Prelude.Int.{ℤ, pos, is_zero, sub_ℕ, ◌-ℤ◌, fits}
use client_server_db.Prelude.Numbers.{stol}
use client_server_db.Floats.{Floats}
use client_server_db.ClientInfo.Rounds.{
  Run, returns, raises, undefined, out_of_fuel, run, rounds, ◌>>=◌,
}
use client_server_db.Messages.Cpu as Message

-- The inner loop of `get_cpu_count`: the first token that is not empty decides, and ends it.
unfoldable pub counts : List (Text × Text) → Bool
counts [] = false
counts ((token, line) ∷ more) =
    if is_empty token
    then counts more
    else leb 3 (length token) && text_eq (take 3 token) (codes "cpu")

unfoldable pub count_lines : List Text → ℕ
unfolding counts rounds
count_lines [] = 0
count_lines (line ∷ lines) = (if counts (rounds b' ' line) then 1 else 0) + count_lines lines

-- `get_cpu_count`, on the lines of /proc/stat, or none where it cannot be opened.
unfoldable pub get_cpu_count : Option (List Text) → ℤ
unfolding count_lines
get_cpu_count Option.none = pos 0
get_cpu_count (some lines) = sub_ℕ (count_lines lines) 1

-- The loop of `get_cpu_idle_value`, with the tokens counted and the first one kept.
unfoldable pub idle_loop : List (Text × Text) → ℕ → Text → Run ℤ
idle_loop [] token_count token0 = returns (pos 0)
idle_loop ((token, line) ∷ more) token_count token0 =
    let first = if token_count == 0 then token else token0 in
    let rest = idle_loop more (token_count + 1) first in
    let same = idle_loop more token_count token0 in
    if is_empty token
    then same
    else if token_count == 0 && not (text_eq token (codes "cpu"))
    then returns (pos 0)
    else if token_count == 4 && text_eq first (codes "cpu")
    then run (stol token)
    else rest

-- `get_cpu_idle_value`
unfoldable pub get_cpu_idle_value : Text → Run ℤ
unfolding idle_loop rounds
get_cpu_idle_value line = idle_loop (rounds b' ' line) 0 []

abbrev pub first_line : List Text → Text
first_line [] = []
first_line (line ∷ lines) = line

abbrev other_lines : List Text → List Text
other_lines [] = []
other_lines (line ∷ lines) = lines

-- The loop of `get_cpu_idle_values`. `stat k` is what the file holds when it has been rewound k
-- times; the list is what is left to read of it. A second value that is not 0 ends the loop, so
-- the test on it beside `getline` never decides.
unfoldable pub idle_values_loop : (ℕ → List Text) → ℕ → ℕ → List Text → ℤ → Run (ℤ × ℤ)
unfolding get_cpu_idle_value
idle_values_loop stat zero k lines idle_value1 = out_of_fuel
idle_values_loop stat (suc fuel) k [] idle_value1 = returns (idle_value1, pos 0)
idle_values_loop stat (suc fuel) k (line ∷ lines) idle_value1 =
    (if is_zero idle_value1 then get_cpu_idle_value line else returns idle_value1) >>= λ value1.
    elim (is_zero value1) [
      | true ↦ idle_values_loop stat fuel k lines value1
      | false ↦ get_cpu_idle_value (first_line (stat (suc k))) >>= λ value2. elim (is_zero value2) [
        | true ↦ idle_values_loop stat fuel (suc k) (other_lines (stat (suc k))) value1
        | false ↦ returns (value1, value2)
      ]
    ]

module _ (floats : Floats) where
  open floats use {
    Float, float_of_int, double_of_int, float_of_double, double_of_float, mul_double, sub_float,
    mul_float, div_float,
  }

  -- `100.0 * ( (float) ( idle_value2 - idle_value1 ) / ((float)cpu_count * 100) )`
  unfoldable pub cpu_idle : ℤ → ℤ → ℤ → Float
  unfolding ◌-ℤ◌
  cpu_idle idle_value1 idle_value2 cpu_count = float_of_double (
      mul_double (double_of_int (pos 100)) (
        double_of_float (
          div_float (float_of_int (idle_value2 -ℤ idle_value1))
            (mul_float (float_of_int cpu_count) (float_of_int (pos 100))))))

  -- The message that `get_cpu_idle_values` puts into the report.
  unfoldable pub cpu_message : ℤ → ℤ → ℤ → Message.Cpu floats
  unfolding cpu_idle
  cpu_message idle_value1 idle_value2 cpu_count = record {
    idle_time = cpu_idle idle_value1 idle_value2 cpu_count;
    use_time = sub_float (float_of_int (pos 100)) (cpu_idle idle_value1 idle_value2 cpu_count);
    unknown = [];
  }

  -- `idle_value2 - idle_value1` is a long; where it does not fit one, C++ leaves undefined what
  -- follows.
  unfoldable pub with_difference : ℤ × ℤ → Run (ℤ × ℤ)
  with_difference (value1, value2) =
      if fits 64 (value2 -ℤ value1) then returns (value1, value2) else undefined

  abbrev pub read_idle_values : ℕ → Option (ℕ → List Text) → Run (ℤ × ℤ)
  read_idle_values fuel Option.none = returns (pos 0, pos 0)
  read_idle_values fuel (some stat) =
      idle_values_loop stat fuel 0 (stat 0) (pos 0) >>= with_difference

  -- `get_cpu_idle_values`, on /proc/stat as it stands while the idle values are read, and as it
  -- stands when the processors are counted.
  unfoldable pub get_cpu_idle_values :
      ℕ → Option (ℕ → List Text) → Option (List Text) → Run (Message.Cpu floats)
  unfolding idle_values_loop cpu_message get_cpu_count
  get_cpu_idle_values fuel stat count_stat =
      read_idle_values fuel stat >>= λ v. returns (cpu_message v.0 v.1 (get_cpu_count count_stat))
