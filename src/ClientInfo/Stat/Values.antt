-- ===== src/ClientInfo/Stat/Values.antt =====
-- `get_cpu_idle_values` against a plain reading of /proc/stat.
use client_server_db.Prelude.{
  ℕ, zero, suc, Text, List, [], ◌∷◌, ◌<◌, ◌≡◌, refl, ◌∙◌, Option, some, arith, length, All,
}
use client_server_db.Prelude.Int.{ℤ, pos, ◌-ℤ◌}
use client_server_db.Floats.{Floats}
use client_server_db.ClientInfo.Rounds.{Run, returns, rounds}
use client_server_db.ClientInfo.Stat.{
  idle_values_loop, cpu_message, with_difference, get_cpu_count, get_cpu_idle_values,
}
use client_server_db.ClientInfo.Stat.Words.{words, idle_of, get_cpu_idle_value-idle_of}

-- The idle value of a line: the fifth word of one whose first word is "cpu".
abbrev pub idle_in : Text → Run ℤ
idle_in line = idle_of (words (rounds b' ' line))

abbrev pub AreZero : List Text → Type 0
AreZero = All (λ line. idle_in line ≡ returns (pos 0))

module _ (stat : ℕ → List Text) (k : ℕ) where
  loop_zero :
      (lines : List Text) (fuel : ℕ)
      → AreZero lines
      → length lines < fuel
      → idle_values_loop stat fuel k lines (pos 0) ≡ returns (pos 0, pos 0)
  unfolding idle_values_loop
  loop_zero lines zero h enough = absurd (omega arith)
  loop_zero [] (suc fuel) h enough = refl
  loop_zero (line ∷ lines) (suc fuel) h enough =
      rw (get_cpu_idle_value-idle_of line ∙ h.0) (loop_zero lines fuel h.1 (omega arith))

module _ (floats : Floats) where
  open floats use {
    Float, float_of_int, double_of_int, float_of_double, double_of_float, mul_double, sub_float,
    mul_float, div_float,
  }

  -- The idle time of two values and a number of processors, as the code's text says it.
  abbrev pub idle_time : ℤ → ℤ → ℤ → Float
  idle_time value1 value2 count = float_of_double (
      mul_double (double_of_int (pos 100)) (
        double_of_float (
          div_float (float_of_int (value2 -ℤ value1))
            (mul_float (float_of_int count) (float_of_int (pos 100))))))

  -- Where every line has no value or 0, for a fuel above their number, the message is that of 0
  -- and 0.
  pub get_cpu_idle_values_zero :
      (stat : ℕ → List Text) (count_stat : Option (List Text)) (fuel : ℕ)
      → AreZero (stat 0)
      → length (stat 0) < fuel
      → get_cpu_idle_values floats fuel (some stat) count_stat
        ≡ returns (cpu_message floats (pos 0) (pos 0) (get_cpu_count count_stat))
  unfolding get_cpu_idle_values with_difference
  get_cpu_idle_values_zero stat count_stat fuel h enough =
      rw (loop_zero stat 0 (stat 0) fuel h enough) refl
