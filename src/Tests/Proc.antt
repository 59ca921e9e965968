-- ===== src/Tests/Proc.antt =====
-- The readers of /proc/stat at concrete inputs.
use client_server_db.Prelude.{
  ℕ, zero, suc, All, Text, List, [], ◌∷◌, ◌++◌, ◌≡◌, refl, true, some, codes, text_eq,
}
use client_server_db.Prelude.Exec.{throws, out_of_range}
use client_server_db.Prelude.Numbers.{stoi}
use client_server_db.ClientInfo.Rounds.{raises, rounds}
use client_server_db.ClientInfo.Stat.Words.{get_cpu_idle_value-idle_of}
use client_server_db.ClientInfo.Stat.Words
use client_server_db.ClientInfo.Process.{get_process_info}
use client_server_db.ClientInfo.Process.Words.{first_word}
use client_server_db.ClientInfo.Process.Latest.{entry, readable, is_count, get_process_info_throws}

abbrev process_lines : List Text
process_lines = codes "cpu  1 2 3" ∷ codes "processes 40" ∷ codes "procs_running 2" ∷ []

process_lines-readable : All (λ line. readable (entry line) ≡ true) process_lines
unfolding first_word rounds text_eq stoi
process_lines-readable = (refl, (refl, (refl, tt)))

-- More processes than an int counts.
abbrev too_many : Text
too_many = codes "processes 2147483648"

too_many-entry : entry too_many ≡ some (codes "processes", codes "2147483648")
unfolding first_word rounds
too_many-entry = refl

too_many_counted : is_count (codes "processes") ≡ true
unfolding text_eq
too_many_counted = refl

too_many_throws : stoi (codes "2147483648") ≡ throws out_of_range
unfolding stoi
too_many_throws = refl

get_process_info_throws_example :
    get_process_info (some (process_lines ++ (too_many ∷ []))) ≡ raises out_of_range
get_process_info_throws_example =
    get_process_info_throws process_lines [] too_many (codes "processes") (codes "2147483648")
      out_of_range process_lines-readable too_many-entry too_many_counted too_many_throws

-- A machine whose first line of /proc/stat has 40 and then 90.
abbrev two_stats : ℕ → List Text
two_stats zero = codes "intr 5 " ∷ codes "cpu  1 2 3 40 5" ∷ []
two_stats (suc k) = codes "cpu  1 2 3 90 5" ∷ []
