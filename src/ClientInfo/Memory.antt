-- ===== src/ClientInfo/Memory.antt =====
-- `ClientInfo::get_mem_info`.
pub mod Ends
use client_server_db.Prelude.{
  ℕ, zero, suc, Text, List, [], ◌∷◌, Bool, true, false, Option, some, codes, text_eq, is_empty, not,
  if◌then◌else◌, ◌&&◌,
}
use client_server_db.Prelude.Int.{ℤ, pos, is_zero, to_int32}
use client_server_db.Prelude.Exec.{Outcome, ok, throws, fault}
use client_server_db.Prelude.Numbers.{stol}
use client_server_db.ClientInfo.Rounds.{Run, returns, raises, out_of_fuel, run, rounds, ◌>>=◌}
use client_server_db.Messages.Memory as Message

-- The three local variables.
pub record Amounts : Type 0 where
  pub mem_total : ℤ
  pub mem_available : ℤ
  pub mem_free : ℤ

abbrev pub no_amounts : Amounts
no_amounts = record { mem_total = pos 0; mem_available = pos 0; mem_free = pos 0 }

-- One round of the loop over a line.
unfoldable pub take_amount : Text → Text → Amounts → Run Amounts
take_amount token line a =
    if is_empty token
    then returns a
    else if text_eq token (codes "MemTotal")
    then (run (stol line) >>= λ v. returns (record a { mem_total = v }))
    else if text_eq token (codes "MemFree")
    then (run (stol line) >>= λ v. returns (record a { mem_free = v }))
    else if text_eq token (codes "MemAvailable")
    then (run (stol line) >>= λ v. returns (record a { mem_available = v }))
    else returns a

unfoldable pub take_rounds : List (Text × Text) → Amounts → Run Amounts
unfolding take_amount
take_rounds [] a = returns a
take_rounds ((token, line) ∷ more) a = take_amount token line a >>= take_rounds more

-- `mem_total && mem_available && mem_free`
abbrev pub all_found : Amounts → Bool
all_found a =
    not (is_zero a.mem_total) && (not (is_zero a.mem_available) && not (is_zero a.mem_free))

-- The loop over the lines of the file. Behind the last line `getline` fails; the line is then
-- without a delimiter, and the body changes nothing.
unfoldable pub read_loop : ℕ → List Text → Amounts → Run Amounts
unfolding take_rounds
read_loop zero lines a = out_of_fuel
read_loop (suc fuel) (line ∷ lines) a = take_rounds (rounds b':' line) a >>= read_loop fuel lines
read_loop (suc fuel) [] a =
    let rest = read_loop fuel [] a in if all_found a then returns a else rest

-- The message of the amounts: the setters take an int32.
abbrev pub memory_message : Amounts → Message.Memory
memory_message a = record {
  mem_total = to_int32 a.mem_total;
  mem_available = to_int32 a.mem_available;
  mem_free = to_int32 a.mem_free;
  unknown = [];
}

-- `get_mem_info`, on the lines of /proc/meminfo, or none where it cannot be opened.
unfoldable pub get_mem_info : ℕ → Option (List Text) → Run Message.Memory
unfolding read_loop
get_mem_info fuel Option.none = returns (memory_message no_amounts)
get_mem_info fuel (some lines) = read_loop fuel lines no_amounts >>= λ a. returns (memory_message a)
