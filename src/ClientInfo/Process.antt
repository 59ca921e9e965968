-- ===== src/ClientInfo/Process.antt =====
-- `ClientInfo::get_process_info`.
pub mod Words
pub mod Latest
use client_server_db.Prelude.{
  Text, List, [], ◌∷◌, Option, some, codes, text_eq, is_empty, if◌then◌else◌,
}
use client_server_db.Prelude.Int.{ℤ, pos}
use client_server_db.Prelude.Numbers.{stoi}
use client_server_db.ClientInfo.Rounds.{Run, returns, run, rounds, ◌>>=◌}
use client_server_db.Messages.Process as Message

-- The three local variables.
pub record Counts : Type 0 where
  pub processes : ℤ
  pub running : ℤ
  pub blocked : ℤ

abbrev pub no_counts : Counts
no_counts = record { processes = pos 0; running = pos 0; blocked = pos 0 }

-- The loop over a line; a token that is none of the three ends it.
unfoldable pub take_counts : List (Text × Text) → Counts → Run Counts
take_counts [] c = returns c
take_counts ((token, line) ∷ more) c =
    let skip = take_counts more c in
    let total = run (stoi line) >>= λ v. take_counts more (record c { processes = v }) in
    let running = run (stoi line) >>= λ v. take_counts more (record c { running = v }) in
    let blocked = run (stoi line) >>= λ v. take_counts more (record c { blocked = v }) in
    if is_empty token
    then skip
    else if text_eq token (codes "processes")
    then total
    else if text_eq token (codes "procs_running")
    then running
    else if text_eq token (codes "procs_blocked")
    then blocked
    else returns c

-- The loop over the lines of the file.
unfoldable pub count_lines : List Text → Counts → Run Counts
unfolding take_counts rounds
count_lines [] c = returns c
count_lines (line ∷ lines) c = take_counts (rounds b' ' line) c >>= count_lines lines

abbrev pub process_message : Counts → Message.Process
process_message c = record {
  total = c.processes;
  running = c.running;
  blocked = c.blocked;
  unknown = [];
}

-- `get_process_info`, on the lines of /proc/stat, or none where it cannot be opened.
unfoldable pub get_process_info : Option (List Text) → Run Message.Process
unfolding count_lines
get_process_info Option.none = returns (process_message no_counts)
get_process_info (some lines) = count_lines lines no_counts >>= λ c. returns (process_message c)
