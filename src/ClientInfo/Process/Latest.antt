-- ===== src/ClientInfo/Process/Latest.antt =====
-- `get_process_info` against a plain reading of /proc/stat: the number behind the last line for a
-- key.
use client_server_db.Prelude.{
  Text, List, [], ◌∷◌, ◌++◌, ◌≡◌, refl, ap, ◌∙◌, Bool, true, false, Option, some, arith, codes,
  text_eq, text_eq_sound, if◌then◌else◌, ◌||◌, All, Bool-cases, inl, inr,
}
use client_server_db.Prelude.Int.{ℤ}
use client_server_db.Prelude.Exec.{Exception, Outcome, ok, throws, fault}
use client_server_db.Prelude.Numbers.{stoi}
use client_server_db.ClientInfo.Rounds.{returns, raises, run, rounds, ◌>>=◌}
use client_server_db.ClientInfo.Process.{Counts, no_counts, count_lines, get_process_info}
use client_server_db.ClientInfo.Process.Words.{
  first_word, set_count, rounds-Chained, take_counts-set_count,
}

abbrev number_or : Outcome ℤ → ℤ → ℤ
number_or (ok z) old = z
number_or other old = old

-- The count of a key behind a line.
abbrev pub value_at : Text → Option (Text × Text) → ℤ → ℤ
value_at key Option.none old = old
value_at key (some (word, rest)) old = if text_eq word key then number_or (stoi rest) old else old

abbrev is_ok : Outcome ℤ → Bool
is_ok (ok z) = true
is_ok other = false

abbrev pub is_count : Text → Bool
is_count word =
    text_eq word (codes "processes")
    || (text_eq word (codes "procs_running") || text_eq word (codes "procs_blocked"))

-- A line that is for no count, or has a number behind its key.
abbrev pub readable : Option (Text × Text) → Bool
readable Option.none = true
readable (some (word, rest)) = if is_count word then is_ok (stoi rest) else true

abbrev pub entry : Text → Option (Text × Text)
entry line = first_word (rounds b' ' line)

-- The number behind the last line for a key.
unfoldable pub latest : Text → List Text → ℤ → ℤ
latest key [] old = old
latest key (line ∷ lines) old = latest key lines (value_at key (entry line) old)

abbrev counts_at : Option (Text × Text) → Counts → Counts
counts_at e c = record {
  processes = value_at (codes "processes") e c.processes;
  running = value_at (codes "procs_running") e c.running;
  blocked = value_at (codes "procs_blocked") e c.blocked;
}

other_key : (word a b : Text) → text_eq word a ≡ true → text_eq a b ≡ false → text_eq word b ≡ false
other_key word a b e other = ap (λ w. text_eq w b) (text_eq_sound word a e) ∙ other

number_read :
    (r : Outcome ℤ) (set : ℤ → Counts) (old : ℤ)
    → is_ok r ≡ true
    → (run r >>= λ v. returns (set v)) ≡ returns (set (number_or r old))
number_read (ok z) set old h = refl
number_read (throws x) set old h = cc
number_read fault set old h = cc

set_count-counts_at :
    (e : Option (Text × Text)) (c : Counts)
    → readable e ≡ true
    → set_count e c ≡ returns (counts_at e c)
unfolding set_count text_eq
set_count-counts_at Option.none c h = refl
set_count-counts_at (some (word, rest)) c h = elim (Bool-cases (text_eq word (codes "processes"))) [
  | inl p ↦
      rw
        (
          p,
          other_key word (codes "processes") (codes "procs_running") p refl,
          other_key word (codes "processes") (codes "procs_blocked") p refl,
        )
        (number_read (stoi rest) (λ v. record c { processes = v }) c.processes (ground arith))
  | inr p ↦ elim (Bool-cases (text_eq word (codes "procs_running"))) [
    | inl q ↦
        rw (p, q, other_key word (codes "procs_running") (codes "procs_blocked") q refl)
          (number_read (stoi rest) (λ v. record c { running = v }) c.running (ground arith))
    | inr q ↦ elim (Bool-cases (text_eq word (codes "procs_blocked"))) [
      | inl r ↦
          rw (p, q, r)
            (number_read (stoi rest) (λ v. record c { blocked = v }) c.blocked (ground arith))
      | inr r ↦ rw (p, q, r) refl
    ]
  ]
]

-- The counts behind lines that can be read.
abbrev counts_behind : List Text → Counts → Counts
counts_behind lines c = record {
  processes = latest (codes "processes") lines c.processes;
  running = latest (codes "procs_running") lines c.running;
  blocked = latest (codes "procs_blocked") lines c.blocked;
}

count_lines_lem :
    (front back : List Text) (c : Counts)
    → All (λ line. readable (entry line) ≡ true) front
    → count_lines (front ++ back) c ≡ count_lines back (counts_behind front c)
unfolding count_lines latest
count_lines_lem [] back c h = refl
count_lines_lem (line ∷ front) back c h =
    rw
      (
        take_counts-set_count (rounds b' ' line) c (rounds-Chained line),
        set_count-counts_at (entry line) c h.0,
      )
      (count_lines_lem front back (counts_at (entry line) c) h.1)

set_count_throws :
    (word rest : Text) (c : Counts) (e : Exception)
    → is_count word ≡ true
    → stoi rest ≡ throws e
    → set_count (some (word, rest)) c ≡ raises e
unfolding set_count
set_count_throws word rest c e key broken = rw broken (ground arith)

-- Behind lines that can be read, a line that begins with a key and whose rest stoi refuses ends the
-- function with what stoi throws, whatever follows.
pub get_process_info_throws :
    (front back : List Text) (line word rest : Text) (e : Exception)
    → All (λ line. readable (entry line) ≡ true) front
    → entry line ≡ some (word, rest)
    → is_count word ≡ true
    → stoi rest ≡ throws e
    → get_process_info (some (front ++ (line ∷ back))) ≡ raises e
unfolding get_process_info count_lines
get_process_info_throws front back line word rest e h first key broken =
    rw
      (
        count_lines_lem front (line ∷ back) no_counts h,
        take_counts-set_count (rounds b' ' line) (counts_behind front no_counts)
            (rounds-Chained line),
        first,
      )
      (rw (set_count_throws word rest (counts_behind front no_counts) e key broken) refl)
