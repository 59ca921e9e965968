-- ===== src/ClientInfo/Process/Words.antt =====
-- What `get_process_info` takes from a line: the number behind the key that the line begins with.
use client_server_db.Prelude.{
  ℕ, Text, List, [], ◌∷◌, ◌≡◌, refl, sym, ap, ◌∙◌, true, false, Option, some, arith, codes, text_eq,
  is_empty, if◌then◌else◌, ◌==◌, Bool-cases, inl, inr,
}
use client_server_db.Prelude.Int.{ℤ}
use client_server_db.Prelude.Exec.{Outcome, ok, throws, fault}
use client_server_db.Prelude.Numbers.{stoi, stoi-blank, stoi-letter}
use client_server_db.ClientInfo.Rounds.{Run, returns, run, rounds, put_front, ◌>>=◌}
use client_server_db.ClientInfo.Process.{Counts, take_counts}

-- A token that does not begin as the keys do ends the loop.
other_letter :
    (d : ℕ) (rs : List (Text × Text)) (c : Counts)
    → d == b'p' ≡ false
    → take_counts (put_front d rs) c ≡ returns c
unfolding take_counts text_eq
other_letter d [] c e = refl
other_letter d ((token, line) ∷ more) c e = rw e refl

equal_codes : (d e : ℕ) → d == e ≡ true → d ≡ e
equal_codes d e h = ground arith

-- A line whose beginning stoi takes as a number changes no count.
number_first :
    (s : Text) (z : ℤ) (c : Counts) → stoi s ≡ ok z → take_counts (rounds b' ' s) c ≡ returns c
unfolding take_counts rounds
number_first [] z c e = refl
number_first (d ∷ s) z c e = elim (Bool-cases (d == b' ')) [
  | inl blank ↦ rw blank (
      number_first s z c
        (sym (stoi-blank s) ∙ ap (λ k. stoi (k ∷ s)) (sym (equal_codes d b' ' blank)) ∙ e))
  | inr other ↦ elim (Bool-cases (d == b'p')) [
    | inr no_letter ↦ rw other (other_letter d (rounds b' ' s) c no_letter)
    | inl letter ↦ cc (stoi-letter s, ap (λ k. stoi (k ∷ s)) (equal_codes d b'p' letter))
  ]
]

-- Each line of the rounds is the one that the next rounds are of.
unfoldable pub Chained : List (Text × Text) → Type 0
Chained [] = Unit {0}
Chained ((token, line) ∷ more) = (more ≡ rounds b' ' line) × Chained more

Chained-put_front : (d : ℕ) (rs : List (Text × Text)) → Chained rs → Chained (put_front d rs)
unfolding Chained
Chained-put_front d [] h = tt
Chained-put_front d ((token, line) ∷ more) h = h

pub rounds-Chained : (s : Text) → Chained (rounds b' ' s)
unfolding Chained rounds
rounds-Chained [] = tt
rounds-Chained (d ∷ s) = elim (Bool-cases (d == b' ')) [
  | inl blank ↦ rw blank (refl, rounds-Chained s)
  | inr other ↦ rw other (Chained-put_front d (rounds b' ' s) (rounds-Chained s))
]

-- The first word of a line, and what stands behind it.
unfoldable pub first_word : List (Text × Text) → Option (Text × Text)
first_word [] = Option.none
first_word ((token, line) ∷ more) =
    let rest = first_word more in if is_empty token then rest else some (token, line)

-- A count is set by the number behind its key.
unfoldable pub set_count : Option (Text × Text) → Counts → Run Counts
set_count Option.none c = returns c
set_count (some (word, rest)) c =
    if text_eq word (codes "processes")
    then (run (stoi rest) >>= λ v. returns (record c { processes = v }))
    else if text_eq word (codes "procs_running")
    then (run (stoi rest) >>= λ v. returns (record c { running = v }))
    else if text_eq word (codes "procs_blocked")
    then (run (stoi rest) >>= λ v. returns (record c { blocked = v }))
    else returns c

-- A number that a line begins with is the last of what the loop takes from it.
number_ends :
    (line : Text) (more : List (Text × Text)) (set : ℤ → Counts)
    → more ≡ rounds b' ' line
    → (run (stoi line) >>= λ v. take_counts more (set v))
      ≡ (run (stoi line) >>= λ v. returns (set v))
number_ends line more set e = rw e (ends (stoi line) (number_first line))
  where
    ends :
        (r : Outcome ℤ)
        → ((z : ℤ) (c : Counts) → r ≡ ok z → take_counts (rounds b' ' line) c ≡ returns c)
        → (run r >>= λ v. take_counts (rounds b' ' line) (set v)) ≡ (run r >>= λ v. returns (set v))
    ends (ok z) h = h z (set z) refl
    ends (throws x) h = refl
    ends fault h = refl

pub take_counts-set_count :
    (rs : List (Text × Text)) (c : Counts)
    → Chained rs
    → take_counts rs c ≡ set_count (first_word rs) c
unfolding take_counts first_word set_count Chained
take_counts-set_count [] c h = refl
take_counts-set_count (([], line) ∷ more) c h = take_counts-set_count more c h.1
take_counts-set_count ((d ∷ token, line) ∷ more) c h =
    rw
      (
        number_ends line more (λ v. record c { processes = v }) h.0,
        number_ends line more (λ v. record c { running = v }) h.0,
        number_ends line more (λ v. record c { blocked = v }) h.0,
      )
      refl
