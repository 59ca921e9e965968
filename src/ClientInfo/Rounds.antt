-- ===== src/ClientInfo/Rounds.antt =====
-- The loop `while ((pos = line.find(delimiter)) != npos)` over a line, which five functions of
-- client_info.cpp run, and the outcome of code that may loop for ever.
use client_server_db.Prelude.{
  ℕ, suc, Text, List, [], ◌∷◌, ◌≡◌, refl, Option, some, arith, if◌then◌else◌, ◌==◌, drop,
}
use client_server_db.Prelude.Exec.{Exception, Outcome, ok, throws, fault}
use client_server_db.Strings.{find, substr}

-- What a function with a loop does within some fuel.
pub data Run (A : Type 0) : Type 0 where
  returns : A → Run A
  raises : Exception → Run A
  undefined : Run A
  out_of_fuel : Run A

abbrev pub run : {A : Type 0} → Outcome A → Run A
run (ok a) = returns a
run (throws e) = raises e
run fault = undefined

infixl 5 ◌>>=◌
abbrev pub ◌>>=◌ : {A B : Type 0} → Run A → (A → Run B) → Run B
returns a >>= f = f a
raises e >>= f = raises e
undefined >>= f = undefined
out_of_fuel >>= f = out_of_fuel

abbrev pub put_front : ℕ → List (Text × Text) → List (Text × Text)
put_front c [] = []
put_front c ((token, line) ∷ more) = (c ∷ token, line) ∷ more

-- For each round of the loop the token, `line.substr(0, pos)`, and the line that
-- `line.erase(0, pos + 1)` leaves.
unfoldable pub rounds : ℕ → Text → List (Text × Text)
rounds d [] = []
rounds d (c ∷ s) = if c == d then ([], s) ∷ rounds d s else put_front c (rounds d s)

-- The loop's own equation at the place of the first delimiter, if there is one.
abbrev pub loop_rounds : ℕ → Text → Option ℕ → List (Text × Text)
loop_rounds d s Option.none = []
loop_rounds d s (some pos) = (substr 0 pos s, drop (suc pos) s) ∷ rounds d (drop (suc pos) s)

-- The rounds are those of the source's loop: none where the delimiter is not found, and else the
-- token in front of the first delimiter with the rest behind it, and then the rounds of that rest.
pub rounds-find : (d : ℕ) (s : Text) → rounds d s ≡ loop_rounds d s (find d s)
unfolding rounds find
rounds-find d [] = refl
rounds-find d (c ∷ s) = ground (arith, rounds-find d s)
