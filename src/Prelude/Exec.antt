-- ===== src/Prelude/Exec.antt =====
-- Code that changes a state and may throw. What was written before a throw stays written, so the
-- state stands beside the outcome.
use mathlib.Core.List.{List, [], ◌∷◌}
use mathlib.Core.Option.{Option, none, some}

-- What the program's calls raise: `std::invalid_argument` and `std::out_of_range` of the standard
-- library, the errors of boost's parsers and of its sockets, and those of ODB.
pub data Exception : Type 0 where
  invalid_argument out_of_range parse_error system_error : Exception
  not_in_transaction object_already_persistent object_not_persistent database_exception : Exception

-- `fault` is undefined behaviour, such as a read through a null pointer.
pub data Outcome {ℓ} (A : Type ℓ) : Type ℓ where
  ok : A → Outcome A
  throws : Exception → Outcome A
  fault : Outcome A

abbrev pub Exec : Type 0 → Type 0 → Type 0
Exec S A = S → Outcome A × S

module _ {S A : Type 0} where
  abbrev pub pure : A → Exec S A
  pure a s = (ok a, s)

  abbrev pub lift : Outcome A → Exec S A
  lift r s = (r, s)

  abbrev pub gets : (S → A) → Exec S A
  gets f s = (ok (f s), s)

module _ {S : Type 0} where
  abbrev pub modify : (S → S) → Exec S (Unit {0})
  modify f s = (ok tt, f s)

module _ {S A B : Type 0} where
  abbrev pub continue : Outcome A → (A → Exec S B) → Exec S B
  continue (ok a) f s = f a s
  continue (throws e) f s = (throws e, s)
  continue fault f s = (fault, s)

  infixl 5 ◌>>=◌ ◌>>◌
  abbrev pub ◌>>=◌ : Exec S A → (A → Exec S B) → Exec S B
  ◌>>=◌ m f s = let (r, s') = m s in continue r f s'

  abbrev pub ◌>>◌ : Exec S A → Exec S B → Exec S B
  m >> k = m >>= λ _. k

-- A list of actions, one after the other; the first that throws ends the row.
module _ {S A : Type 0} where
  unfoldable pub for_each : (A → Exec S (Unit {0})) → List A → Exec S (Unit {0})
  for_each f [] = pure tt
  for_each f (x ∷ xs) = f x >> for_each f xs

-- `*p`
abbrev pub dereference {ℓ} : {A : Type ℓ} → Option A → Outcome A
dereference none = fault
dereference (some a) = ok a
