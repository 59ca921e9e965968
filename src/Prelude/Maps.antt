-- ===== src/Prelude/Maps.antt =====
-- `std::map<const string, V>` as an association list. The program never walks over one of its
-- maps in an order that matters, so the order of the entries stands for nothing.
use mathlib.Core.Path.{◌≡◌}
use mathlib.Core.Bool.{Bool, true, false}
use mathlib.Core.Option.{Option, none, some}
use mathlib.Core.List.{List, [], ◌∷◌}
use native.Mathlib.Omega.{arith}
use client_server_db.Prelude.Tests.{if◌then◌else◌}
use client_server_db.Prelude.Lists.{Text, text_eq, text_eq_iff}

abbrev pub or_else {ℓ} : {A : Type ℓ} → Option A → Option A → Option A
or_else none b = b
or_else (some a) b = some a

abbrev pub is_some {ℓ} : {A : Type ℓ} → Option A → Bool
is_some none = false
is_some (some a) = true

module _ {ℓ} {V : Type ℓ} where
  -- `m.find(k)`
  unfoldable pub find : Text → List (Text × V) → Option V
  find k [] = none
  find k ((j, v) ∷ m) = if text_eq j k then some v else find k m

  abbrev insert_absent : Option V → Text → V → List (Text × V) → List (Text × V)
  insert_absent none k v m = (k, v) ∷ m
  insert_absent (some w) k v m = m

  -- `m.insert({k, v})`: a key that is there keeps its value.
  unfoldable pub insert : Text → V → List (Text × V) → List (Text × V)
  insert k v m = insert_absent (find k m) k v m

  -- What a lookup finds after an insertion.
  pub find-insert :
      (k j : Text) (v : V) (m : List (Text × V))
      → find j (insert k v m) ≡ or_else (find j m) (if text_eq k j then some v else none)
  unfolding find insert
  find-insert k j v m = ground (arith, text_eq_iff k j)
