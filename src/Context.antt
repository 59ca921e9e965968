-- ===== src/Context.antt =====
-- common/include/context.h and common/src/context.cpp: the configuration that both programs read
-- from config/context.json.
pub mod Lookup
use client_server_db.Prelude.{Text, List, [], ◌∷◌, Option, some, map}
use client_server_db.Prelude.Maps.{find, insert}
use client_server_db.Boost.{PropertyTree}

-- `typedef map<const string, const string> Config`
abbrev pub Config : Type 0
Config = List (Text × Text)

-- The loop of the constructor over the pairs of the file.
unfoldable pub insert_all : List (Text × Text) → Config → Config
insert_all [] m = m
insert_all ((k, v) ∷ kvs) m = insert_all kvs (insert k v m)

module _ (trees : PropertyTree) where
  open trees use {Tree, read_json, children, value}

  abbrev pub pairs : List (Text × Tree) → List (Text × Text)
  pairs = map (λ it. (it.0, value it.1))

  -- `Context::Context`. A file that cannot be opened is none; reading it throws, as a file with a
  -- fault in it does, and the handler leaves the configuration as it is.
  unfoldable pub load : Option Text → Config → Config
  load Option.none m = m
  load (some file) m = elim (read_json file) [
    | Option.none ↦ m
    | some tree ↦ insert_all (pairs (children tree)) m
  ]

abbrev default_empty : Option Text → Text
default_empty Option.none = []
default_empty (some v) = v

-- `config[key]`: a key that is not there is inserted with the empty string.
unfoldable pub index : Text → Config → Text × Config
index key m = (default_empty (find key m), insert key [] m)
