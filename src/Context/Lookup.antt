-- ===== src/Context/Lookup.antt =====
-- What `config[key]` answers after the configuration is loaded.
use client_server_db.Prelude.{
  Text, List, [], ◌∷◌, Option, some, ◌≡◌, refl, arith, text_eq, if◌then◌else◌,
}
use client_server_db.Prelude.Maps.{find, insert, find-insert, or_else}
use client_server_db.Boost.{PropertyTree}
use client_server_db.Context.{Config, insert_all, load, pairs, index}

-- An entry that is there stays; otherwise the file's first entry for the key is taken.
pub find-insert_all :
    (k : Text) (kvs : List (Text × Text)) (m : Config)
    → find k (insert_all kvs m) ≡ or_else (find k m) (find k kvs)
unfolding insert_all find
find-insert_all k [] m = ground arith
find-insert_all k ((j, v) ∷ kvs) m =
    ground (arith, find-insert_all k kvs (insert j v m), find-insert j k v m)

module _ (trees : PropertyTree) where
  -- After a configuration file is loaded over the configuration m, a key that m holds keeps its
  -- value, and any other key has the value of its first entry in the file, if it has one. A file
  -- that is missing or that does not parse changes no key.
  pub find-load :
      (k file : Text) (m : Config)
      → (find k (load trees Option.none m) ≡ find k m)
        × (trees.read_json file ≡ Option.none → find k (load trees (some file) m) ≡ find k m)
        × ((tree : trees.Tree)
            → trees.read_json file ≡ some tree
            → find k (load trees (some file) m)
              ≡ or_else (find k m) (find k (pairs trees (trees.children tree))))
  unfolding load
  find-load k file m = (refl, λ e. rw (e, load), λ tree e. rw (e, load) (find-insert_all k _ m))

-- `config[key]` answers the value of the key, or the empty string, and changes the value of no key
-- that has one; it leaves behind an empty value for a key that had none.
pub find-index :
    (k j : Text) (m : Config)
    → find j (index k m).1 ≡ or_else (find j m) (if text_eq k j then some [] else Option.none)
unfolding index
find-index k j m = find-insert k j [] m

-- A second `config[key]` answers as the first one did, also where the first inserted the key.
pub index-index : (k j : Text) (m : Config) → (index j (index k m).1).0 ≡ (index j m).0
unfolding index
index-index k j m = ground (arith, find-insert k j [] m)
