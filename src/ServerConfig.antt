-- ===== src/ServerConfig.antt =====
-- server/include/server_config.h and server/src/server_config.cpp.
pub mod Entries
use client_server_db.Prelude.{
  Text, List, [], ◌∷◌, Bool, true, false, Option, some, codes, text_eq, if◌then◌else◌,
}
use client_server_db.Prelude.Exec.{Exec, ok, throws, parse_error}
use client_server_db.Boost.{PropertyTree}

pub record ServerConfig : Type 0 where
  pub m_ip : Text
  pub m_port : Text

-- One round of the loop over the tree's children.
unfoldable pub take_entry : Text → Text → ServerConfig → ServerConfig
take_entry key v c =
    if text_eq key (codes "host")
    then record c { m_ip = v }
    else if text_eq key (codes "port")
    then record c { m_port = v }
    else c

module _ (trees : PropertyTree) where
  open trees use {Tree, read_json, children, value}

  unfoldable pub take_entries : List (Text × Tree) → ServerConfig → ServerConfig
  unfolding take_entry
  take_entries [] c = c
  take_entries ((k, t) ∷ kvs) c = take_entries kvs (take_entry k (value t) c)

  -- `initialize_server_config`: false where the file cannot be opened; what `read_json` throws is
  -- not caught.
  unfoldable pub initialize_server_config : Option Text → Exec ServerConfig Bool
  initialize_server_config Option.none c = (ok false, c)
  initialize_server_config (some file) c = elim (read_json file) [
    | Option.none ↦ (throws parse_error, c)
    | some tree ↦ (ok true, take_entries (children tree) c)
  ]
