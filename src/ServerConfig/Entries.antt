-- ===== src/ServerConfig/Entries.antt =====
-- What the server's configuration holds after its file is read.
use client_server_db.Prelude.{
  Text, List, [], ◌∷◌, ◌≡◌, refl, ap, ◌∙◌, Bool-cases, inl, inr, true, false, Option, some, codes,
  text_eq, text_eq_sound, if◌then◌else◌,
}
use client_server_db.Prelude.Exec.{ok, throws, parse_error}
use client_server_db.Boost.{PropertyTree}
use client_server_db.ServerConfig.{ServerConfig, take_entry, take_entries, initialize_server_config}

-- A key is not both.
take_entry_lem :
    (key v : Text) (c : ServerConfig)
    → take_entry key v c ≡ record {
      m_ip = if text_eq key (codes "host") then v else c.m_ip;
      m_port = if text_eq key (codes "port") then v else c.m_port;
    }
unfolding take_entry text_eq
take_entry_lem key v c = elim (Bool-cases (text_eq key (codes "host"))) [
  | inl host ↦ rw (text_eq_sound key (codes "host") host, take_entry) refl
  | inr other ↦ elim (Bool-cases (text_eq key (codes "port"))) [
    | inl port ↦ rw (other, port) refl
    | inr neither ↦ rw (other, neither) refl
  ]
]

module _ (trees : PropertyTree) where
  open trees use {Tree, read_json, children, value}

  -- The value of the last child with a key, or the old value.
  unfoldable pub last_value : Text → List (Text × Tree) → Text → Text
  last_value key [] old = old
  last_value key ((k, t) ∷ kvs) old = last_value key kvs (if text_eq k key then value t else old)

  take_entries-last_value :
      (kvs : List (Text × Tree)) (c : ServerConfig)
      → take_entries trees kvs c ≡ record {
        m_ip = last_value (codes "host") kvs c.m_ip;
        m_port = last_value (codes "port") kvs c.m_port;
      }
  unfolding take_entries last_value
  take_entries-last_value [] c = refl
  take_entries-last_value ((k, t) ∷ kvs) c =
      take_entries-last_value kvs (take_entry k (value t) c)
      ∙ ap
          (λ d. record {
            m_ip = last_value (codes "host") kvs d.m_ip;
            m_port = last_value (codes "port") kvs d.m_port;
          })
          (take_entry_lem k (value t) c)

  -- A configuration that parses sets the host and the port to the values of the last children with
  -- these keys, and keeps the old value where there is none. A file that cannot be opened changes
  -- nothing and answers false; one that does not parse changes nothing and throws.
  pub initialize_server_config_lem :
      (file : Text) (c : ServerConfig)
      → (initialize_server_config trees Option.none c ≡ (ok false, c))
        × (read_json file ≡ Option.none
            → initialize_server_config trees (some file) c ≡ (throws parse_error, c))
        × ((tree : Tree)
            → read_json file ≡ some tree
            → initialize_server_config trees (some file) c ≡ (
              ok true,
              record {
                m_ip = last_value (codes "host") (children tree) c.m_ip;
                m_port = last_value (codes "port") (children tree) c.m_port;
              },
            ))
  unfolding initialize_server_config
  initialize_server_config_lem file c = (
    refl,
    λ e. rw (e, initialize_server_config) refl,
    λ tree e. rw (e, initialize_server_config, take_entries-last_value (children tree) c) refl,
  )
