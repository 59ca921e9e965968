-- ===== src/Startup/Started.antt =====
-- The server's process behind its start.
use client_server_db.Prelude.{
  ℕ, ◌+◌, ◌-◌, ◌%◌, arith, Text, List, [], ◌≡◌, refl, ap, ◌∙◌, Option, codes,
}
use client_server_db.Prelude.Int.{ℤ, pos, negsuc, pos_part, neg_part}
use client_server_db.Prelude.Exec.{Outcome, ok, throws, fault}
use client_server_db.Prelude.Numbers.{stoi}
use client_server_db.Prelude.Maps.{find}
use client_server_db.Boost.{PropertyTree}
use client_server_db.Context.{Config, load, index}
use client_server_db.Context.Lookup.{index-index}
use client_server_db.Floats.{Floats}
use client_server_db.Smtp.{Network}
use client_server_db.World.{World, LogEntry, config_at, write_log}
use client_server_db.Wire.{Runtime}
use client_server_db.Alerts.Kinds.{Client}
use client_server_db.Alerts.Parse.{add_clients}
use client_server_db.Alerts.Registry.{Added, first_with}
use client_server_db.Alerts.Registry.Listed.{listed, add_clients-Added}
use client_server_db.Persistence.{Database}
use client_server_db.Startup.{HttpServer, http_server, to_uint16, start}

-- A number modulo 65536.
abbrev pub as_port : ℤ → ℕ
as_port z = (pos_part z + (65536 - neg_part z % 65536)) % 65536

as_port-to_uint16 : (z : ℤ) → to_uint16 z ≡ as_port z
unfolding to_uint16
as_port-to_uint16 (pos n) = omega arith
as_port-to_uint16 (negsuc n) = omega arith

module _ {floats : Floats} where
  -- The state of the process when `main` is called.
  abbrev pub initial : World floats
  initial = record { config = []; log = []; mails = []; rows = []; clients = []; client_map = [] }

  -- The state behind the start, for the configuration and the clients that the files hold:
  -- `config[key]` answers from the one, and the other are registered, the first of each key in the
  -- map.
  pub record Ready (settings : Config) (cs : List Client) (w : World floats) : Type 0 where
    pub config : (k : Text) → (index k w.config).0 ≡ (index k settings).0
    pub clients : w.clients ≡ cs
    pub found : (k : Text) → find k w.client_map ≡ first_with k cs
    pub rows : w.rows ≡ []
    pub mails : w.mails ≡ []

module _ (trees : PropertyTree) where
  -- The configuration that the process loads.
  abbrev pub settings : Option Text → Config
  settings config_file = load trees config_file []

module _ {floats : Floats} (trees : PropertyTree) (rt : Runtime floats) (net : Network)
    (db : Database floats) where
  abbrev loaded : Option Text → Option Text → World floats
  loaded config_file client_list =
      add_clients trees (codes "config/client-list.xml") client_list
        (record (initial {floats = floats}) { config = load trees config_file [] })

  loaded-Added :
      (config_file client_list : Option Text)
      → Added trees
          (listed trees client_list)
          (record (initial {floats = floats}) { config = settings trees config_file })
          (loaded config_file client_list)
  unfolding find
  loaded-Added config_file client_list =
      add_clients-Added trees (codes "config/client-list.xml") client_list
        (record (initial {floats = floats}) { config = settings trees config_file })

  -- What stoi makes of server_port decides the start.
  abbrev pub starts : Option Text → Outcome ℤ → Outcome (HttpServer floats)
  starts config_file (ok z) =
      ok (
        http_server rt net db (as_port z)
          (index (codes "server_ip") (settings trees config_file)).0)
  starts config_file (throws e) = throws e
  starts config_file fault = fault

  same_entry :
      (config_file client_list : Option Text) (k : Text)
      → (index k (loaded config_file client_list).config).0
        ≡ (index k (settings trees config_file)).0
  same_entry config_file client_list k =
      ap (λ c. (index k c).0) (loaded-Added config_file client_list).others.config

  -- What the start does behind the two files leaves the process ready.
  loaded-Ready :
      (config_file client_list : Option Text) (c : Config) (log : List LogEntry)
      → ((k : Text) → (index k c).0 ≡ (index k (loaded config_file client_list).config).0)
      → Ready
          (settings trees config_file)
          (listed trees client_list)
          (record (loaded config_file client_list) { config = c; log = log })
  unfolding find
  loaded-Ready config_file client_list c log same =
      let a = loaded-Added config_file client_list in
      record {
        config = λ k. same k ∙ same_entry config_file client_list k;
        clients = a.clients;
        found = a.found;
        rows = a.others.rows;
        mails = a.others.mails;
      }

  starts-Ready :
      (config_file client_list : Option Text) (r : Outcome ℤ)
      → stoi (index (codes "server_port") (settings trees config_file)).0 ≡ r
      → ((start trees rt net db config_file client_list initial).0 ≡ starts config_file r)
        × Ready
            (settings trees config_file)
            (listed trees client_list)
            (start trees rt net db config_file client_list initial).1
  unfolding start config_at write_log
  starts-Ready config_file client_list (ok z) e =
      let c = (loaded config_file client_list).config in
      let port = codes "server_port" in
      let ip = codes "server_ip" in
      rw (ap stoi (same_entry config_file client_list port) ∙ e) (
        ap (λ t. ok (http_server rt net db (to_uint16 z) t))
              (index-index port ip c ∙ same_entry config_file client_list ip)
            ∙ ap (λ p. ok (http_server rt net db p (index ip (settings trees config_file)).0))
                (as_port-to_uint16 z),
        loaded-Ready config_file client_list _ _
            (λ k. index-index ip k (index port c).1 ∙ index-index port k c),
      )
  starts-Ready config_file client_list (throws x) e =
      rw (ap stoi (same_entry config_file client_list (codes "server_port")) ∙ e) (
        refl,
        loaded-Ready config_file client_list _ _ (λ k. index-index (codes "server_port") k _),
      )
  starts-Ready config_file client_list fault e =
      rw (ap stoi (same_entry config_file client_list (codes "server_port")) ∙ e) (
        refl,
        loaded-Ready config_file client_list _ _ (λ k. index-index (codes "server_port") k _),
      )

  pub start_lem :
      (config_file client_list : Option Text)
      → ((start trees rt net db config_file client_list initial).0
          ≡ starts config_file (stoi (index (codes "server_port") (settings trees config_file)).0))
        × Ready
            (settings trees config_file)
            (listed trees client_list)
            (start trees rt net db config_file client_list initial).1
  start_lem config_file client_list = starts-Ready config_file client_list _ refl
