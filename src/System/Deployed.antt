-- ===== src/System/Deployed.antt =====
-- Both programs from their start: server/src/server.cpp and client/src/client.cpp with the files
-- that they are configured by.
use client_server_db.Prelude.{Text, [], Option}
use client_server_db.Prelude.Exec.{Outcome}
use client_server_db.Boost.{PropertyTree}
use client_server_db.Context.{load}
use client_server_db.Floats.{Floats}
use client_server_db.Smtp.{Network}
use client_server_db.Wire.{Runtime}
use client_server_db.Wire.Laws.{Laws}
use client_server_db.Persistence.{Database}
use client_server_db.Upload.{Server, Agent, new_server}
use client_server_db.Startup.{start}
use client_server_db.Startup.Started.{initial}
use client_server_db.System.{System}

module _ (trees : PropertyTree) where
  -- `main` of the client up to its loop: the configuration and the `Server`.
  unfoldable pub begin_client : Option Text → Outcome Server × Agent
  unfolding new_server
  begin_client config_file =
      let (s, c) = new_server (load trees config_file []) in
      (s, record { config = c; log = []; requests = [] })

module _ {floats : Floats} (trees : PropertyTree) (rt : Runtime floats) (net : Network)
    (db : Database floats) where
  -- The two processes when each has come up.
  abbrev pub both : Option Text → Option Text → Option Text → System floats
  both server_config client_list client_config = record {
    agent = (begin_client trees client_config).1;
    world = (start trees rt net db server_config client_list initial).1;
  }
