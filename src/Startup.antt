-- ===== src/Startup.antt =====
-- server/src/server.cpp, `main`: how the server's process comes up, and what it gives to the HTTP
-- server, which is another project's library.
pub mod Started
pub mod Serving
pub mod Answers
pub mod Whole
pub mod Failing
use client_server_db.Prelude.{ℕ, Text, List, [], ◌∷◌, ◌+◌, ◌-◌, ◌%◌, Option, some, codes}
use client_server_db.Prelude.Int.{ℤ, pos, negsuc}
use client_server_db.Prelude.Exec.{Exec, Outcome, ok, pure, lift, gets, modify, ◌>>=◌, ◌>>◌}
use client_server_db.Prelude.Numbers.{stoi}
use client_server_db.Boost.{PropertyTree}
use client_server_db.Context.{load}
use client_server_db.Floats.{Floats}
use client_server_db.Smtp.{Network}
use client_server_db.World.{World, LogEntry, info, critical, write_log, config_at}
use client_server_db.Wire.{Bytes, Runtime}
use client_server_db.Alerts.Parse.{add_clients}
use client_server_db.Persistence.{Database}
use client_server_db.Handler.{StatusCode, handle_post, handle_default}

-- A handler: on the path of a request and its content it writes one status.
abbrev pub HandlerOf : Floats → Type 0
HandlerOf floats = Text → Bytes → Exec (World floats) StatusCode

-- Handlers by the method of the request.
abbrev pub Methods : Floats → Type 0
Methods floats = List (Text × HandlerOf floats)

-- What `main` sets of the library's server: the members of `config`, the handlers of a resource by
-- its regular expression, the handlers of every other path, and `on_error` on the text that it
-- logs.
pub record HttpServer (floats : Floats) : Type 0 where
  pub port : ℕ
  pub address : Text
  pub resource : List (Text × Methods floats)
  pub default_resource : Methods floats
  pub on_error : Text → Exec (World floats) (Unit {0})

-- The conversion of an `int` to the `unsigned short` of `config.port`.
unfoldable pub to_uint16 : ℤ → ℕ
to_uint16 (pos n) = n % 65536
to_uint16 (negsuc n) = 65535 - n % 65536

unfoldable pub machine_resource : Text
machine_resource = codes "^/machine/[a-zA-Z0-9]*$"

module _ {floats : Floats} where
  unfoldable pub on_error : Text → Exec (World floats) (Unit {0})
  unfolding write_log
  on_error content = write_log (critical (codes "Error request : {0}") (content ∷ []))

  -- The handler of the default resources.
  unfoldable pub answer_default : HandlerOf floats
  unfolding handle_default
  answer_default path content = pure handle_default

module _ {floats : Floats} (rt : Runtime floats) (net : Network) (db : Database floats) where
  -- The server, when its members are set.
  unfoldable pub http_server : ℕ → Text → HttpServer floats
  unfolding machine_resource answer_default
  http_server port address = record {
    port = port;
    address = address;
    resource = (machine_resource, (codes "POST", handle_post rt net db) ∷ []) ∷ [];
    default_resource = (codes "GET", answer_default) ∷ (codes "POST", answer_default) ∷ [];
    on_error = on_error;
  }

module _ {floats : Floats} (trees : PropertyTree) (rt : Runtime floats) (net : Network)
    (db : Database floats) where
  -- `main` up to `server.start()`, on the texts of the configuration file and of the client list,
  -- none where there is no such file.
  unfoldable pub start : Option Text → Option Text → Exec (World floats) (HttpServer floats)
  unfolding http_server to_uint16 write_log config_at
  start config_file client_list = do
    modify (λ w. record w { config = load trees config_file w.config })
    modify (add_clients trees (codes "config/client-list.xml") client_list)
    server_port ← config_at (codes "server_port")
    port ← lift (stoi server_port)
    server_ip ← config_at (codes "server_ip")
    write_log (info (codes "Server initialized") [])
    pure (http_server rt net db (to_uint16 port) server_ip)
