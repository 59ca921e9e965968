-- ===== src/World.antt =====
-- The state of the server's process that the handlers change: the configuration, which
-- `config[key]` may extend, what the logger is given, the mails, the rows of the database, and
-- the clients.
use client_server_db.Prelude.{Text, List, [], ◌∷◌, ◌++◌}
use client_server_db.Prelude.Exec.{Exec, ok}
use client_server_db.Context.{Config, index}
use client_server_db.Floats.{Floats}
use client_server_db.Machine.{MachineInfo}
use client_server_db.Smtp.{SmtpClient}
use client_server_db.Alerts.Kinds.{Client}

-- A call of the logger: the format text and its arguments.
pub data LogEntry : Type 0 where
  info : Text → List Text → LogEntry
  critical : Text → List Text → LogEntry

pub record World (floats : Floats) : Type 0 where
  pub config : Config
  pub log : List LogEntry
  -- Each `SMTPClient` whose `Send` has returned, as it stands then.
  pub mails : List SmtpClient
  pub rows : List (MachineInfo floats)
  -- The static members of `Client`. A client is not changed once it is in them, so the two hold
  -- it by value.
  pub clients : List Client
  pub client_map : List (Text × Client)

module _ {floats : Floats} where
  unfoldable pub write_log : LogEntry → Exec (World floats) (Unit {0})
  write_log entry w = (ok tt, record w { log = w.log ++ (entry ∷ []) })

  -- `config[key]`, which may insert the key.
  unfoldable pub config_at : Text → Exec (World floats) Text
  config_at key w = let (v, c) = index key w.config in (ok v, record w { config = c })
