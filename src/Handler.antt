-- ===== src/Handler.antt =====
-- server/src/server.cpp: the handlers that `main` gives to the HTTP server, which is another
-- project's library.
pub mod Replies
pub mod Served
pub mod Paths
pub mod EndToEnd
use client_server_db.Prelude.{
  ℕ, Text, List, [], ◌∷◌, ◌++◌, ◌+◌, ◌-◌, Bool, true, false, Option, some, codes, length, leb, ◌||◌,
  ◌&&◌, if◌then◌else◌,
}
use client_server_db.Prelude.Exec.{Exec, Outcome, ok, pure, lift, dereference, ◌>>=◌, ◌>>◌}
use client_server_db.Strings.{rfind, substr}
use client_server_db.Floats.{Floats}
use client_server_db.Machine.{MachineInfo}
use client_server_db.Smtp.{Network}
use client_server_db.World.{World, LogEntry, info, critical, write_log}
use client_server_db.Wire.{Bytes, Runtime}
use client_server_db.Alerts.Kinds.{Client}
use client_server_db.Alerts.Notify.{notify}
use client_server_db.Alerts.Parse.{authenticate_client, get_client}
use client_server_db.Persistence.{Database, get_orm_object, write_client_info_db}

-- The `SimpleWeb::StatusCode` that a handler writes.
pub data StatusCode : Type 0 where
  success_created client_error_unauthorized server_error_not_implemented : StatusCode

unfoldable pub is_key_char : ℕ → Bool
is_key_char c =
    (leb b'a' c && leb c b'z') || ((leb b'A' c && leb c b'Z') || (leb b'0' c && leb c b'9'))

unfoldable pub all_key_chars : Text → Bool
unfolding is_key_char
all_key_chars [] = true
all_key_chars (c ∷ s) = is_key_char c && all_key_chars s

-- `[a-zA-Z0-9]*$` behind a prefix that is matched character by character.
unfoldable pub matches_behind : Text → Text → Bool
unfolding all_key_chars
matches_behind [] s = all_key_chars s
matches_behind (p ∷ ps) [] = false
matches_behind (p ∷ ps) (c ∷ s) = (leb p c && leb c p) && matches_behind ps s

-- The resource `^/machine/[a-zA-Z0-9]*$`.
unfoldable pub is_machine_path : Text → Bool
unfolding matches_behind
is_machine_path = matches_behind (codes "/machine/")

-- `path.substr( path.rfind("/")+1, path.length() - path.rfind("/"))`, where `npos + 1` is 0.
unfoldable pub client_key : Text → Text
unfolding rfind
client_key path = elim (rfind b'/' path) [
  | Option.none ↦ substr 0 (length path + 1) path
  | some p ↦ substr (p + 1) (length path - p) path
]

module _ {floats : Floats} (rt : Runtime floats) (net : Network) (db : Database floats) where
  -- The handler behind the test of the key.
  unfoldable pub handle_report : Text → Bytes → Exec (World floats) StatusCode
  unfolding get_orm_object write_client_info_db get_client notify write_log
  handle_report key content = do
    machine_info ← get_orm_object rt key content
    write_client_info_db db machine_info
    found ← λ w. let (c, w') = get_client key w in (ok c, w')
    client ← lift (dereference found)
    notify floats net client machine_info
    write_log (info (codes "{0} client info persisted") (key ∷ []))
    pure success_created

  -- The handler of POST at the resource: the path of the request and its content.
  unfoldable pub handle_post : Text → Bytes → Exec (World floats) StatusCode
  unfolding authenticate_client client_key handle_report write_log
  handle_post path content w =
      let (known, w') = authenticate_client (client_key path) w in
      if known
      then handle_report (client_key path) content w'
      else (do
        write_log (
            critical (codes "Unknown client request recieved from client {0}")
              (client_key path ∷ []))
        pure client_error_unauthorized)
          w'

-- The default resources of GET and of POST.
unfoldable pub handle_default : StatusCode
handle_default = server_error_not_implemented
