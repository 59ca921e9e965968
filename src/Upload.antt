-- ===== src/Upload.antt =====
-- client/src/server.cpp and the loop of client/src/client.cpp: where the client posts its reports,
-- and one round of its loop. The HTTP client is another project's library.
pub mod Rounds
use client_server_db.Prelude.{
  ℕ, Text, List, [], ◌∷◌, ◌++◌, Bool, true, false, Option, some, codes, take, text_eq,
  if◌then◌else◌,
}
use client_server_db.Prelude.Int.{ℤ}
use client_server_db.Prelude.Exec.{
  Exec, Exception, Outcome, ok, throws, fault, out_of_range, pure, lift, ◌>>=◌, ◌>>◌,
}
use client_server_db.Prelude.Numbers.{stoi}
use client_server_db.Strings.{find}
use client_server_db.Context.{Config, index}
use client_server_db.Floats.{Floats}
use client_server_db.World.{LogEntry, info, critical}
use client_server_db.Wire.{Bytes, Runtime}
use client_server_db.Messages.MachineInfo as InfoMessage
use client_server_db.ClientInfo.Rounds as Loops
use client_server_db.ClientInfo.Rounds.{Run, returns, raises, undefined, out_of_fuel}
use client_server_db.ClientInfo.Report.{Host, get_machine_info, notes}

pub record Server : Type 0 where
  pub m_ip : Text
  pub m_port : Text
  pub m_url : Text

-- `m_url.replace( m_url.find("@"), m_url.length() - m_url.find("@"), client_id )`: what begins at
-- the first `@` is replaced, and without one `replace` throws.
unfoldable pub replace_from : Text → Option ℕ → Text → Outcome Text
replace_from url Option.none client_id = throws out_of_range
replace_from url (some p) client_id = ok (take p url ++ client_id)

-- The result of `replace_from` in its member.
abbrev built : Text → Text → Outcome Text → Outcome Server
built ip port (ok url) = ok (record { m_ip = ip; m_port = port; m_url = url })
built ip port (throws e) = throws e
built ip port fault = fault

-- `Server::Server`
unfoldable pub new_server : Exec Config Server
unfolding replace_from find
new_server c =
    let (ip, c1) = index (codes "host") c in
    let (port, c2) = index (codes "port") c1 in
    let (url, c3) = index (codes "url") c2 in
    let (client_id, c4) = index (codes "client_id") c3 in
    (built ip port (replace_from url (find b'@' url) client_id), c4)

-- What the client's process changes: its configuration, what the logger is given, and the requests:
-- the host, the path and the content of each.
pub record Agent : Type 0 where
  pub config : Config
  pub log : List LogEntry
  pub requests : List (Text × Text × Bytes)

unfoldable pub note : LogEntry → Agent → Agent
note entry a = record a { log = a.log ++ (entry ∷ []) }

-- The HTTP client's answer to a POST: the status, or none where it throws a `system_error`.
abbrev pub Http : Type 0
Http = Text → Text → Bytes → Option Text

module _ (http : Http) where
  -- `send_data` after the request.
  unfoldable pub answered : Option Text → Agent → Bool × Agent
  unfolding note
  answered Option.none a = (false, note (critical (codes "Client request error : {}") []) a)
  answered (some status) a = if text_eq (take 3 status) (codes "201") then (true, a) else (
    false,
    note (critical (codes "Server failed to process data, return code : {}") (status ∷ [])) a,
  )

  -- `send_data`
  unfoldable pub send_data : Server → Bytes → Agent → Bool × Agent
  unfolding answered
  send_data s content a =
      let host = s.m_ip ++ (codes ":" ++ s.m_port) in
      answered (http host s.m_url content)
        (record a { requests = a.requests ++ ((host, s.m_url, content) ∷ []) })

  module _ {floats : Floats} (rt : Runtime floats) where
    -- The branches on the serializer and on `send_data`.
    unfoldable pub upload : Server → InfoMessage.MachineInfo rt → Agent → Agent
    unfolding send_data note
    upload s message a = elim (InfoMessage.serialize_to_string rt message) [
      | Option.none ↦ note (critical (codes "failed to serialize data") []) a
      | some binary_data ↦
          let (sent, a') = send_data s binary_data a in
          if sent
          then note (info (codes "Send details to server") []) a'
          else note (critical (codes "failed to send details to server {}") []) a'
    ]

    -- The argument of `sleep`.
    abbrev pub pause : Agent → Run ℤ × Agent
    pause a =
        let (text, c) = index (codes "send_stat_frequency") a.config in
        (Loops.run (stoi text), record a { config = c })

    -- What follows `get_machine_info` in a round.
    abbrev after_report : Server → Run (InfoMessage.MachineInfo rt) → Agent → Run ℤ × Agent
    after_report s (returns message) a = pause (upload s message a)
    after_report s (raises e) a = (raises e, a)
    after_report s undefined a = (undefined, a)
    after_report s out_of_fuel a = (out_of_fuel, a)

    -- One round of the loop of `main`, to the seconds that it sleeps.
    unfoldable pub round : Server → ℕ → Host rt → Agent → Run ℤ × Agent
    unfolding upload notes
    round s fuel host a =
        after_report s (get_machine_info rt fuel host)
          (record a { log = a.log ++ notes rt fuel host })
