-- ===== src/Upload/Rounds.antt =====
-- What the client sends, and where.
use client_server_db.Prelude.{
  ℕ, Text, [], ◌∷◌, ◌++◌, ◌<◌, ◌^◌, ◌≡◌, refl, ap, ◌∙◌, Bool, true, false, Option, some, arith,
  codes, take, length, text_eq, if◌then◌else◌, Bool-cases, inl, inr,
}
use client_server_db.Prelude.Exec.{ok, throws, out_of_range}
use client_server_db.Strings.{find}
use client_server_db.Context.{Config, index}
use client_server_db.Context.Lookup.{index-index}
use client_server_db.Floats.{Floats}
use client_server_db.Wire.{Bytes, Runtime}
use client_server_db.Wire.Laws.{Laws}
use client_server_db.Messages.MachineInfo.{
  MachineInfo, new_machine_info, byte_size, serialize_to_string, parse_from_string,
}
use client_server_db.Messages.MachineInfo.RoundTrip.{
  IsSendable, parse_from_string-serialize_to_string,
}
use client_server_db.ClientInfo.Rounds.{returns}
use client_server_db.ClientInfo.Report.{Host, get_machine_info, notes}
use client_server_db.World.{LogEntry}
use client_server_db.Upload.{
  Server, new_server, replace_from, Agent, note, Http, answered, send_data, upload, round,
}

-- The character does not occur.
abbrev pub IsFree : ℕ → Text → Type 0
IsFree d s = find d s ≡ Option.none

find-append : (d : ℕ) (s rest : Text) → IsFree d s → find d (s ++ (d ∷ rest)) ≡ some (length s)
unfolding find
find-append d [] rest h = ground arith
find-append d (c ∷ s) rest h = ground (arith, find-append d s rest)

take-front : (s rest : Text) → take (length s) (s ++ rest) ≡ s
take-front [] rest = refl
take-front (c ∷ s) rest = ap (λ t. c ∷ t) (take-front s rest)

replaced :
    (front rest id : Text)
    → IsFree b'@' front
    → replace_from (front ++ (b'@' ∷ rest)) (find b'@' (front ++ (b'@' ∷ rest))) id
      ≡ ok (front ++ id)
unfolding replace_from
replaced front rest id free = rw (find-append b'@' front rest free, replace_from, take-front) refl

unreplaced :
    (url id : Text) → IsFree b'@' url → replace_from url (find b'@' url) id ≡ throws out_of_range
unfolding replace_from
unreplaced url id free = rw (free, replace_from) refl

-- What the four lookups of the constructor answer.
module _ (c : Config) where
  abbrev host_read : Config
  host_read = (index (codes "host") c).1

  abbrev port_read : Config
  port_read = (index (codes "port") host_read).1

  abbrev url_read : Config
  url_read = (index (codes "url") port_read).1

  port_same : (index (codes "port") host_read).0 ≡ (index (codes "port") c).0
  port_same = index-index _ _ c

  url_same : (index (codes "url") port_read).0 ≡ (index (codes "url") c).0
  url_same = index-index _ _ host_read ∙ index-index _ _ c

  client_id_same : (index (codes "client_id") url_read).0 ≡ (index (codes "client_id") c).0
  client_id_same = index-index _ _ port_read ∙ index-index _ _ host_read ∙ index-index _ _ c

-- The url of the configuration up to its first `@`, with the client's id behind it, is where the
-- client posts to, and the host and the port are those of the configuration; a url without an `@`
-- ends the constructor with out_of_range.
pub new_server_lem :
    (c : Config)
    → ((front rest : Text)
        → (index (codes "url") c).0 ≡ front ++ (b'@' ∷ rest)
        → IsFree b'@' front
        → (new_server c).0
          ≡ ok (record {
            m_ip = (index (codes "host") c).0;
            m_port = (index (codes "port") c).0;
            m_url = front ++ (index (codes "client_id") c).0;
          }))
      × (IsFree b'@' (index (codes "url") c).0 → (new_server c).0 ≡ throws out_of_range)
unfolding new_server
new_server_lem c = (
  λ front rest e free.
      rw (port_same c, url_same c, client_id_same c, e, replaced front rest _ free) refl,
  λ free. rw (url_same c, unreplaced _ _ free) refl,
)

module _ {floats : Floats} (rt : Runtime floats) (laws : Laws rt) (http : Http) where
  -- Whatever the server answers, no further request is made.
  answered_requests :
      (status : Option Text) (a : Agent) → (answered http status a).1.requests ≡ a.requests
  unfolding answered note
  answered_requests Option.none a = refl
  answered_requests (some status) a = elim (Bool-cases (text_eq (take 3 status) (codes "201"))) [
    | inl created ↦ rw created refl
    | inr other ↦ rw other refl
  ]

  noted_requests :
      (sent : Bool) (e f : LogEntry) (a : Agent)
      → (if sent then note e a else note f a).requests ≡ a.requests
  unfolding note
  noted_requests true e f a = refl
  noted_requests false e f a = refl

  upload_requests :
      (s : Server) (message : MachineInfo rt) (content : Bytes) (a : Agent)
      → serialize_to_string rt message ≡ some content
      → (upload http rt s message a).requests
        ≡ a.requests ++ ((s.m_ip ++ (codes ":" ++ s.m_port), s.m_url, content) ∷ [])
  unfolding upload send_data
  upload_requests s message content a written =
      rw (written, upload)
        (noted_requests (send_data http s content a).0 _ _ (send_data http s content a).1
          ∙ answered_requests (http (s.m_ip ++ (codes ":" ++ s.m_port)) s.m_url content) (record a {
            requests = a.requests ++ ((s.m_ip ++ (codes ":" ++ s.m_port), s.m_url, content) ∷ []);
          }))

  -- A round in which the report of get_machine_info is one that the wire carries, and is not too
  -- long, makes one request: to the host and the path of the server's object, with a content that
  -- parses to that same report, whatever the server answers.
  pub round_lem :
      (s : Server) (fuel : ℕ) (host : Host rt) (message : MachineInfo rt) (a : Agent)
      → get_machine_info rt fuel host ≡ returns message
      → IsSendable rt message
      → byte_size rt message < 2 ^ 31
      → (content : Bytes) × ((round http rt s fuel host a).1.requests
          ≡ a.requests ++ ((s.m_ip ++ (codes ":" ++ s.m_port), s.m_url, content) ∷ []))
        × (parse_from_string rt content (new_machine_info rt) ≡ some message)
  unfolding round
  round_lem s fuel host message a e sendable short =
      let (content, written, sized, parsed) =
        parse_from_string-serialize_to_string rt laws message (new_machine_info rt) sendable
          short in
      let noted = record a { log = a.log ++ notes rt fuel host } in
      (content, rw (e, round) (upload_requests s message content noted written), parsed)
