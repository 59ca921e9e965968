-- ===== src/Prototype/Posted.antt =====
-- What the earlier client posts, and what the server makes of it.
use client_server_db.Prelude.{
  ℕ, Text, [], ◌∷◌, ◌<◌, ◌^◌, ◌≡◌, refl, ap, ◌∙◌, Option, some, codes, text_eq,
}
use client_server_db.Prelude.Exec.{Exception, ok}
use client_server_db.Floats.{Floats}
use client_server_db.Smtp.{Network}
use client_server_db.World.{World}
use client_server_db.Wire.{Bytes, Runtime}
use client_server_db.Wire.Laws.{Laws}
use client_server_db.Messages.MachineInfo.{
  MachineInfo, new_machine_info, byte_size, serialize_to_string, parse_from_string,
}
use client_server_db.Messages.MachineInfo.RoundTrip.{
  IsSendable, parse_from_string-serialize_to_string,
}
use client_server_db.Persistence.{Database}
use client_server_db.Handler.{server_error_not_implemented, is_machine_path, matches_behind}
use client_server_db.ClientInfo.Rounds.{returns, raises}
use client_server_db.ClientInfo.Report.{Host}
use client_server_db.ClientInfo.Report as Report
use client_server_db.Startup.{http_server}
use client_server_db.Startup.Serving.{HttpLibrary, Serves}
use client_server_db.Startup.Answers.{respond-other}
use client_server_db.Prototype.{
  Http, Ended, Printing, get_machine_info, answered, after_report, post, main,
}
use client_server_db.Prototype.Same.{as_prototype, prototype_of, get_machine_info_lem}

module _ {floats : Floats} (rt : Runtime floats) (laws : Laws rt) (http : Http) where
  answered_requests :
      (answer : Option (Text × Text)) (d : Ended floats)
      → (answered http answer d).requests ≡ d.requests
  answered_requests Option.none d = refl
  answered_requests (some (status, content)) d = refl

  after_returned :
      (r : Printing floats (MachineInfo rt)) (message : MachineInfo rt) (content : Bytes)
      → r.0 ≡ returns message
      → serialize_to_string rt message ≡ some content
      → ((after_report http rt r).0 ≡ returns tt)
        × ((after_report http rt r).1.requests
            ≡ (codes "192.168.1.3:9090", codes "/machine?id=123", content) ∷ [])
  unfolding post
  after_returned r message content e written =
      (rw e refl, rw (e, written, post) (answered_requests _ _))

  after_raised :
      (r : Printing floats (MachineInfo rt)) (e : Exception)
      → r.0 ≡ raises e
      → ((after_report http rt r).0 ≡ raises e) × ((after_report http rt r).1.requests ≡ [])
  after_raised r e raised = (rw raised refl, rw raised refl)

  -- Where the environment has a USER and the later client's report is returned, if the earlier one,
  -- with the user's name and without the time, is one that the wire carries, of less than 2 ^ 31
  -- bytes, main returns behind one request, to the fixed host and path, whose content parses to
  -- that report, whatever is answered.
  pub main_lem :
      (fuel : ℕ) (user : Text) (host : Host rt) (message : MachineInfo rt)
      → Report.get_machine_info rt fuel host ≡ returns message
      → IsSendable rt (as_prototype rt user message)
      → byte_size rt (as_prototype rt user message) < 2 ^ 31
      → (content : Bytes) × ((main http rt fuel (some user) host).0 ≡ returns tt)
        × ((main http rt fuel (some user) host).1.requests
            ≡ (codes "192.168.1.3:9090", codes "/machine?id=123", content) ∷ [])
        × (parse_from_string rt content (new_machine_info rt) ≡ some (as_prototype rt user message))
  unfolding main
  main_lem fuel user host message e sendable short =
      let (content, written, sized, parsed) =
        parse_from_string-serialize_to_string rt laws (as_prototype rt user message)
          (new_machine_info rt) sendable short in
      let sent =
        after_returned (get_machine_info rt fuel (some user) host) (as_prototype rt user message)
          content (get_machine_info_lem rt fuel user host ∙ ap (prototype_of rt user) e) written in
      (content, sent.0, sent.1, parsed)

  -- Where the later client's report ends with an exception, main ends with it, without a request.
  main_raises :
      (fuel : ℕ) (user : Text) (host : Host rt) (e : Exception)
      → Report.get_machine_info rt fuel host ≡ raises e
      → ((main http rt fuel (some user) host).0 ≡ raises e)
        × ((main http rt fuel (some user) host).1.requests ≡ [])
  unfolding main
  main_raises fuel user host e raised =
      after_raised (get_machine_info rt fuel (some user) host) e
        (get_machine_info_lem rt fuel user host ∙ ap (prototype_of rt user) raised)

module _ {floats : Floats} (rt : Runtime floats) (net : Network) (db : Database floats)
    (lib : HttpLibrary floats) (serves : Serves lib) where
  -- The path of the earlier client, without its query, is no path of the server's resource: the
  -- server answers 501 and is unchanged.
  respond-prototype :
      (port : ℕ) (address : Text) (content : Bytes) (w : World floats)
      → lib.respond
          (http_server rt net db port address)
          (record { method = codes "POST"; path = codes "/machine"; content = content })
          w
        ≡ (ok (some server_error_not_implemented), w)
  unfolding is_machine_path matches_behind text_eq
  respond-prototype port address content w =
      respond-other rt net db lib serves port address []
        (record { method = codes "POST"; path = codes "/machine"; content = content }) w refl
