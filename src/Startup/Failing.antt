-- ===== src/Startup/Failing.antt =====
-- A report whose handler throws: what the server has done by then, and `on_error`.
use client_server_db.Prelude.{
  ℕ, Text, List, [], ◌∷◌, ◌++◌, ◌≡◌, ◌≢◌, refl, ap, ◌∙◌, true, Option, some, codes, map, All,
  if◌then◌else◌,
}
use client_server_db.Prelude.Exec.{Outcome, ok, throws, invalid_argument}
use client_server_db.Prelude.Numbers.{stoi, stol}
use client_server_db.Prelude.Maps.{find}
use client_server_db.Floats.{Floats}
use client_server_db.Smtp.{Network}
use client_server_db.Smtp.Dialogue.{Writes}
use client_server_db.World.{World, LogEntry, critical, write_log}
use client_server_db.Wire.{Bytes, Runtime}
use client_server_db.Messages.MachineInfo as InfoMessage
use client_server_db.Alerts.Kinds.{Alert, TriggerEvent, Client}
use client_server_db.Alerts.Parse.{authenticate_client}
use client_server_db.Alerts.Delivery.{envelope, due}
use client_server_db.Alerts.Delivery.Sent.{HasTrigger, HasPort}
use client_server_db.Alerts.Delivery.Mails.{notify_throws}
use client_server_db.Persistence.{Database, orm_object, write_client_info_db}
use client_server_db.Persistence.Stored.{
  begins_at, takes_at, write_client_info_db-Stored, get_orm_object_lem,
}
use client_server_db.Handler.{StatusCode, client_key, handle_report, handle_post}
use client_server_db.Handler.Replies.{get_client_lem}
use client_server_db.Startup.{http_server, on_error}
use client_server_db.Startup.Serving.{Request, HttpLibrary, Serves, is_report}
use client_server_db.Startup.Answers.{handler_for_lem}

module _ {floats : Floats} (rt : Runtime floats) (net : Network) (db : Database floats) where
  -- What a report leaves behind whose client's events `front` were handled.
  pub record Broken (c : Client) (front : List TriggerEvent) (key : Text)
      (message : InfoMessage.MachineInfo rt) (w v : World floats) : Type 0 where
    pub rows :
        v.rows
        ≡ w.rows
          ++ (if takes_at db w (orm_object rt key message)
              then orm_object rt key message ∷ []
              else [])
    pub mails :
        map envelope v.mails ≡ map envelope w.mails ++ due c (orm_object rt key message) front
    pub client_map : v.client_map ≡ w.client_map

  handle_report_throws :
      Writes net
      → (key : Text) (content : Bytes) (w : World floats) (c : Client)
        (message : InfoMessage.MachineInfo rt) (front back : List TriggerEvent) (e : TriggerEvent)
      → find key w.client_map ≡ some c
      → InfoMessage.parse_from_string rt content (InfoMessage.new_machine_info rt) ≡ some message
      → c.notify_events ≡ front ++ (e ∷ back)
      → All HasTrigger front
      → e.event.alert ≢ Alert.none
      → stoi e.value ≡ throws invalid_argument
      → HasPort w
      → (v : World floats) × (handle_report rt net db key content w ≡ (throws invalid_argument, v))
        × Broken c front key message w v
  unfolding handle_report
  handle_report_throws writes key content w c message front back e known parsed events triggers kind
        refused (port, ep) =
      let m = orm_object rt key message in
      let s = write_client_info_db-Stored db (begins_at db w) m w refl in
      let u = (write_client_info_db db (some m) w).1 in
      let (v, thrown, d) =
        notify_throws net writes c m front back e u events triggers kind refused
          (port, ap stol (s.config (codes "mail_server_port")) ∙ ep) in
      (
        v,
        rw
            (
              get_orm_object_lem rt key content w message parsed,
              s.ended,
              get_client_lem rt net db key c u (ap (find key) s.client_map ∙ known),
              thrown,
            )
            refl,
        record {
          rows = d.rows ∙ s.rows;
          mails = d.mailed ∙ ap (λ ms. map envelope ms ++ due c m front) s.mails;
          client_map = d.client_map ∙ s.client_map;
        },
      )

  -- A request whose handler has thrown.
  pub record Unanswered (c : Client) (front : List TriggerEvent) (key : Text)
      (message : InfoMessage.MachineInfo rt) (w : World floats)
      (r : Outcome (Option StatusCode) × World floats) : Type 0 where
    pub answer : r.0 ≡ ok Option.none
    pub broken : Broken c front key message w r.1
    pub logged :
        (before : List LogEntry) × (left : Text) × (r.1.log
          ≡ before ++ (critical (codes "Error request : {0}") (left ∷ []) ∷ []))

module _ {floats : Floats} (rt : Runtime floats) (net : Network) (db : Database floats)
    (lib : HttpLibrary floats) (serves : Serves lib) where
  handle_post_throws :
      (path content : Text) (w v : World floats) (c : Client)
      → find (client_key path) w.client_map ≡ some c
      → handle_report rt net db (client_key path) content w ≡ (throws invalid_argument, v)
      → handle_post rt net db path content w ≡ (throws invalid_argument, v)
  unfolding handle_post authenticate_client
  handle_post_throws path content w v c known thrown = rw known thrown

  -- A POST to the machine resource of a client on the map, with a content that parses, where the
  -- client has an event whose alert is not none and whose trigger value begins with no number, so
  -- that stoi throws invalid_argument, behind events whose triggers can be read; the port of the
  -- mail server can be read, the socket takes every line and the HTTP library does what it
  -- documents. The client is sent no answer, although its object is a new row if the database takes
  -- it and the mails that are due for the events in front are handed to `Send`; the map is
  -- unchanged, and the last entry of the log is that of on_error.
  pub respond_throws :
      Writes net
      → (port : ℕ) (address : Text) (r : Request) (w : World floats) (c : Client)
        (message : InfoMessage.MachineInfo rt) (front back : List TriggerEvent) (e : TriggerEvent)
      → is_report r ≡ true
      → find (client_key r.path) w.client_map ≡ some c
      → InfoMessage.parse_from_string rt r.content (InfoMessage.new_machine_info rt) ≡ some message
      → c.notify_events ≡ front ++ (e ∷ back)
      → All HasTrigger front
      → e.event.alert ≢ Alert.none
      → stoi e.value ≡ throws invalid_argument
      → HasPort w
      → Unanswered rt net db c front
          (client_key r.path)
          message
          w
          (lib.respond (http_server rt net db port address) r w)
  unfolding http_server on_error write_log
  respond_throws writes port address r w c message front back e report known parsed events triggers
        kind refused mail =
      let (v, thrown, broken) =
        handle_report_throws rt net db writes (client_key r.path) r.content w c message front back e
          known parsed events triggers kind refused mail in
      let (left, told) =
        serves.reports (http_server rt net db port address) r w v (handle_post rt net db)
          invalid_argument (handler_for_lem rt net db lib serves port address r ∙ rw report refl)
          (handle_post_throws r.path r.content w v c known thrown) in
      rw told (record {
        answer = refl;
        broken = record {
          rows = broken.rows;
          mails = broken.mails;
          client_map = broken.client_map;
        };
        logged = (v.log, left, refl);
      })
