-- ===== src/Handler/Replies.antt =====
-- What the handler of POST answers, and what it leaves behind.
use client_server_db.Prelude.{
  Text, [], ◌∷◌, ◌++◌, ◌≡◌, refl, ap, ◌∙◌, true, Option, some, codes, map, if◌then◌else◌, All,
}
use client_server_db.Prelude.Exec.{Outcome, ok, fault}
use client_server_db.Prelude.Numbers.{stol}
use client_server_db.Prelude.Maps.{find}
use client_server_db.Floats.{Floats}
use client_server_db.Machine.{MachineInfo}
use client_server_db.Smtp.{Network}
use client_server_db.Smtp.Dialogue.{Writes}
use client_server_db.World.{World, critical, write_log}
use client_server_db.Wire.{Bytes, Runtime}
use client_server_db.Messages.MachineInfo as InfoMessage
use client_server_db.Alerts.Kinds.{Client}
use client_server_db.Alerts.Parse.{authenticate_client, get_client, add_log}
use client_server_db.Alerts.Delivery.{envelope, due}
use client_server_db.Alerts.Delivery.Sent.{HasTrigger, HasPort}
use client_server_db.Alerts.Delivery.Mails.{notify-Delivered}
use client_server_db.Context.{index}
use client_server_db.Persistence.{Database, orm_object, write_client_info_db}
use client_server_db.Handler.{
  StatusCode, success_created, client_error_unauthorized, client_key, handle_report, handle_post,
}
use client_server_db.Persistence.Stored.{
  begins_at, takes_at, write_client_info_db-Stored, get_orm_object_lem, get_orm_object_unparsable,
  refused_by, write_null,
}

module _ {floats : Floats} (rt : Runtime floats) (net : Network) (db : Database floats) where
  -- A request of a client that is not in the map is answered 401, and of the server's state only
  -- the log is changed, by two entries.
  pub handle_post_unknown :
      (path : Text) (content : Bytes) (w : World floats)
      → find (client_key path) w.client_map ≡ Option.none
      → handle_post rt net db path content w ≡ (
        ok client_error_unauthorized,
        record w {
          log =
              (w.log
                ++ (critical
                      (codes " unable to authenticate_client client : {}")
                      (client_key path ∷ [])
                    ∷ []))
              ++ (critical
                    (codes "Unknown client request recieved from client {0}")
                    (client_key path ∷ [])
                  ∷ []);
        },
      )
  unfolding handle_post authenticate_client add_log write_log
  handle_post_unknown path content w e = rw e refl

  pub get_client_lem :
      (key : Text) (c : Client) (w : World floats)
      → find key w.client_map ≡ some c
      → get_client key w ≡ (some c, w)
  unfolding get_client
  get_client_lem key c w e = rw (e, get_client) refl

  -- What a report of a known client does.
  pub record Accepted (c : Client) (m : MachineInfo floats) (w : World floats)
      (r : Outcome StatusCode × World floats) : Type 0 where
    pub answer : r.0 ≡ ok success_created
    pub rows : r.1.rows ≡ w.rows ++ (if takes_at db w m then m ∷ [] else [])
    pub mails : map envelope r.1.mails ≡ map envelope w.mails ++ due c m c.notify_events
    pub clients : r.1.clients ≡ w.clients
    pub client_map : r.1.client_map ≡ w.client_map
    pub config : (k : Text) → (index k r.1.config).0 ≡ (index k w.config).0

  report-Accepted :
      (key : Text) (content : Bytes) (w : World floats) (c : Client)
      (message : InfoMessage.MachineInfo rt)
      → find key w.client_map ≡ some c
      → InfoMessage.parse_from_string rt content (InfoMessage.new_machine_info rt) ≡ some message
      → All HasTrigger c.notify_events
      → HasPort w
      → Writes net
      → Accepted c (orm_object rt key message) w (handle_report rt net db key content w)
  unfolding handle_report write_log
  report-Accepted key content w c message known parsed triggers (port, ep) writes =
      let m = orm_object rt key message in
      let s = write_client_info_db-Stored db (begins_at db w) m w refl in
      let v = (write_client_info_db db (some m) w).1 in
      let d =
        notify-Delivered net writes c m v triggers
          (port, ap stol (s.config (codes "mail_server_port")) ∙ ep) in
      rw
        (
          get_orm_object_lem rt key content w message parsed,
          s.ended,
          get_client_lem key c v (ap (find key) s.client_map ∙ known),
          d.ended,
        )
        (record {
          answer = refl;
          rows = d.rows ∙ s.rows;
          mails = d.mailed ∙ ap (λ ms. map envelope ms ++ due c m c.notify_events) s.mails;
          clients = d.clients ∙ s.clients;
          client_map = d.client_map ∙ s.client_map;
          config = λ k. d.config k ∙ s.config k;
        })

  -- A report of a known client that the parser takes is answered 201, where the client's triggers
  -- and the port of the mail server can be read and the socket takes every line: the object of the
  -- message under the client's key is the one new row if the database takes it, and there is no new
  -- row if it does not; the mails that are due by the client's alerts for that object are handed to
  -- `Send` in either case; and the registered clients and what the configuration reads are unchanged.
  pub handle_post-Accepted :
      (path : Text) (content : Bytes) (w : World floats) (c : Client)
      (message : InfoMessage.MachineInfo rt)
      → find (client_key path) w.client_map ≡ some c
      → InfoMessage.parse_from_string rt content (InfoMessage.new_machine_info rt) ≡ some message
      → All HasTrigger c.notify_events
      → HasPort w
      → Writes net
      → Accepted c
          (orm_object rt (client_key path) message)
          w
          (handle_post rt net db path content w)
  unfolding handle_post authenticate_client
  handle_post-Accepted path content w c message known parsed triggers port writes =
      rw known
        (report-Accepted (client_key path) content w c message known parsed triggers port writes)

  -- A report of a known client that the parser refuses, where the database begins a transaction,
  -- reads through a null pointer, and no row is added.
  pub handle_post_unparsable :
      (path : Text) (content : Bytes) (w : World floats) (c : Client)
      → find (client_key path) w.client_map ≡ some c
      → InfoMessage.parse_from_string rt content (InfoMessage.new_machine_info rt) ≡ Option.none
      → begins_at db w ≡ true
      → ((handle_post rt net db path content w).0 ≡ fault)
        × ((handle_post rt net db path content w).1.rows ≡ w.rows)
  unfolding handle_post authenticate_client handle_report
  handle_post_unparsable path content w c known refused begun =
      rw
        (
          known,
          get_orm_object_unparsable rt (client_key path) content w refused,
          write_null db (refused_by rt (client_key path) w) begun,
        )
        (refl, refl)
