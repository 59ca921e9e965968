-- ===== src/System/Reported.antt =====
-- One round: what the client collects becomes a row of the server.
use client_server_db.Prelude.{
  ℕ, Text, List, [], ◌∷◌, ◌++◌, ◌<◌, ◌^◌, ◌≡◌, refl, ap, ◌∙◌, true, some, codes, take, drop, length,
  All, text_eq,
}
use mathlib.Core.Path.{subst}
use client_server_db.Prelude.Int.{ℤ}
use client_server_db.Prelude.Exec.{ok}
use client_server_db.Prelude.Numbers.{stoi}
use client_server_db.Prelude.Maps.{find}
use client_server_db.Context.{index}
use client_server_db.Context.Lookup.{index-index}
use client_server_db.Floats.{Floats}
use client_server_db.Smtp.{Network}
use client_server_db.Smtp.Dialogue.{Writes}
use client_server_db.World.{World, info}
use client_server_db.Wire.{Runtime}
use client_server_db.Wire.Laws.{Laws}
use client_server_db.Messages.MachineInfo.{MachineInfo, byte_size, serialize_to_string}
use client_server_db.Messages.MachineInfo.RoundTrip.{IsSendable}
use client_server_db.Alerts.Kinds.{Client}
use client_server_db.Alerts.Delivery.Sent.{HasTrigger, HasPort}
use client_server_db.Persistence.{Database, orm_object}
use client_server_db.Handler.{StatusCode, success_created, all_key_chars, handle_post}
use client_server_db.Handler.Replies.{Accepted}
use client_server_db.Handler.EndToEnd.{handle_post-serialize_to_string}
use client_server_db.Handler.Paths.{client_key_lem}
use client_server_db.ClientInfo.Rounds.{Run, returns, run}
use client_server_db.ClientInfo.Report.{Host, get_machine_info, notes}
use client_server_db.Upload.{Server, Agent, Http, note, answered, send_data, upload, round}
use client_server_db.Startup.{HttpServer, http_server}
use client_server_db.Startup.Serving.{HttpLibrary, Serves}
use client_server_db.Startup.Answers.{handler_for_lem}
use client_server_db.System.{System, post, connected, received, deliver, round_trip}

-- A request that the server answers with 201 is noted as sent.
upload_created :
    {floats : Floats} (rt : Runtime floats) (http : Http) (s : Server) (message : MachineInfo rt)
    (content status : Text) (a : Agent)
    → serialize_to_string rt message ≡ some content
    → http (s.m_ip ++ (codes ":" ++ s.m_port)) s.m_url content ≡ some status
    → text_eq (take 3 status) (codes "201") ≡ true
    → upload http rt s message a ≡ record a {
      requests = a.requests ++ ((s.m_ip ++ (codes ":" ++ s.m_port), s.m_url, content) ∷ []);
      log = a.log ++ (info (codes "Send details to server") [] ∷ []);
    }
unfolding upload send_data answered note
upload_created rt http s message content status a written told created =
    rw (written, upload, told, created) refl

drop_front : {A : Type 0} (xs ys : List A) → drop (length xs) (xs ++ ys) ≡ ys
drop_front [] ys = refl
drop_front (x ∷ xs) ys = drop_front xs ys

module _ {floats : Floats} (rt : Runtime floats) (laws : Laws rt) (net : Network)
    (db : Database floats) (lib : HttpLibrary floats) (serves : Serves lib)
    (status_text : StatusCode → Text) (port : ℕ) (address : Text) where
  abbrev there : HttpServer floats
  there = http_server rt net db port address

  -- What a round whose report arrives leaves behind.
  pub record Arrived (fuel : ℕ) (host : Host rt) (id : Text) (c : Client) (message : MachineInfo rt)
      (y : System floats) (r : Run ℤ × System floats) : Type 0 where
    pub paused : r.0 ≡ run (stoi (index (codes "send_stat_frequency") y.agent.config).0)
    pub log :
        r.1.agent.log
        ≡ (y.agent.log ++ notes rt fuel host) ++ (info (codes "Send details to server") [] ∷ [])
    pub settings : (k : Text) → (index k r.1.agent.config).0 ≡ (index k y.agent.config).0
    pub accepted :
        Accepted rt net db c (orm_object rt id message) y.world (ok success_created, r.1.world)

  -- The report of a registered client at the library's side.
  told :
      (id url content : Text) (w v : World floats)
      → url ≡ codes "/machine/" ++ id
      → all_key_chars id ≡ true
      → handle_post rt net db (codes "/machine/" ++ id) content w ≡ (ok success_created, v)
      → lib.respond there (post url content) w ≡ (ok (some success_created), v)
  unfolding text_eq
  told id url content w v e chars handled =
      ap (λ u. lib.respond there (post u content) w) e
      ∙ serves.answers there (post (codes "/machine/" ++ id) content) w v (handle_post rt net db)
          success_created
          (handler_for_lem rt net db lib serves port address
              (post (codes "/machine/" ++ id) content)
            ∙ rw (client_key_lem id chars).0 refl)
          handled

  pub round_trip-Arrived :
      Writes net
      → text_eq (take 3 (status_text success_created)) (codes "201") ≡ true
      → (s : Server) (fuel : ℕ) (host : Host rt) (id : Text) (c : Client) (message : MachineInfo rt)
        (y : System floats)
      → s.m_url ≡ codes "/machine/" ++ id
      → all_key_chars id ≡ true
      → find id y.world.client_map ≡ some c
      → All HasTrigger c.notify_events
      → HasPort y.world
      → get_machine_info rt fuel host ≡ returns message
      → IsSendable rt message
      → byte_size rt message < 2 ^ 31
      → Arrived fuel host id c message y (round_trip rt lib status_text there s fuel host y)
  unfolding round_trip round connected received deliver
  round_trip-Arrived writes created s fuel host id c message y url chars known triggers mail
        collected sendable short =
      let (content, written, accepted, figures) =
        handle_post-serialize_to_string rt laws net db id message y.world c chars sendable short
          known triggers mail writes in
      let v = (handle_post rt net db (codes "/machine/" ++ id) content y.world).1 in
      let handled = ap (λ o. (o, v)) accepted.answer in
      let answer = told id s.m_url content y.world v url chars handled in
      let sent =
        upload_created rt (connected rt lib status_text there y.world) s message content
          (status_text success_created) (record y.agent { log = y.agent.log ++ notes rt fuel host })
          written (ap (λ r. received rt lib status_text r.0) answer) created in
      rw (collected, sent, drop_front, deliver, answer)
        (record {
          paused = refl;
          log = refl;
          settings = λ k. index-index (codes "send_stat_frequency") k y.agent.config;
          accepted =
              subst (Accepted rt net db c (orm_object rt id message) y.world) handled accepted;
        })
