-- ===== src/System/Loop.antt =====
-- The loop of the client: every round's report becomes a row, in order.
use client_server_db.Prelude.{
  ℕ, Text, List, [], ◌∷◌, ◌++◌, ◌<◌, ◌^◌, ◌≡◌, refl, ap, ◌∙◌, Bool, true, false, some, codes, take,
  map, All, text_eq, if◌then◌else◌, ◌&&◌, append-nil, append_assoc,
}
use client_server_db.Prelude.Int.{ℤ}
use client_server_db.Prelude.Exec.{ok}
use client_server_db.Prelude.Numbers.{stoi, stol}
use client_server_db.Prelude.Maps.{find}
use client_server_db.Context.{Config, index}
use client_server_db.Floats.{Floats}
use client_server_db.Machine as Object
use client_server_db.Smtp.{Network}
use client_server_db.Smtp.Dialogue.{Writes}
use client_server_db.World.{World, LogEntry, info}
use client_server_db.Wire.{Runtime}
use client_server_db.Wire.Laws.{Laws}
use client_server_db.Messages.MachineInfo.{MachineInfo, byte_size}
use client_server_db.Messages.MachineInfo.RoundTrip.{IsSendable}
use client_server_db.Alerts.Kinds.{Client}
use client_server_db.Alerts.Delivery.{envelope, due, Envelope}
use client_server_db.Alerts.Delivery.Sent.{HasTrigger, HasPort}
use client_server_db.Persistence.{Database, orm_object}
use client_server_db.Persistence.Stored.{takes_at}
use client_server_db.Handler.{StatusCode, success_created, all_key_chars}
use client_server_db.ClientInfo.Rounds.{Run, returns, run}
use client_server_db.ClientInfo.Report.{Host, get_machine_info, notes}
use client_server_db.Upload.{Server}
use client_server_db.Startup.{HttpServer, http_server}
use client_server_db.Startup.Serving.{HttpLibrary, Serves}
use client_server_db.System.{System, rounds, round_trip}
use client_server_db.System.Reported.{round_trip-Arrived}

-- The elements that a test holds for, in their order.
unfoldable pub kept : {A : Type 0} → (A → Bool) → List A → List A
kept test [] = []
kept test (x ∷ xs) = (if test x then x ∷ [] else []) ++ kept test xs

-- The mails that are due for each of the objects.
unfoldable pub all_due :
    {floats : Floats} → Client → List (Object.MachineInfo floats) → List Envelope
all_due c [] = []
all_due c (m ∷ ms) = due c m c.notify_events ++ all_due c ms

-- A configuration that answers as another does.
abbrev pub Alike : Config → Config → Type 0
Alike c d = (k : Text) → (index k c).0 ≡ (index k d).0

module _ {floats : Floats} (rt : Runtime floats) where
  -- What a machine gives in a round is read to the end, and is a report that the wire carries.
  pub record Collected (fuel : ℕ) (host : Host rt) (message : MachineInfo rt) : Type 0 where
    pub collected : get_machine_info rt fuel host ≡ returns message
    pub sendable : IsSendable rt message
    pub short : byte_size rt message < 2 ^ 31

  -- A round of the client: what the database does by then, what the machine holds, and the report.
  pub record Round : Type 0 where
    pub db : Database floats
    pub host : Host rt
    pub message : MachineInfo rt

  begins_same :
      (db : Database floats) (u u' p p' n n' : Text)
      → u ≡ u'
      → p ≡ p'
      → n ≡ n'
      → db.begins u p n ≡ db.begins u' p' n'
  begins_same db u u' p p' n n' eu ep en = rw (eu, ep, en) refl

  pub takes_same :
      (db : Database floats) (v w : World floats) (m : Object.MachineInfo floats)
      → Alike v.config w.config
      → takes_at db v m ≡ takes_at db w m
  takes_same db v w m same =
      ap (λ b. b && (db.persists m && db.commits m))
        (begins_same db _ _ _ _ _ _ (same (codes "db_username")) (same (codes "db_passwd"))
          (same (codes "db_name")))

  abbrev pub hosts_of : List Round → List (Host rt)
  hosts_of = map (λ p. p.host)

  -- The object of a round's report, under an id.
  abbrev pub stored_of : Text → Round → Object.MachineInfo floats
  stored_of id p = orm_object rt id p.message

  -- Whether the database of a round takes the object of its report.
  abbrev pub is_taken : World floats → Text → Round → Bool
  is_taken w id p = takes_at p.db w (stored_of id p)

  -- What the rounds give the logger.
  unfoldable pub sent_log : ℕ → List (Host rt) → List LogEntry
  sent_log fuel [] = []
  sent_log fuel (host ∷ hosts) =
      notes rt fuel host ++ (info (codes "Send details to server") [] ∷ sent_log fuel hosts)

  -- What the loop leaves behind when each round's machine gives its report.
  pub record Uploaded (fuel : ℕ) (id : Text) (c : Client) (collected : List Round)
      (y : System floats) (r : Run (Unit {0}) × System floats) : Type 0 where
    pub ended : r.0 ≡ returns tt
    pub rows :
        r.1.world.rows ≡ y.world.rows ++ map (stored_of id) (kept (is_taken y.world id) collected)
    pub mails :
        map envelope r.1.world.mails
        ≡ map envelope y.world.mails ++ all_due c (map (stored_of id) collected)
    pub log : r.1.agent.log ≡ y.agent.log ++ sent_log fuel (hosts_of collected)

  kept_same :
      (v w : World floats) (id : Text) (ps : List Round)
      → Alike v.config w.config
      → kept (is_taken v id) ps ≡ kept (is_taken w id) ps
  unfolding kept
  kept_same v w id [] same = refl
  kept_same v w id (p ∷ ps) same =
      rw (takes_same p.db v w (stored_of id p) same, kept_same v w id ps same) refl

pub kept-one :
    {A B : Type 0} (f : A → B) (b : Bool) (x : A) (xs : List A)
    → map f ((if b then x ∷ [] else []) ++ xs) ≡ (if b then f x ∷ [] else []) ++ map f xs
kept-one f true x xs = refl
kept-one f false x xs = refl

module _ {floats : Floats} (rt : Runtime floats) (laws : Laws rt) (net : Network)
    (lib : HttpLibrary floats) (serves : Serves lib) (status_text : StatusCode → Text) (port : ℕ)
    (address : Text) where
  -- The server in a round, and what the client's machine holds.
  abbrev pub served_by : List (Round rt) → List (HttpServer floats × Host rt)
  served_by = map (λ p. (http_server rt net p.db port address, p.host))

  pub rounds_lem :
      Writes net
      → text_eq (take 3 (status_text success_created)) (codes "201") ≡ true
      → (s : Server) (fuel : ℕ) (id : Text) (c : Client) (seconds : ℤ) (collected : List (Round rt))
        (y : System floats)
      → s.m_url ≡ codes "/machine/" ++ id
      → all_key_chars id ≡ true
      → find id y.world.client_map ≡ some c
      → All HasTrigger c.notify_events
      → HasPort y.world
      → stoi (index (codes "send_stat_frequency") y.agent.config).0 ≡ ok seconds
      → All (λ p. Collected rt fuel p.host p.message) collected
      → Uploaded rt fuel id c collected y (rounds rt lib status_text s fuel (served_by collected) y)
  unfolding rounds kept all_due sent_log
  rounds_lem writes created s fuel id c seconds [] y url chars known triggers mail pause all =
      record {
        ended = refl;
        rows = rw append-nil refl;
        mails = rw append-nil refl;
        log = rw append-nil refl;
      }
  rounds_lem writes created s fuel id c seconds (p ∷ more) y url chars known triggers (mail_port, e)
        pause all =
      let a =
        round_trip-Arrived rt laws net p.db lib serves status_text port address writes created s
          fuel p.host id c p.message y url chars known triggers (mail_port, e) all.0.collected
          all.0.sendable all.0.short in
      let z =
        (round_trip rt lib status_text (http_server rt net p.db port address) s fuel p.host y).1 in
      let rest =
        rounds_lem writes created s fuel id c seconds more z url chars
          (ap (find id) a.accepted.client_map ∙ known) triggers
          (mail_port, ap stol (a.accepted.config (codes "mail_server_port")) ∙ e)
          (ap stoi (a.settings (codes "send_stat_frequency")) ∙ pause) all.1 in
      rw (a.paused ∙ ap run pause) (record {
        ended = rest.ended;
        rows =
            rest.rows
            ∙ rw
                (
                  kept_same rt z.world y.world id more a.accepted.config,
                  a.accepted.rows,
                  append_assoc,
                  kept-one,
                )
                refl;
        mails = rest.mails ∙ rw (a.accepted.mails, append_assoc) refl;
        log = rest.log ∙ rw (a.log, append_assoc, append_assoc) refl;
      })
