-- ===== src/System/Interleaved.antt =====
-- Several clients against one server: their rounds in any order.
use client_server_db.Prelude.{
  ℕ, Text, List, [], ◌∷◌, ◌++◌, ◌≡◌, true, Option, some, codes, All, text_eq, if◌then◌else◌,
}
use client_server_db.Prelude.Int.{ℤ}
use client_server_db.Prelude.Exec.{ok}
use client_server_db.Prelude.Numbers.{stoi}
use client_server_db.Prelude.Maps.{find}
use client_server_db.Context.{index}
use client_server_db.Floats.{Floats}
use client_server_db.Machine as Object
use client_server_db.World.{World}
use client_server_db.Wire.{Runtime}
use client_server_db.Messages.MachineInfo.{MachineInfo}
use client_server_db.Alerts.Kinds.{Client}
use client_server_db.Alerts.Delivery.Sent.{HasTrigger}
use client_server_db.Persistence.{Database, orm_object}
use client_server_db.Handler.{StatusCode, all_key_chars}
use client_server_db.ClientInfo.Rounds.{Run, returns}
use client_server_db.ClientInfo.Report.{Host}
use client_server_db.Upload.{Server, Agent}
use client_server_db.Startup.{HttpServer}
use client_server_db.Startup.Serving.{HttpLibrary}
use client_server_db.System.{System, round_trip}
use client_server_db.System.Loop.{Collected}

-- The client processes by their ids, none where one has ended, and the server's process.
pub record Processes (floats : Floats) : Type 0 where
  pub agents : Text → Option Agent
  pub world : World floats

-- A round of the client of an id, with what the database does by then and what its machine holds.
pub record Turn {floats : Floats} (rt : Runtime floats) : Type 0 where
  pub id : Text
  pub db : Database floats
  pub host : Host rt
  pub message : MachineInfo rt

abbrev pub put : Text → Option Agent → (Text → Option Agent) → Text → Option Agent
put id agent agents k = if text_eq id k then agent else agents k

-- A client goes on behind a round that comes to its `sleep`.
abbrev pub going_on : Run ℤ → Agent → Option Agent
going_on (returns seconds) a = some a
going_on other a = Option.none

module _ {floats : Floats} (rt : Runtime floats) (lib : HttpLibrary floats)
    (status_text : StatusCode → Text) (at_turn : Turn rt → HttpServer floats)
    (servers : Text → Server) (fuel : ℕ) where
  abbrev turned : Text → Run ℤ × System floats → Processes floats → Processes floats
  turned id (r, z) y = record { agents = put id (going_on r z.agent) y.agents; world = z.world }

  abbrev pub turn_of : Turn rt → Option Agent → Processes floats → Processes floats
  turn_of t Option.none y = y
  turn_of t (some a) y =
      turned t.id
        (round_trip rt lib status_text (at_turn t) (servers t.id) fuel t.host
          (record { agent = a; world = y.world }))
        y

  -- The rounds of the clients, in the order of the list.
  unfoldable pub take_turns : List (Turn rt) → Processes floats → Processes floats
  unfolding round_trip
  take_turns [] y = y
  take_turns (t ∷ ts) y = take_turns ts (turn_of t (y.agents t.id) y)

-- A client that runs and whose pause can be read.
abbrev pub Runs : Option Agent → Type 0
Runs Option.none = ⊥
Runs (some a) = (z : ℤ) × (stoi (index (codes "send_stat_frequency") a.config).0 ≡ ok z)

module _ {floats : Floats} (rt : Runtime floats) where
  -- What is asked of a turn at a server in the state w.
  pub record IsTurn (servers : Text → Server) (fuel : ℕ) (client_map : List (Text × Client))
      (t : Turn rt) : Type 0 where
    pub url : (servers t.id).m_url ≡ codes "/machine/" ++ t.id
    pub chars : all_key_chars t.id ≡ true
    pub client : Client
    pub known : find t.id client_map ≡ some client
    pub triggers : All HasTrigger client.notify_events
    pub given : Collected rt fuel t.host t.message

  abbrev pub object_of : Turn rt → Object.MachineInfo floats
  object_of t = orm_object rt t.id t.message
