-- ===== src/System/Isolated.antt =====
-- In whatever order the clients take their turns, the server's rows of one client are its own
-- reports.
use client_server_db.Prelude.{ℕ, Text, List, [], ◌∷◌, ◌++◌, ◌≡◌, Bool, map, if◌then◌else◌}
use client_server_db.Floats.{Floats}
use client_server_db.Machine as Object
use client_server_db.Smtp.{Network}
use client_server_db.Wire.{Runtime}
use client_server_db.Wire.Laws.{Laws}
use client_server_db.Persistence.Stored.{takes_at}
use client_server_db.Handler.{StatusCode}
use client_server_db.Upload.{Server}
use client_server_db.Startup.{HttpServer, http_server}
use client_server_db.Startup.Serving.{HttpLibrary, Serves}
use client_server_db.System.Loop.{Alike, kept}
use client_server_db.World.{World}
use client_server_db.System.Interleaved.{Processes, Turn, Runs, object_of}

module _ {floats : Floats} (rt : Runtime floats) (laws : Laws rt) (net : Network)
    (lib : HttpLibrary floats) (serves : Serves lib) (status_text : StatusCode → Text) (port : ℕ)
    (address : Text) (servers : Text → Server) (fuel : ℕ) where
  -- The server in a turn: the one that was started, but for what its database does.
  abbrev there : Turn rt → HttpServer floats
  there t = http_server rt net t.db port address

  -- Whether the database of a turn takes the object of its report.
  abbrev pub is_taken_at : World floats → Turn rt → Bool
  is_taken_at w t = takes_at t.db w (object_of rt t)

  -- What one turn leaves behind.
  record Stepped (t : Turn rt) (y y' : Processes floats) : Type 0 where
    rows :
        y'.world.rows ≡ y.world.rows ++ (if is_taken_at y.world t then object_of rt t ∷ [] else [])
    config : Alike y'.world.config y.world.config
    client_map : y'.world.client_map ≡ y.world.client_map
    runs : (k : Text) → Runs (y'.agents k)

  -- What a sequence of turns leaves behind.
  pub record TurnsTaken (ts : List (Turn rt)) (y y' : Processes floats) : Type 0 where
    pub rows : y'.world.rows ≡ y.world.rows ++ map (object_of rt) (kept (is_taken_at y.world) ts)
    pub runs : (k : Text) → Runs (y'.agents k)
