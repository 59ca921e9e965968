-- ===== src/Tests/System.antt =====
-- The two programs together at a concrete input.
use client_server_db.Prelude.{List, [], ◌∷◌, ◌++◌, false, some, codes, Text}
use client_server_db.Handler.{StatusCode, success_created}
use client_server_db.Upload.{Server}
use client_server_db.Persistence.{Database}
use client_server_db.System.Loop.{Round}
use client_server_db.Tests.Runtime.{integers, words, open_database}
use client_server_db.World.{World}
use client_server_db.Upload.{Agent}
use client_server_db.System.Interleaved.{Processes, Turn}
use client_server_db.Tests.Data.{cpu_over, watched, serving}
use client_server_db.Tests.Agent.{host, host_info}
use client_server_db.Tests.Startup.{b2}

abbrev status_text : StatusCode → Text
status_text success_created = codes "201 Created"
status_text other = codes "401 Unauthorized"

-- A database that is down.
abbrev closed_database : Database integers
closed_database = record open_database { begins = λ user passwd name. false }

-- Two rounds in which the machine gives the same report, with the database down in the first.
abbrev round_with : Database integers → Round words
round_with db = record { db = db; host = host; message = host_info }

abbrev two_rounds : List (Round words)
two_rounds = round_with closed_database ∷ round_with open_database ∷ []

-- Two clients, a1 and b2, that take turns.
abbrev two_clients : World integers
two_clients = record (serving (watched (cpu_over ∷ []))) {
  client_map = (codes "a1", watched (cpu_over ∷ [])) ∷ (codes "b2", b2) ∷ [];
}

abbrev server_of : Text → Server
server_of id = record { m_ip = []; m_port = []; m_url = codes "/machine/" ++ id }

abbrev paused_agent : Agent
paused_agent = record {
  config = (codes "send_stat_frequency", codes "5") ∷ [];
  log = [];
  requests = [];
}

abbrev two_processes : Processes integers
two_processes = record { agents = λ id. some paused_agent; world = two_clients }

abbrev turn_for : Text → Database integers → Turn words
turn_for id db = record { id = id; db = db; host = host; message = host_info }

abbrev turns : List (Turn words)
turns =
    turn_for (codes "a1") closed_database
    ∷ turn_for (codes "b2") open_database
    ∷ turn_for (codes "a1") open_database
    ∷ []
