-- ===== src/System.antt =====
-- The two programs together: the loop of client/src/client.cpp against the server of
-- server/src/server.cpp. Between them stands the HTTP library, on either side.
pub mod Reported
pub mod Loop
pub mod Deployed
pub mod Interleaved
pub mod Isolated
use client_server_db.Prelude.{
  ℕ, Text, List, [], ◌∷◌, ◌++◌, Bool, true, false, Option, some, codes, drop, length, if◌then◌else◌,
}
use client_server_db.Prelude.Int.{ℤ}
use client_server_db.Prelude.Exec.{Outcome, ok}
use client_server_db.Floats.{Floats}
use client_server_db.World.{World}
use client_server_db.Wire.{Bytes, Runtime}
use client_server_db.Handler.{StatusCode}
use client_server_db.ClientInfo.Rounds.{Run, returns, raises, undefined, out_of_fuel}
use client_server_db.ClientInfo.Report.{Host, notes}
use client_server_db.Upload.{Server, Agent, Http, round}
use client_server_db.Startup.{HttpServer}
use client_server_db.Startup.Serving.{Request, HttpLibrary}

-- The states of the two processes.
pub record System (floats : Floats) : Type 0 where
  pub agent : Agent
  pub world : World floats

abbrev pub post : Text → Bytes → Request
post path content = record { method = codes "POST"; path = path; content = content }

-- `status_text` is the text of a status, such as "201 Created".
module _ {floats : Floats} (rt : Runtime floats) (lib : HttpLibrary floats)
    (status_text : StatusCode → Text) where
  -- What the client's side of the library makes of an answer: it throws where the server is
  -- gone; a request without an answer is left to `round_trip`.
  unfoldable pub received : Outcome (Option StatusCode) → Option Text
  received (ok (some s)) = some (status_text s)
  received other = Option.none

  -- The library between the client and a server in the state w.
  unfoldable pub connected : HttpServer floats → World floats → Http
  unfolding received
  connected server w host path content = received (lib.respond server (post path content) w).0

  -- The server behind the requests of a client.
  unfoldable pub deliver :
      HttpServer floats → List (Text × Text × Bytes) → World floats → World floats
  deliver server [] w = w
  deliver server ((host, path, content) ∷ more) w =
      deliver server more (lib.respond server (post path content) w).1

  abbrev pub is_unanswered : Outcome (Option StatusCode) → Bool
  is_unanswered (ok Option.none) = true
  is_unanswered other = false

  -- Whether the request of a round is left without an answer: the handler has thrown, and the
  -- server's side of the library keeps the connection open.
  abbrev pub is_waiting : HttpServer floats → List (Text × Text × Bytes) → World floats → Bool
  is_waiting server [] w = false
  is_waiting server ((host, path, content) ∷ more) w =
      is_unanswered (lib.respond server (post path content) w).0

  -- One round of the client's loop, and the server behind the request that the round makes. The
  -- client has no timeout: where there is no answer it waits for ever, with its notes and its
  -- request made and nothing else.
  unfoldable pub round_trip :
      HttpServer floats → Server → ℕ → Host rt → System floats → Run ℤ × System floats
  unfolding connected deliver
  round_trip server s fuel host y =
      let (r, a) = round (connected server y.world) rt s fuel host y.agent in
      let made = drop (length y.agent.requests) a.requests in
      let after = deliver server made y.world in
      if is_waiting server made y.world
      then (
        out_of_fuel,
        record {
          agent = record y.agent { log = y.agent.log ++ notes rt fuel host; requests = a.requests };
          world = after;
        },
      )
      else (r, record { agent = a; world = after })

  abbrev after_round :
      (System floats → Run (Unit {0}) × System floats)
      → Run ℤ × System floats
      → Run (Unit {0}) × System floats
  after_round more (returns seconds, y) = more y
  after_round more (raises e, y) = (raises e, y)
  after_round more (undefined, y) = (undefined, y)
  after_round more (out_of_fuel, y) = (out_of_fuel, y)

  -- The loop of `main`, for as many rounds as there are machines to read; it goes on while a round
  -- comes to its `sleep`. The server of each round differs from the one that was started at most in
  -- what its database does by then.
  unfoldable pub rounds :
      Server
      → ℕ
      → List (HttpServer floats × Host rt)
      → System floats
      → Run (Unit {0}) × System floats
  rounds s fuel [] y = (returns tt, y)
  rounds s fuel ((server, host) ∷ hosts) y =
      after_round (rounds s fuel hosts) (round_trip server s fuel host y)
