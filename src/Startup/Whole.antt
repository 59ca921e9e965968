-- ===== src/Startup/Whole.antt =====
-- The server's process from its start through the requests that it takes.
use client_server_db.Prelude.{
  Text, List, [], ◌∷◌, ◌≡◌, refl, sym, ap, ◌∙◌, true, Option, codes, map, All,
}
use client_server_db.Prelude.Int.{ℤ}
use client_server_db.Prelude.Exec.{Exec, Outcome, ok, ◌>>=◌}
use client_server_db.Prelude.Numbers.{stoi, stol}
use client_server_db.Prelude.Maps.{find, is_some}
use client_server_db.Boost.{PropertyTree}
use client_server_db.Context.{index}
use client_server_db.Floats.{Floats}
use client_server_db.Machine.{MachineInfo}
use client_server_db.Smtp.{Network}
use client_server_db.Smtp.Dialogue.{Writes}
use client_server_db.World.{World}
use client_server_db.Wire.{Runtime}
use client_server_db.Alerts.Kinds.{Client}
use client_server_db.Alerts.Registry.{first_with}
use client_server_db.Alerts.Registry.Listed.{listed}
use client_server_db.Persistence.{Database}
use client_server_db.Handler.{StatusCode}
use client_server_db.Startup.{HttpServer, start}
use client_server_db.Startup.Started.{as_port, initial, settings, starts, start_lem}
use client_server_db.Startup.Serving.{
  Request, HttpLibrary, Serves, respond_all, status_for, IsProperRequest,
}
use client_server_db.Startup.Answers.{respond_all_lem}

module _ {floats : Floats} (trees : PropertyTree) (rt : Runtime floats) (net : Network)
    (db : Database floats) (lib : HttpLibrary floats) where
  abbrev take_requests :
      List Request → HttpServer floats → Exec (World floats) (List (Outcome (Option StatusCode)))
  take_requests rs server w = let (sent, v) = respond_all lib server rs w in (ok sent, v)

  -- `main`: the start, and then the requests that arrive, one after the other.
  unfoldable pub serve :
      Option Text
      → Option Text
      → List Request
      → Exec (World floats) (List (Outcome (Option StatusCode)))
  unfolding start
  serve config_file client_list rs =
      start trees rt net db config_file client_list >>= take_requests rs

  -- What a run leaves behind.
  pub record Ran (config_file client_list : Option Text) (w : World floats) : Type 0 where
    pub registered :
        All (λ m. is_some (first_with m.client_key (listed trees client_list)) ≡ true) w.rows
    pub found : (k : Text) → find k w.client_map ≡ first_with k (listed trees client_list)
    pub config : (k : Text) → (index k w.config).0 ≡ (index k (settings trees config_file)).0

  relisted :
      (m : List (Text × Client)) (cs : List Client) (rows : List (MachineInfo floats))
      → ((k : Text) → find k m ≡ first_with k cs)
      → All (λ r. is_some (find r.client_key m) ≡ true) rows
      → All (λ r. is_some (first_with r.client_key cs) ≡ true) rows
  relisted m cs [] found all = tt
  relisted m cs (r ∷ rows) found all =
      (ap is_some (sym (found r.client_key)) ∙ all.0, relisted m cs rows found all.1)

  -- From the empty state, with a configuration whose server_port and mail_server_port begin with
  -- integers in the range of stoi and of stol, where the HTTP library does what it documents and
  -- the socket takes every line. Each request is no report; or it is a report of nobody on the
  -- client list; or one of a client on it whose triggers can be read, with a content that parses.
  -- Then each of any number of such requests is answered in order: a report of a client on the list
  -- 201, any other report 401, any other GET or POST 501, and other methods nothing. Behind the
  -- last, the rows are of clients on the list only, the map finds the first client of the list for
  -- each key, and the configuration answers as it was loaded.
  pub serve_lem :
      Serves lib
      → Writes net
      → (config_file client_list : Option Text) (rs : List Request) (server_port mail_port : ℤ)
      → stoi (index (codes "server_port") (settings trees config_file)).0 ≡ ok server_port
      → stol (index (codes "mail_server_port") (settings trees config_file)).0 ≡ ok mail_port
      → All (IsProperRequest rt (listed trees client_list)) rs
      → ((serve config_file client_list rs initial).0
          ≡ ok (map (λ r. ok (status_for (listed trees client_list) r)) rs))
        × Ran config_file client_list (serve config_file client_list rs initial).1
  unfolding serve
  serve_lem serves writes config_file client_list rs server_port mail_port e p proper =
      let (started, ready) = start_lem trees rt net db config_file client_list in
      let begun = started ∙ ap (starts trees rt net db config_file) e in
      let w = (start trees rt net db config_file client_list initial).1 in
      let h =
        respond_all_lem rt net db lib serves (as_port server_port) _ writes w.client_map
          (listed trees client_list) rs w refl ready.found proper
          (mail_port, ap stol (ready.config (codes "mail_server_port")) ∙ p) in
      rw begun (
        ap ok h.0,
        record {
          registered =
              relisted w.client_map (listed trees client_list) _ ready.found
                (rw (h.1.rows, ready.rows) h.1.registered);
          found = λ k. ap (find k) h.1.client_map ∙ ready.found k;
          config = λ k. h.1.config k ∙ ready.config k;
        },
      )
