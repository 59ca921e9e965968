-- ===== src/Tests/Startup.antt =====
-- The server's start and its answers at concrete inputs.
use mathlib.Core.Logic.{inl, inr}
use client_server_db.Prelude.{
  map, Text, List, [], ◌∷◌, ◌≡◌, refl, true, Option, some, codes, text_eq, All,
}
use client_server_db.Prelude.Int.{pos}
use client_server_db.Prelude.Exec.{Outcome, ok, throws, fault}
use client_server_db.Prelude.Numbers.{stoi, stol}
use client_server_db.Prelude.Maps.{find, insert}
use client_server_db.Strings.{rfind}
use client_server_db.World.{World}
use client_server_db.Context.{index, load, insert_all}
use client_server_db.Messages.MachineInfo.{new_machine_info}
use client_server_db.Alerts.Kinds.{Client, get_alert_type, get_condition}
use client_server_db.Alerts.Parse.{read_alert, get_alert_value}
use client_server_db.Alerts.Events.{event_of, alert_named, first_given}
use client_server_db.Alerts.Registry.{clients_of, events_of, first_with}
use client_server_db.Alerts.Registry.Listed.{listed}
use client_server_db.Handler.{StatusCode, is_machine_path, client_key}
use client_server_db.Startup.{HandlerOf, HttpServer, http_server}
use client_server_db.Startup.Started.{initial, settings}
use client_server_db.Startup.Serving.{
  Request, HttpLibrary, Serves, is_report, handler_for, status_for, IsProperRequest,
}
use client_server_db.Startup.Failing.{Unanswered, respond_throws}
use client_server_db.Startup.Whole.{serve, Ran, serve_lem}
use client_server_db.Tests.Runtime.{integers, words, open_network, open_database}
use client_server_db.Tests.Data.{
  open_network-Writes, cpu_over, cpu_over-HasTrigger, no_condition, watched, serving,
  serving-HasPort,
}
use client_server_db.Tests.Server.{empty_parses, half_told, no_condition_throws}
use client_server_db.Tests.Trees.{pages, children_of, attribute, child_of, text_of}

abbrev pub files : Option Text
files = some (codes "x")

pub port_8080 :
    stoi (index (codes "server_port") (settings pages (some (codes "x")))).0 ≡ ok (pos 8080)
unfolding stoi index load insert_all insert find text_eq children_of text_of
port_8080 = refl

pub mail_8080 :
    stol (index (codes "mail_server_port") (settings pages (some (codes "x")))).0 ≡ ok (pos 8080)
unfolding stol index load insert_all insert find text_eq children_of text_of
mail_8080 = refl

-- The library, as a function that calls the handler.
abbrev sent_for :
    HttpServer integers
    → Outcome StatusCode
    → World integers
    → Outcome (Option StatusCode) × World integers
sent_for server (ok s) v = (ok (some s), v)
sent_for server (throws e) v = (ok Option.none, (server.on_error [] v).1)
sent_for server fault v = (fault, v)

abbrev call :
    Option (HandlerOf integers)
    → HttpServer integers
    → Request
    → World integers
    → Outcome (Option StatusCode) × World integers
call Option.none server r w = (ok Option.none, w)
call (some h) server r w = let (s, v) = h r.path r.content w in sent_for server s v

abbrev pub plain_library : HttpLibrary integers
plain_library = record {
  matches = λ expression path. is_machine_path path;
  respond = λ server r w.
      call (handler_for (λ expression path. is_machine_path path) server r.method r.path) server r
        w;
}

pub plain_library-Serves : Serves plain_library
plain_library-Serves = record {
  regex = λ path. refl;
  answers = λ server r w v h s e f. rw (e, f) refl;
  reports = λ server r w v h x e f. rw (e, f) ([], refl);
  closes = λ server r w e. rw e refl;
}

-- A report of a client on the list, one of a client that is not, and two other requests.
abbrev requests : List Request
requests =
    record { method = codes "POST"; path = codes "/machine/b2"; content = [] }
    ∷ record { method = codes "POST"; path = codes "/machine/a2"; content = [] }
    ∷ record { method = codes "GET"; path = codes "/"; content = [] }
    ∷ record { method = codes "PUT"; path = codes "/machine/b2"; content = [] }
    ∷ []

abbrev pub b2 : Client
b2 = record { key = codes "b2"; email = codes "b@c"; notify_events = cpu_over ∷ [] }

pub listed-b2 : first_with (codes "b2") (listed pages (some (codes "x"))) ≡ some b2
unfolding first_with clients_of events_of event_of alert_named first_given children_of attribute
    child_of text_eq read_alert get_alert_value get_alert_type get_condition
listed-b2 = refl

requests_proper : All (IsProperRequest words (listed pages (some (codes "x")))) requests
unfolding first_with clients_of events_of event_of alert_named first_given children_of attribute
    child_of text_eq read_alert get_alert_value get_alert_type get_condition client_key rfind
    is_machine_path
requests_proper = (
  inr (inr (b2, new_machine_info words, refl, empty_parses, cpu_over-HasTrigger)),
  (inr (inl refl), (inl refl, (inl refl, tt))),
)

serve_lem_example :
    ((serve pages words open_network open_database plain_library files files requests initial).0
      ≡ ok (map (λ r. ok (status_for (listed pages files) r)) requests))
    × Ran pages words open_network open_database plain_library files files
        (serve pages words open_network open_database plain_library files files requests initial).1
serve_lem_example =
    serve_lem pages words open_network open_database plain_library plain_library-Serves
      open_network-Writes files files requests (pos 8080) (pos 8080) port_8080 mail_8080
      requests_proper

abbrev half_told_report : Request
half_told_report = record { method = codes "POST"; path = codes "/machine/a1"; content = [] }

half_told_known :
    find (client_key (codes "/machine/a1")) (serving (watched half_told)).client_map
    ≡ some (watched half_told)
unfolding find text_eq client_key rfind
half_told_known = refl

half_told_reported : is_report half_told_report ≡ true
unfolding is_machine_path text_eq
half_told_reported = refl

respond_throws_example :
    Unanswered words open_network open_database
      (watched half_told)
      (cpu_over ∷ [])
      (client_key (codes "/machine/a1"))
      (new_machine_info words)
      (serving (watched half_told))
      (plain_library.respond
        (http_server words open_network open_database 80 [])
        half_told_report
        (serving (watched half_told)))
respond_throws_example =
    respond_throws words open_network open_database plain_library plain_library-Serves
      open_network-Writes 80 [] half_told_report (serving (watched half_told)) (watched half_told)
      (new_machine_info words) (cpu_over ∷ []) [] no_condition half_told_reported half_told_known
      empty_parses refl cpu_over-HasTrigger (λ e. cc) no_condition_throws
      (serving-HasPort (watched half_told))
