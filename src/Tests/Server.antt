-- ===== src/Tests/Server.antt =====
-- The server's properties at concrete inputs.
use client_server_db.Prelude.{
  List, [], ◌∷◌, ◌++◌, ◌≡◌, refl, true, false, Option, some, codes, text_eq,
}
use client_server_db.Prelude.Exec.{ok, throws, fault, invalid_argument, parse_error}
use client_server_db.Prelude.Numbers.{stoi}
use client_server_db.Prelude.Maps.{find}
use client_server_db.Strings.{rfind}
use client_server_db.World.{World}
use client_server_db.Wire.{Bytes}
use client_server_db.Messages.MachineInfo.{
  new_machine_info, parse_from_string, serialize_to_string, merge_partial, switch,
}
use client_server_db.Wire.Loop.{parse, parse_loop}
use client_server_db.Alerts.Kinds.{TriggerEvent}
use client_server_db.Alerts.Notify.{notify}
use client_server_db.Alerts.Delivery.{due}
use client_server_db.Alerts.Delivery.Sent.{Delivered}
use client_server_db.Alerts.Delivery.Mails.{notify-Delivered, notify_throws}
use client_server_db.Alerts.Parse.{add_clients}
use client_server_db.Alerts.Registry.{Added, clients_of, add_clients_lem}
use client_server_db.Persistence.{orm_object}
use client_server_db.Persistence.Figures.{HasFigures}
use client_server_db.Handler.{is_machine_path, handle_post, client_key, all_key_chars, is_key_char}
use client_server_db.Handler.Replies.{Accepted, handle_post-Accepted, handle_post_unparsable}
use client_server_db.Handler.Paths.{is_machine_path-client_key}
use client_server_db.Handler.EndToEnd.{handle_post-serialize_to_string}
use client_server_db.Context.{Config, index}
use client_server_db.Logger.{Level, Logger, log}
use client_server_db.Logger.Once.{level_of, named, levels, log-log}
use client_server_db.ServerConfig.{ServerConfig, initialize_server_config}
use client_server_db.ServerConfig.Entries.{last_value, initialize_server_config_lem}
use client_server_db.Tests.Runtime.{integers, words, words_laws, open_network, open_database}
use client_server_db.Tests.Data.{
  report, report-IsSendable, report_short, cpu_over, no_condition, watched, serving,
  cpu_over-HasTrigger, serving-HasPort, open_network-Writes,
}
use client_server_db.Tests.Trees.{pages, Page}

abbrev one_watcher : World integers
one_watcher = serving (watched (cpu_over ∷ []))

a1_chars : all_key_chars (codes "a1") ≡ true
unfolding all_key_chars is_key_char
a1_chars = refl

a1_known : find (codes "a1") one_watcher.client_map ≡ some (watched (cpu_over ∷ []))
unfolding find text_eq
a1_known = refl

-- The key of the path "/machine/a1" is a1.
a1_path_known :
    find (client_key (codes "/machine/a1")) one_watcher.client_map ≡ some (watched (cpu_over ∷ []))
unfolding find text_eq client_key rfind
a1_path_known = refl

a2_path_unknown : find (client_key (codes "/machine/a2")) one_watcher.client_map ≡ Option.none
unfolding find text_eq client_key rfind
a2_path_unknown = refl

handle_post-serialize_to_string_example :
    (bs : Bytes) × (serialize_to_string words report ≡ some bs)
    × Accepted words open_network open_database
        (watched (cpu_over ∷ []))
        (orm_object words (codes "a1") report)
        one_watcher
        (handle_post words open_network open_database
          (codes "/machine/" ++ codes "a1")
          bs
          one_watcher)
    × HasFigures words (codes "a1") report (orm_object words (codes "a1") report)
handle_post-serialize_to_string_example =
    handle_post-serialize_to_string words words_laws open_network open_database (codes "a1") report
      one_watcher (watched (cpu_over ∷ [])) a1_chars report-IsSendable report_short a1_known
      cpu_over-HasTrigger (serving-HasPort (watched (cpu_over ∷ []))) open_network-Writes

-- No content at all is a report with nothing in it.
pub empty_parses :
    parse_from_string words [] (new_machine_info words) ≡ some (new_machine_info words)
unfolding parse_from_string merge_partial parse parse_loop
empty_parses = refl

-- A tag with nothing behind it is no report.
abbrev garbage : Bytes
garbage = 8 ∷ []

garbage_refused : parse_from_string words garbage (new_machine_info words) ≡ Option.none
unfolding parse_from_string merge_partial parse parse_loop switch
garbage_refused = refl

handle_post-Accepted_example :
    Accepted words open_network open_database
      (watched (cpu_over ∷ []))
      (orm_object words (client_key (codes "/machine/a1")) (new_machine_info words))
      one_watcher
      (handle_post words open_network open_database (codes "/machine/a1") [] one_watcher)
handle_post-Accepted_example =
    handle_post-Accepted words open_network open_database (codes "/machine/a1") [] one_watcher
      (watched (cpu_over ∷ [])) (new_machine_info words) a1_path_known empty_parses
      cpu_over-HasTrigger (serving-HasPort (watched (cpu_over ∷ []))) open_network-Writes

handle_post_unparsable_example :
    ((handle_post words open_network open_database (codes "/machine/a1") garbage one_watcher).0
      ≡ fault)
    × ((handle_post words open_network open_database
          (codes "/machine/a1")
          garbage
          one_watcher).1.rows
        ≡ [])
handle_post_unparsable_example =
    handle_post_unparsable words open_network open_database (codes "/machine/a1") garbage
      one_watcher (watched (cpu_over ∷ [])) a1_path_known garbage_refused refl

notify-Delivered_example :
    Delivered
      (due (watched (cpu_over ∷ [])) (orm_object words (codes "a1") report) (cpu_over ∷ []))
      one_watcher
      (notify integers open_network
        (watched (cpu_over ∷ []))
        (some (orm_object words (codes "a1") report))
        one_watcher)
notify-Delivered_example =
    notify-Delivered open_network open_network-Writes (watched (cpu_over ∷ []))
      (orm_object words (codes "a1") report) one_watcher cpu_over-HasTrigger
      (serving-HasPort (watched (cpu_over ∷ [])))

abbrev pub half_told : List TriggerEvent
half_told = cpu_over ∷ no_condition ∷ []

pub no_condition_throws : stoi no_condition.value ≡ throws invalid_argument
unfolding stoi
no_condition_throws = refl

notify_throws_example :
    (w' : World integers) × (notify integers open_network
        (watched half_told)
        (some (orm_object words (codes "a1") report))
        (serving (watched half_told))
      ≡ (throws invalid_argument, w'))
    × Delivered
        (due (watched half_told) (orm_object words (codes "a1") report) (cpu_over ∷ []))
        (serving (watched half_told))
        (ok tt, w')
notify_throws_example =
    notify_throws open_network open_network-Writes (watched half_told)
      (orm_object words (codes "a1") report) (cpu_over ∷ []) [] no_condition
      (serving (watched half_told)) refl cpu_over-HasTrigger (λ e. cc) no_condition_throws
      (serving-HasPort (watched half_told))

add_clients_lem_example :
    Added pages [] one_watcher (add_clients pages (codes "clients.xml") Option.none one_watcher)
    × (pages.read_xml (codes "x") ≡ Option.none
        → Added pages [] one_watcher
            (add_clients pages (codes "clients.xml") (some (codes "x")) one_watcher))
    × ((pt list : Page)
        → pages.read_xml (codes "x") ≡ some pt
        → pages.get_child pt (codes "clients") ≡ some list
        → Added pages
            (clients_of pages (pages.children list))
            one_watcher
            (add_clients pages (codes "clients.xml") (some (codes "x")) one_watcher))
add_clients_lem_example = add_clients_lem pages (codes "clients.xml") (codes "x") one_watcher

abbrev old_config : ServerConfig
old_config = record { m_ip = codes "0.0.0.0"; m_port = codes "80" }

initialize_server_config_lem_example :
    (initialize_server_config pages Option.none old_config ≡ (ok false, old_config))
    × (pages.read_json (codes "x") ≡ Option.none
        → initialize_server_config pages (some (codes "x")) old_config
          ≡ (throws parse_error, old_config))
    × ((tree : Page)
        → pages.read_json (codes "x") ≡ some tree
        → initialize_server_config pages (some (codes "x")) old_config ≡ (
          ok true,
          record {
            m_ip = last_value pages (codes "host") (pages.children tree) (codes "0.0.0.0");
            m_port = last_value pages (codes "port") (pages.children tree) (codes "80");
          },
        ))
initialize_server_config_lem_example = initialize_server_config_lem pages (codes "x") old_config

abbrev trace_config : Config
trace_config = (codes "debug.level", codes "trace") ∷ []

abbrev fresh_logger : Logger
fresh_logger = record { init = false; level = Level.info }

log-log_example :
    (fresh_logger.init ≡ false
      → log trace_config fresh_logger ≡ (record {
        init = true;
        level = level_of (named (index (codes "debug.level") trace_config).0 levels) Level.info;
      }))
    × (log [] (log trace_config fresh_logger) ≡ log trace_config fresh_logger)
    × ((index (codes "debug.level") trace_config).0 ≡ codes "trace"
        → (log trace_config fresh_logger).level ≡ Level.info)
log-log_example = log-log trace_config [] fresh_logger

a1_matched : is_machine_path (codes "/machine/a1") ≡ true
unfolding is_machine_path all_key_chars is_key_char
a1_matched = refl

is_machine_path-client_key_example :
    (codes "/machine/a1" ≡ codes "/machine/" ++ client_key (codes "/machine/a1"))
    × (all_key_chars (client_key (codes "/machine/a1")) ≡ true)
is_machine_path-client_key_example = is_machine_path-client_key (codes "/machine/a1") a1_matched
