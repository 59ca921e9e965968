-- ===== src/Alerts/Registry/Listed.antt =====
-- `add_clients` on whatever file there is.
use client_server_db.Prelude.{Text, List, [], Option, some, codes, Option-cases, inl, inr}
use client_server_db.Boost.{PropertyTree}
use client_server_db.Floats.{Floats}
use client_server_db.World.{World}
use client_server_db.Alerts.Kinds.{Client}
use client_server_db.Alerts.Parse.{add_clients, add_log}
use client_server_db.Alerts.Registry.{
  clients_of, Added, add_log-Added, add_each_lem, add_clients_lem,
}

module _ (trees : PropertyTree) where
  open trees use {Tree, read_xml, children, get_child}

  abbrev clients_under : Option Tree → List Client
  clients_under Option.none = []
  clients_under (some list) = clients_of trees (children list)

  abbrev clients_in : Option Tree → List Client
  clients_in Option.none = []
  clients_in (some pt) = clients_under (get_child pt (codes "clients"))

  -- The clients that the text of a client list names; none where there is no such file, or it is no
  -- client list.
  abbrev pub listed : Option Text → List Client
  listed Option.none = []
  listed (some file) = clients_in (read_xml file)

module _ {floats : Floats} (trees : PropertyTree) where
  open trees use {Tree, read_xml, children, get_child}

  pub add_clients-Added :
      (xml_file : Text) (file : Option Text) (w : World floats)
      → Added trees (listed trees file) w (add_clients trees xml_file file w)
  unfolding add_clients add_log
  add_clients-Added xml_file Option.none w = (add_clients_lem trees xml_file [] w).0
  add_clients-Added xml_file (some file) w = elim (Option-cases (read_xml file)) [
    | inl e ↦ rw (e, add_clients) (add_log-Added trees _ w)
    | inr (pt, e) ↦ elim (Option-cases (get_child pt (codes "clients"))) [
      | inl l ↦ rw (e, add_clients, l) (add_log-Added trees _ w)
      | inr (list, l) ↦ rw (e, add_clients, l) (add_each_lem trees (children list) w)
    ]
  ]
