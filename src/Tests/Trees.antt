-- ===== src/Tests/Trees.antt =====
-- A concrete property tree for the examples: one client list and one configuration.
use client_server_db.Prelude.{
  Text, List, [], ◌∷◌, Option, some, codes, text_eq, is_empty, if◌then◌else◌,
}
use client_server_db.Boost.{PropertyTree}

pub data Page : Type 0 where
  root listing client alert settings port post_url own_id : Page

unfoldable pub children_of : Page → List (Text × Page)
children_of root = (codes "clients", listing) ∷ []
children_of listing = (codes "client", client) ∷ []
children_of client = (codes "alert", alert) ∷ []
children_of settings =
    (codes "port", port)
    ∷ (codes "server_port", port)
    ∷ (codes "mail_server_port", port)
    ∷ (codes "send_stat_frequency", port)
    ∷ (codes "url", post_url)
    ∷ (codes "client_id", own_id)
    ∷ []
children_of other = []

unfoldable pub attribute : Page → Text → Text → Text
attribute client path default =
    if text_eq path (codes "<xmlattr>.key")
    then codes "b2"
    else if text_eq path (codes "<xmlattr>.mail")
    then codes "b@c"
    else default
attribute alert path default =
    if text_eq path (codes "<xmlattr>.type")
    then codes "cpu"
    else if text_eq path (codes "<xmlattr>.over")
    then codes "50"
    else default
attribute other path default = default

unfoldable pub child_of : Page → Text → Option Page
child_of root path = if text_eq path (codes "clients") then some listing else Option.none
child_of other path = Option.none

unfoldable pub text_of : Page → Text
text_of post_url = codes "/machine/@"
text_of own_id = codes "b2"
text_of other = codes "8080"

abbrev pub pages : PropertyTree
pages = record {
  Tree = Page;
  read_xml = λ file. if is_empty file then Option.none else some root;
  read_json = λ file. if is_empty file then Option.none else some settings;
  children = children_of;
  value = text_of;
  get = attribute;
  get_child = child_of;
}
