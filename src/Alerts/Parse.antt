-- ===== src/Alerts/Parse.antt =====
-- `Client::add_clients`, which reads the client list, and the two lookups in its map.
use client_server_db.Prelude.{
  Text, List, [], ◌∷◌, ◌++◌, Bool, true, false, Option, some, codes, is_empty, text_eq, not,
  if◌then◌else◌, ◌||◌,
}
use client_server_db.Prelude.Maps.{find, insert, is_some}
use client_server_db.Boost.{PropertyTree}
use client_server_db.Floats.{Floats}
use client_server_db.World.{World, LogEntry, critical}
use client_server_db.Alerts.Kinds.{
  TriggerEvent, Client, new_client, push_events, get_alert_type, get_condition,
}

abbrev pub no_type : LogEntry
no_type = critical (codes " Invalid xml client list file, failed to find alert type") []

abbrev pub no_key : LogEntry
no_key = critical (codes " Invalid xml client list file, failed to find key or email") []

module _ {floats : Floats} where
  unfoldable pub add_log : LogEntry → World floats → World floats
  add_log entry r = record r { log = r.log ++ (entry ∷ []) }

  -- What the loop over the children of a client does with a child that is an alert.
  unfoldable pub push_alert : Option TriggerEvent → Client × World floats → Client × World floats
  unfolding push_events add_log
  push_alert Option.none (c, r) = (c, add_log no_type r)
  push_alert (some event) (c, r) = (push_events event c, r)

  -- `clients.push_back( client )` and `client_map.insert( … )`
  unfoldable pub register : Client × World floats → World floats
  register (c, r) = record r {
    clients = r.clients ++ (c ∷ []);
    client_map = insert c.key c r.client_map;
  }

module _ (trees : PropertyTree) where
  open trees use {Tree, read_xml, children, get, get_child}

  -- `get_alert_value`: the pair that it returns, and `type` as it leaves it.
  unfoldable pub get_alert_value : Tree → Text → Bool → (Text × Text) × Text
  get_alert_value kv type check_xml_attr =
      let key = if check_xml_attr then codes "<xmlattr>." else [] in
      let type' =
        if not (is_empty (get kv (key ++ codes "type") []))
        then get kv (key ++ codes "type") []
        else type in
      let pair : Text × Text =
        if not (is_empty (get kv (key ++ codes "under") []))
        then (codes "under", get kv (key ++ codes "under") [])
        else if not (is_empty (get kv (key ++ codes "over") []))
        then (codes "over", get kv (key ++ codes "over") [])
        else if not (is_empty (get kv (key ++ codes "equal") []))
        then (codes "equal", get kv (key ++ codes "equal") [])
        else ([], []) in
      (pair, type')

  -- The alert of one child: its attributes first, then its elements; none where neither has a type.
  unfoldable pub read_alert : Tree → Option TriggerEvent
  unfolding get_alert_value get_alert_type get_condition
  read_alert kv =
      let by_attribute = get_alert_value kv [] true in
      let (alert, type) =
        if is_empty by_attribute.1 then get_alert_value kv by_attribute.1 false else by_attribute in
      if is_empty type
      then Option.none
      else some (record {
        event = record { alert = get_alert_type type; condition = get_condition alert.0 };
        value = alert.1;
      })

module _ {floats : Floats} (trees : PropertyTree) where
  open trees use {Tree, read_xml, children, get, get_child}

  -- The loop over the children of a client.
  unfoldable pub read_alerts : List (Text × Tree) → Client × World floats → Client × World floats
  unfolding push_alert read_alert
  read_alerts [] s = s
  read_alerts ((tag, kv) ∷ kvs) s =
      read_alerts kvs
        (if text_eq tag (codes "alert") then push_alert (read_alert trees kv) s else s)

  -- One round of the loop over the children of `clients`; their tags are not looked at.
  unfoldable pub add_client : Tree → World floats → World floats
  unfolding read_alerts register add_log
  add_client v r =
      let key = get v (codes "<xmlattr>.key") [] in
      let email = get v (codes "<xmlattr>.mail") [] in
      if is_empty key || is_empty email
      then add_log no_key r
      else register (read_alerts (children v) (new_client key email, r))

  unfoldable pub add_each : List (Text × Tree) → World floats → World floats
  unfolding add_client
  add_each [] r = r
  add_each ((tag, v) ∷ vs) r = add_each vs (add_client v r)

  -- `add_clients`, on the text of the file, or none where it cannot be opened. The text of an
  -- exception is left out of the log.
  unfoldable pub add_clients : Text → Option Text → World floats → World floats
  unfolding add_each add_log
  add_clients xml_file Option.none r =
      add_log (critical (codes " Failed to open xml file : {}") (xml_file ∷ [])) r
  add_clients xml_file (some file) r = elim (read_xml file) [
    | Option.none ↦ add_log (critical (codes " Exception in parsing : {}") []) r
    | some pt ↦ elim (get_child pt (codes "clients")) [
      | Option.none ↦ add_log (critical (codes " Exception in parsing : {}") []) r
      | some list ↦ add_each (children list) r
    ]
  ]

module _ {floats : Floats} where
  -- `authenticate_client`
  unfoldable pub authenticate_client : Text → World floats → Bool × World floats
  unfolding add_log
  authenticate_client key r = if is_some (find key r.client_map) then (true, r) else (
    false,
    add_log (critical (codes " unable to authenticate_client client : {}") (key ∷ [])) r,
  )

  -- `get_client`; a null pointer is none.
  unfoldable pub get_client : Text → World floats → Option Client × World floats
  unfolding add_log
  get_client key r = elim (find key r.client_map) [
    | some c ↦ (some c, r)
    | Option.none ↦
        (Option.none, add_log (critical (codes " unable to find client : {}") (key ∷ [])) r)
  ]
