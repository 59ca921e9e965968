-- ===== src/Alerts/Registry.antt =====
-- The clients that `add_clients` leaves behind, against a plain reading of the client list.
pub mod Listed
use client_server_db.Prelude.{
  Text, List, [], ◌∷◌, ◌++◌, ◌≡◌, refl, sym, ap, ◌∙◌, Bool, true, false, Option, some, arith, codes,
  is_empty, not, text_eq, if◌then◌else◌, ◌||◌, append-nil, append_assoc, Bool-cases, inl, inr,
}
use client_server_db.Prelude.Maps.{find, find-insert, or_else}
use client_server_db.Boost.{PropertyTree}
use client_server_db.Alerts.Events.{event_of, read_alert-event_of}
use client_server_db.Floats.{Floats}
use client_server_db.World.{World, LogEntry}
use client_server_db.Alerts.Kinds.{
  Alert, Condition, memory, cpu, process, equal, under, over, TriggerEvent, Client, new_client,
  push_events, get_alert_type, get_condition,
}
use client_server_db.Alerts.Parse.{
  add_log, get_alert_value, read_alert, push_alert, read_alerts, register, add_client, add_each,
  add_clients, no_type, no_key,
}

abbrev keep : {A : Type 0} → Option A → List A → List A
keep Option.none xs = xs
keep (some x) xs = x ∷ xs

module _ (trees : PropertyTree) where
  open trees use {Tree, read_xml, children, get, get_child}

  -- The events of a client: one for each `alert` among its children that has a type, in order.
  unfoldable pub events_of : List (Text × Tree) → List TriggerEvent
  events_of [] = []
  events_of ((tag, kv) ∷ kvs) =
      let rest = events_of kvs in
      if text_eq tag (codes "alert") then keep (event_of trees kv) rest else rest

  -- The clients of a list: each child that has a key and a mail address.
  unfoldable pub clients_of : List (Text × Tree) → List Client
  clients_of [] = []
  clients_of ((tag, v) ∷ vs) =
      let rest = clients_of vs in
      if is_empty (get v (codes "<xmlattr>.key") []) || is_empty (get v (codes "<xmlattr>.mail") [])
      then rest
      else record {
        key = get v (codes "<xmlattr>.key") [];
        email = get v (codes "<xmlattr>.mail") [];
        notify_events = events_of (children v);
      }
        ∷ rest

-- The first client of a list with a key.
unfoldable pub first_with : Text → List Client → Option Client
first_with k [] = Option.none
first_with k (c ∷ cs) = let rest = first_with k cs in if text_eq c.key k then some c else rest

or_else_found :
    (c : Client) (old : Option Client) (b : Bool) (more : Option Client)
    → or_else (or_else old (if b then some c else Option.none)) more
      ≡ or_else old (if b then some c else more)
or_else_found c (some d) b more = refl
or_else_found c Option.none true more = refl
or_else_found c Option.none false more = refl

module _ {floats : Floats} (trees : PropertyTree) where
  open trees use {Tree, read_xml, children, get, get_child}

  -- What the client list has no part in.
  pub record Others (w w' : World floats) : Type 0 where
    pub config : w'.config ≡ w.config
    pub mails : w'.mails ≡ w.mails
    pub rows : w'.rows ≡ w.rows

  Others-none : (w : World floats) → Others w w
  Others-none w = record { config = refl; mails = refl; rows = refl }

  -- Reading the alerts of a client gives it their events, and no more than the log changes.
  pub record Read (c : Client) (w : World floats) (events : List TriggerEvent)
      (s : Client × World floats) : Type 0 where
    pub client : s.0 ≡ record c { notify_events = c.notify_events ++ events }
    pub clients : s.1.clients ≡ w.clients
    pub client_map : s.1.client_map ≡ w.client_map
    pub others : Others w s.1

  read_alerts_lem :
      (kvs : List (Text × Tree)) (c : Client) (w : World floats)
      → Read c w (events_of trees kvs) (read_alerts trees kvs (c, w))
  unfolding read_alerts events_of add_log push_events
  read_alerts_lem [] c w = record {
    client = rw append-nil;
    clients = refl;
    client_map = refl;
    others = Others-none w;
  }
  read_alerts_lem ((tag, kv) ∷ kvs) c w = elim (Bool-cases (text_eq tag (codes "alert"))) [
    | inr other ↦ rw other (read_alerts_lem kvs c w)
    | inl alert ↦
        rw (alert, read_alert-event_of trees) (after (event_of trees kv) (read_alerts_lem kvs))
  ]
    where
      after :
          (o : Option TriggerEvent)
          → ((c : Client) (w : World floats)
              → Read c w (events_of trees kvs) (read_alerts trees kvs (c, w)))
          → Read c w (keep o (events_of trees kvs)) (read_alerts trees kvs (push_alert o (c, w)))
      after Option.none ih =
          let r = ih c (add_log no_type w) in
          record {
            client = r.client;
            clients = r.clients;
            client_map = r.client_map;
            others = record {
              config = r.others.config;
              mails = r.others.mails;
              rows = r.others.rows;
            };
          }
      after (some event) ih =
          let r = ih (push_events event c) w in
          record {
            client =
                r.client
                ∙ ap (λ es. record c { notify_events = es })
                    (append_assoc c.notify_events (event ∷ []) (events_of trees kvs));
            clients = r.clients;
            client_map = r.client_map;
            others = r.others;
          }

  -- What the two collections hold after a list of clients is added.
  pub record Added (cs : List Client) (w w' : World floats) : Type 0 where
    pub clients : w'.clients ≡ w.clients ++ cs
    pub found : (k : Text) → find k w'.client_map ≡ or_else (find k w.client_map) (first_with k cs)
    pub others : Others w w'

  register-Added :
      (c : Client) (cs : List Client) (w : World floats) (s : Client × World floats)
      (w' : World floats)
      → s.0 ≡ c
      → s.1.clients ≡ w.clients
      → s.1.client_map ≡ w.client_map
      → Others w s.1
      → Added cs (register s) w'
      → Added (c ∷ cs) w w'
  unfolding register first_with
  register-Added c cs w s w' ec el em o a = record {
    clients = a.clients ∙ rw (el, ec, append_assoc);
    found = λ k.
        rw (a.found k, em, ec, find-insert c.key k c w.client_map)
          (or_else_found c (find k w.client_map) (text_eq c.key k) (first_with k cs));
    others = record {
      config = a.others.config ∙ o.config;
      mails = a.others.mails ∙ o.mails;
      rows = a.others.rows ∙ o.rows;
    };
  }

  -- Adding the children of the list adds their clients: each behind those that were there, and in
  -- the map unless its key was there before.
  pub add_each_lem :
      (vs : List (Text × Tree)) (w : World floats)
      → Added (clients_of trees vs) w (add_each trees vs w)
  unfolding add_each clients_of add_client add_log
  add_each_lem [] w = record {
    clients = sym (append-nil w.clients);
    found = λ k. unfold first_with in ground arith;
    others = Others-none w;
  }
  add_each_lem ((tag, v) ∷ vs) w =
      elim (Bool-cases (
        is_empty (get v (codes "<xmlattr>.key") [])
        || is_empty (get v (codes "<xmlattr>.mail") []))) [
          | inl skip ↦ rw skip (
              let a = add_each_lem vs (add_log no_key w) in
              record {
                clients = a.clients;
                found = a.found;
                others = record {
                  config = a.others.config;
                  mails = a.others.mails;
                  rows = a.others.rows;
                };
              })
          | inr take ↦ rw take (
              let s = read_alerts trees (children v) (
                new_client (get v (codes "<xmlattr>.key") []) (get v (codes "<xmlattr>.mail") []),
                w,
              ) in
              let r =
                read_alerts_lem (children v)
                  (new_client (get v (codes "<xmlattr>.key") [])
                    (get v (codes "<xmlattr>.mail") []))
                  w in
              register-Added _ (clients_of trees vs) w s _ r.client r.clients r.client_map r.others
                (add_each_lem vs (register s)))
        ]

  -- An entry of the log adds no client.
  pub add_log-Added : (entry : LogEntry) (w : World floats) → Added [] w (add_log entry w)
  unfolding add_log
  add_log-Added entry w = record {
    clients = sym (append-nil w.clients);
    found = λ k. unfold first_with in ground arith;
    others = record { config = refl; mails = refl; rows = refl };
  }

  -- After add_clients has read a client list, the clients are those that were there and then, in
  -- the order of the list, one for each child with a key and a mail address, with one event for
  -- each of its alerts that has a type among its attributes or else among its elements: the alert
  -- of that name, the first of under, over and equal that is given there, and its value. The map
  -- finds what it found before, and else the first of these with the key. A list that is missing or
  -- does not parse adds no client.
  pub add_clients_lem :
      (xml_file file : Text) (w : World floats)
      → Added [] w (add_clients trees xml_file Option.none w)
        × (trees.read_xml file ≡ Option.none
            → Added [] w (add_clients trees xml_file (some file) w))
        × ((pt list : Tree)
            → trees.read_xml file ≡ some pt
            → trees.get_child pt (codes "clients") ≡ some list
            → Added (clients_of trees (children list)) w (add_clients trees xml_file (some file) w))
  unfolding add_clients add_log
  add_clients_lem xml_file file w = (
    add_log-Added _ w,
    λ e. rw (e, add_clients) (add_log-Added _ w),
    λ pt list e l. rw (e, add_clients, l) (add_each_lem (children list) w),
  )
