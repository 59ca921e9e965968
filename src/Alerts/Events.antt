-- ===== src/Alerts/Events.antt =====
-- The event of an alert of the client list, read plainly: what `get_alert_value`, `get_alert_type` and
-- `get_condition` of server/src/client.cpp come to together.
use client_server_db.Prelude.{
  Text, List, [], ◌∷◌, ◌++◌, ◌≡◌, refl, ap, Bool, true, false, Option, some, codes, is_empty, not,
  text_eq, if◌then◌else◌, Bool-cases, inl, inr,
}
use client_server_db.Boost.{PropertyTree}
use client_server_db.Alerts.Kinds.{
  Alert, Condition, memory, cpu, process, equal, under, over, TriggerEvent, get_alert_type,
  get_condition,
}
use client_server_db.Alerts.Parse.{get_alert_value, read_alert}

-- The names of the alerts.
abbrev pub alerts : List (Text × Alert)
alerts = (codes "memory", memory) ∷ (codes "cpu", cpu) ∷ (codes "process", process) ∷ []

-- The alert of a name; an unknown name is the alert none.
unfoldable pub alert_named : Text → List (Text × Alert) → Alert
alert_named name [] = Alert.none
alert_named name ((n, a) ∷ rest) = if text_eq name n then a else alert_named name rest

-- The first value of a list that is not empty, with its condition.
unfoldable pub first_given : List (Condition × Text) → Condition × Text
first_given [] = (Condition.none, [])
first_given ((c, value) ∷ rest) = if not (is_empty value) then (c, value) else first_given rest

module _ (trees : PropertyTree) where
  open trees use {Tree, get}

  -- The event of an alert whose type and values stand behind the prefix: the condition is the
  -- first of under, over and equal that is given, and the trigger value what it is given.
  abbrev pub event_from : Text → Text → Tree → TriggerEvent
  event_from prefix type kv =
      let given = first_given (
        (under, get kv (prefix ++ codes "under") [])
        ∷ (over, get kv (prefix ++ codes "over") [])
        ∷ (equal, get kv (prefix ++ codes "equal") [])
        ∷ []) in
      record {
        event = record { alert = alert_named type alerts; condition = given.0 };
        value = given.1;
      }

  -- The event of an alert: from its attributes where they have a type, else from its elements where
  -- they have one, and else none.
  unfoldable pub event_of : Tree → Option TriggerEvent
  event_of kv =
      if not (is_empty (get kv (codes "<xmlattr>.type") []))
      then some (event_from (codes "<xmlattr>.") (get kv (codes "<xmlattr>.type") []) kv)
      else if not (is_empty (get kv (codes "type") []))
      then some (event_from [] (get kv (codes "type") []) kv)
      else Option.none

  alert_named_lem : (type : Text) → get_alert_type type ≡ alert_named type alerts
  unfolding get_alert_type alert_named
  alert_named_lem type = refl

  -- What the code reads from an alert with a type.
  abbrev read_event : (Text × Text) → Text → TriggerEvent
  read_event alert type = record {
    event = record { alert = get_alert_type type; condition = get_condition alert.0 };
    value = alert.1;
  }

  read_event_lem :
      (kv : Tree) (old type : Text) (attribute : Bool)
      → read_event (get_alert_value trees kv old attribute).0 type
        ≡ event_from (if attribute then codes "<xmlattr>." else []) type kv
  unfolding get_alert_value first_given get_condition text_eq
  read_event_lem kv old type attribute =
      let key = if attribute then codes "<xmlattr>." else [] in
      rw (alert_named_lem type) (elim (Bool-cases (is_empty (get kv (key ++ codes "under") []))) [
        | inr e ↦ rw e refl
        | inl u ↦ elim (Bool-cases (is_empty (get kv (key ++ codes "over") []))) [
          | inr e ↦ rw (u, e) refl
          | inl o ↦ elim (Bool-cases (is_empty (get kv (key ++ codes "equal") []))) [
            | inr e ↦ rw (u, o, e) refl
            | inl e ↦ rw (u, o, e) refl
          ]
        ]
      ])

  pub read_alert-event_of : (kv : Tree) → read_alert trees kv ≡ event_of kv
  unfolding read_alert get_alert_value event_of
  read_alert-event_of kv = elim (Bool-cases (is_empty (get kv (codes "<xmlattr>.type") []))) [
    | inr e ↦
        rw (e, e, e) (ap some (read_event_lem kv [] (get kv (codes "<xmlattr>.type") []) true))
    | inl e ↦ elim (Bool-cases (is_empty (get kv (codes "type") []))) [
      | inr f ↦ rw (e, f, f) (ap some (read_event_lem kv [] (get kv (codes "type") []) false))
      | inl f ↦ rw (e, f) refl
    ]
  ]
