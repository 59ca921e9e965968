-- ===== src/Alerts/Kinds.antt =====
-- The types of client.h, and the names of the enumerators in the client list.
pub mod Names
use client_server_db.Prelude.{
  ℕ, Text, List, [], ◌∷◌, ◌++◌, Bool, codes, text_eq, if◌then◌else◌, ◌==◌,
}

-- `enum class Alert`
pub data Alert : Type 0 where
  none memory cpu process : Alert

-- `enum class Condition`
pub data Condition : Type 0 where
  none equal under over : Condition

-- The values of the enumerators.
abbrev pub alert_value : Alert → ℕ
alert_value Alert.none = 0
alert_value memory = 1
alert_value cpu = 2
alert_value process = 3

abbrev pub condition_value : Condition → ℕ
condition_value Condition.none = 0
condition_value equal = 1
condition_value under = 2
condition_value over = 3

abbrev pub alert_eq : Alert → Alert → Bool
alert_eq a b = alert_value a == alert_value b

abbrev pub condition_eq : Condition → Condition → Bool
condition_eq a b = condition_value a == condition_value b

-- `typedef std::pair< Alert, Condition> EventType`
pub record EventType : Type 0 where
  pub alert : Alert
  pub condition : Condition

-- `typedef std::pair < EventType , string > TriggerEvent`
pub record TriggerEvent : Type 0 where
  pub event : EventType
  pub value : Text

-- The fields of `Client`.
pub record Client : Type 0 where
  pub key : Text
  pub email : Text
  pub notify_events : List TriggerEvent

-- `Client::Client`
abbrev pub new_client : Text → Text → Client
new_client key email = record { key = key; email = email; notify_events = [] }

-- `push_events`
unfoldable pub push_events : TriggerEvent → Client → Client
push_events event c = record c { notify_events = c.notify_events ++ (event ∷ []) }

-- `get_condition_string`
unfoldable pub get_condition_string : Condition → Text
get_condition_string c =
    if condition_eq c equal
    then codes "equal to"
    else if condition_eq c under
    then codes "under"
    else if condition_eq c over
    then codes "over"
    else []

-- `get_alert_string`
unfoldable pub get_alert_string : Alert → Text
get_alert_string a =
    if alert_eq a memory
    then codes "memory"
    else if alert_eq a cpu
    then codes "cpu"
    else if alert_eq a process
    then codes "process"
    else []

-- `get_alert_type`
unfoldable pub get_alert_type : Text → Alert
get_alert_type input =
    if text_eq input (codes "memory")
    then memory
    else if text_eq input (codes "cpu")
    then cpu
    else if text_eq input (codes "process")
    then process
    else Alert.none

-- `get_condition`
unfoldable pub get_condition : Text → Condition
get_condition input =
    if text_eq input (codes "equal")
    then equal
    else if text_eq input (codes "under")
    then under
    else if text_eq input (codes "over")
    then over
    else Condition.none
