-- ===== src/Alerts/Kinds/Names.antt =====
-- The names of the alerts and of the conditions.
use client_server_db.Prelude.{◌≡◌, refl, text_eq}
use client_server_db.Alerts.Kinds.{
  Alert, memory, cpu, process, Condition, equal, under, over, get_alert_string, get_alert_type,
  get_condition_string, get_condition,
}

-- What reading back the name of a condition gives.
unfoldable pub read_back : Condition → Condition
read_back equal = Condition.none
read_back other = other

alerts : (a : Alert) → get_alert_type (get_alert_string a) ≡ a
unfolding get_alert_type get_alert_string text_eq
alerts Alert.none = refl
alerts memory = refl
alerts cpu = refl
alerts process = refl

conditions : (c : Condition) → get_condition (get_condition_string c) ≡ read_back c
unfolding get_condition get_condition_string text_eq read_back
conditions Condition.none = refl
conditions equal = refl
conditions under = refl
conditions over = refl

-- Each alert is read back from its name. So is each condition but one: the name "equal to" is read
-- as no condition.
pub get_alert_type-get_alert_string :
    ((a : Alert) → get_alert_type (get_alert_string a) ≡ a)
    × ((c : Condition) → get_condition (get_condition_string c) ≡ read_back c)
get_alert_type-get_alert_string = (alerts, conditions)
