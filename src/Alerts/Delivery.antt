-- ===== src/Alerts/Delivery.antt =====
-- What `notify` sends, against a table of the alerts: which events are due, and the mail of each.
pub mod Sent
pub mod Mails
use client_server_db.Prelude.{
  ℕ, Text, List, [], ◌∷◌, ◌++◌, ◌≡◌, refl, Bool, true, false, Option, some, arith, codes,
  if◌then◌else◌, Bool-cases, inl, inr,
}
use client_server_db.Prelude.Int.{ℤ, pos, ◌-ℤ◌, to_int32, eqb_ℤ, ltb_ℤ}
use client_server_db.Prelude.Exec.{Outcome, ok, throws, fault}
use client_server_db.Prelude.Numbers.{stoi}
use client_server_db.Floats.{Floats}
use client_server_db.Machine.{MachineInfo}
use client_server_db.Smtp.{SmtpClient}
use client_server_db.Alerts.Kinds.{
  Alert, Condition, memory, cpu, process, equal, under, over, TriggerEvent, Client,
}
use client_server_db.Alerts.Notify.{memory_body, cpu_body, process_body}

-- What an alert watches: a float, or an integer.
pub data Reading (floats : Floats) : Type 0 where
  measured : floats.Float → Reading floats
  counted : ℤ → Reading floats

module _ {floats : Floats} where
  -- 100.0 times the memory that is not free, over the whole, as a float. A difference that is no
  -- int is taken modulo 2 ^ 32.
  abbrev pub used_part : MachineInfo floats → floats.Float
  used_part m = floats.float_of_double (
      floats.div_double
        (floats.mul_double (floats.double_of_int (pos 100))
          (floats.double_of_int (to_int32 (m.memory.mem_total -ℤ m.memory.mem_free))))
        (floats.double_of_int m.memory.mem_total))

  -- The value of a report that an alert watches.
  unfoldable pub reading : Alert → MachineInfo floats → Option (Reading floats)
  reading Alert.none m = Option.none
  reading memory m = some (measured (used_part m))
  reading cpu m = some (measured m.cpu.use_time)
  reading process m = some (counted m.process.running)

  -- When a condition holds of a value. A float is cut to an integer for the test on equality, and
  -- the trigger is made a float for the others.
  unfoldable pub holds : Condition → Reading floats → ℤ → Bool
  holds Condition.none r trigger = false
  holds equal (measured x) trigger = eqb_ℤ (floats.int_of_float x) trigger
  holds equal (counted z) trigger = eqb_ℤ z trigger
  holds under (measured x) trigger = floats.lt x (floats.float_of_int trigger)
  holds under (counted z) trigger = ltb_ℤ z trigger
  holds over (measured x) trigger = floats.lt (floats.float_of_int trigger) x
  holds over (counted z) trigger = ltb_ℤ trigger z

-- The words of a mail in front of the trigger value.
unfoldable pub wording : Alert → Condition → Text
wording Alert.none c = []
wording a Condition.none = []
wording memory equal = codes "Memory consumption reached the trigger value of "
wording memory under = codes "Memory consumption went under the trigger value of "
wording memory over = codes "Memory consumption went over the trigger value of "
wording cpu equal = codes "CPU usage reached the trigger value of "
wording cpu under = codes "CPU usage under the trigger value of "
wording cpu over = codes "CPU usage went over the trigger value of "
wording process equal = codes "Process running limit reached the trigger value of "
wording process under = codes "Process running limit under the trigger value of "
wording process over = codes "Process running limit went over the trigger value of "

unfoldable pub subject_of : Alert → Text
subject_of Alert.none = []
subject_of memory = codes "Memory for client "
subject_of cpu = codes "CPU usage for client "
subject_of process = codes "Process running limit triggered for client "

-- A mail as its receiver sees it.
pub record Envelope : Type 0 where
  pub to : Text
  pub subject : Text
  pub message : Text

abbrev pub envelope : SmtpClient → Envelope
envelope c = record { to = c.to; subject = c.subject; message = c.message }

module _ {floats : Floats} (c : Client) (m : MachineInfo floats) where
  -- The mails of one event: one where its condition holds, and else none.
  abbrev pub due_at : TriggerEvent → Option (Reading floats) → ℤ → List Envelope
  due_at e Option.none trigger = []
  due_at e (some r) trigger =
      if holds e.event.condition r trigger
      then record {
        to = c.email;
        subject = subject_of e.event.alert ++ c.key;
        message = wording e.event.alert e.event.condition ++ e.value;
      }
        ∷ []
      else []

  abbrev pub due_for : TriggerEvent → Outcome ℤ → List Envelope
  due_for e (ok trigger) = due_at e (reading e.event.alert m) trigger
  due_for e other = []

  unfoldable pub due : List TriggerEvent → List Envelope
  unfolding reading
  due [] = []
  due (e ∷ es) = due_for e (stoi e.value) ++ due es

-- The bodies that the three functions choose are those of the table.
module _ (floats : Floats) (trigger : ℤ) (value : Text) where
  pub memory_body_lem :
      (k : Condition) (x : floats.Float)
      → memory_body floats k x trigger value
        ≡ (if holds {floats = floats} k (measured x) trigger then wording memory k ++ value else [])
  unfolding memory_body holds wording
  memory_body_lem Condition.none x = refl
  memory_body_lem equal x = ground arith
  memory_body_lem under x = ground arith
  memory_body_lem over x = ground arith

  pub cpu_body_lem :
      (k : Condition) (x : floats.Float)
      → cpu_body floats k x trigger value
        ≡ (if holds {floats = floats} k (measured x) trigger then wording cpu k ++ value else [])
  unfolding cpu_body holds wording
  cpu_body_lem Condition.none x = refl
  cpu_body_lem equal x = ground arith
  cpu_body_lem under x = ground arith
  cpu_body_lem over x = ground arith

  pub process_body_lem :
      (k : Condition) (z : ℤ)
      → process_body k z trigger value
        ≡ (if holds {floats = floats} k (counted z) trigger then wording process k ++ value else [])
  unfolding process_body holds wording
  process_body_lem Condition.none z = refl
  process_body_lem equal z = ground arith
  process_body_lem under z = ground arith
  process_body_lem over z = ground arith
