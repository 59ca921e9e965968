-- ===== src/Alerts/Notify.antt =====
-- `Client::notify` and the three functions that it calls.
use client_server_db.Prelude.{
  ℕ, Text, [], ◌∷◌, ◌++◌, ◌+◌, ◌-◌, ◌%◌, ◌^◌, Bool, true, false, Option, codes, is_empty,
  if◌then◌else◌, ◌&&◌,
}
use client_server_db.Prelude.Int.{ℤ, pos, pos_part, neg_part, ◌-ℤ◌, to_int32, ltb_ℤ, eqb_ℤ}
use client_server_db.Prelude.Exec.{
  Exec, ok, pure, lift, for_each, dereference, continue, ◌>>=◌, ◌>>◌,
}
use client_server_db.Prelude.Numbers.{stoi, stol}
use client_server_db.Floats.{Floats}
use client_server_db.Machine.{MachineInfo, Memory}
use client_server_db.Smtp
use client_server_db.Smtp.{Network, SmtpClient}
use client_server_db.World.{World, info, critical, write_log, config_at}
use client_server_db.Alerts.Kinds.{
  Condition, memory, cpu, process, equal, under, over, alert_eq, condition_eq, TriggerEvent, Client,
}

-- The conversion of a long to the `unsigned int` that `SMTPClient` takes for its port.
abbrev pub to_uint32 : ℤ → ℕ
to_uint32 z = (pos_part z + (2 ^ 32 - neg_part z % 2 ^ 32)) % 2 ^ 32

module _ {floats : Floats} (net : Network) where
  -- `mailc.Send(…)`, with the client kept in the list of the mails.
  unfoldable pub send_mail : SmtpClient → Text → Text → Text → Text → Exec (World floats) Bool
  send_mail client from to subject message w =
      let (r, client') = Smtp.send net from to subject message client in
      continue r (λ ret w'. (ok ret, record w' { mails = w'.mails ++ (client' ∷ []) })) w

  -- The test on what `Send` answers.
  unfoldable pub log_failure : Text → Bool → Exec (World floats) (Unit {0})
  unfolding write_log
  log_failure email true =
      write_log (critical (codes "failed to send email to client {0} for trigger ") (email ∷ []))
  log_failure email false = pure tt

  -- The part under `if( ! body.empty() )`, which the three functions share.
  unfoldable pub mail_alert : Client → Text → Text → Exec (World floats) (Unit {0})
  mail_alert c subject body = do
    write_log (info (codes " trigger : {}") (body ∷ []))
    server ← config_at (codes "mail_server")
    port_text ← config_at (codes "mail_server_port")
    port ← lift (stol port_text)
    user ← config_at (codes "mail_username")
    passwd ← config_at (codes "mail_passwd")
    from ← config_at (codes "mail_username")
    ret ← send_mail (Smtp.new_client server (to_uint32 port) user passwd) from c.email subject body
    log_failure c.email ret

  unfoldable pub mail_unless_empty : Client → Text → Text → Exec (World floats) (Unit {0})
  unfolding mail_alert
  mail_unless_empty c subject body = if is_empty body then pure tt else mail_alert c subject body

module _ (floats : Floats) where
  open floats use {
    Float, float_of_int, double_of_int, float_of_double, int_of_float, mul_double, div_double, lt,
  }

  -- `(100.0 * ( m->mem_total - m->mem_free ) / m->mem_total )`, stored in a float. A difference
  -- that is no int, which C++ leaves undefined, is taken modulo 2 ^ 32.
  unfoldable pub mem_percentage : Memory → Float
  unfolding to_int32 ◌-ℤ◌
  mem_percentage m = float_of_double (
      div_double
        (mul_double (double_of_int (pos 100))
          (double_of_int (to_int32 (m.mem_total -ℤ m.mem_free))))
        (double_of_int m.mem_total))

  -- The body of the mail of `alert_for_memory`; empty where the alert is not triggered.
  unfoldable pub memory_body : Condition → Float → ℤ → Text → Text
  memory_body condition percentage trigger trigger_value =
      if condition_eq condition equal && eqb_ℤ (int_of_float percentage) trigger
      then codes "Memory consumption reached the trigger value of " ++ trigger_value
      else if condition_eq condition under && lt percentage (float_of_int trigger)
      then codes "Memory consumption went under the trigger value of " ++ trigger_value
      else if condition_eq condition over && lt (float_of_int trigger) percentage
      then codes "Memory consumption went over the trigger value of " ++ trigger_value
      else []

  -- The body of the mail of `alert_for_cpu`.
  unfoldable pub cpu_body : Condition → Float → ℤ → Text → Text
  cpu_body condition use_time trigger trigger_value =
      if condition_eq condition equal && eqb_ℤ (int_of_float use_time) trigger
      then codes "CPU usage reached the trigger value of " ++ trigger_value
      else if condition_eq condition under && lt use_time (float_of_int trigger)
      then codes "CPU usage under the trigger value of " ++ trigger_value
      else if condition_eq condition over && lt (float_of_int trigger) use_time
      then codes "CPU usage went over the trigger value of " ++ trigger_value
      else []

-- The body of the mail of `alert_for_process`.
unfoldable pub process_body : Condition → ℤ → ℤ → Text → Text
process_body condition running trigger trigger_value =
    if condition_eq condition equal && eqb_ℤ running trigger
    then codes "Process running limit reached the trigger value of " ++ trigger_value
    else if condition_eq condition under && ltb_ℤ running trigger
    then codes "Process running limit under the trigger value of " ++ trigger_value
    else if condition_eq condition over && ltb_ℤ trigger running
    then codes "Process running limit went over the trigger value of " ++ trigger_value
    else []

module _ (floats : Floats) (net : Network) (c : Client) where
  -- `alert_for_memory`; a null `machine_info` is none.
  unfoldable pub alert_for_memory :
      TriggerEvent → Option (MachineInfo floats) → Exec (World floats) (Unit {0})
  unfolding memory_body mem_percentage mail_unless_empty
  alert_for_memory event machine_info = do
    trigger ← lift (stoi event.value)
    m ← lift (dereference machine_info)
    mail_unless_empty net c (codes "Memory for client " ++ c.key) (
        memory_body floats event.event.condition (mem_percentage floats m.memory) trigger
          event.value)

  -- `alert_for_cpu`
  unfoldable pub alert_for_cpu :
      TriggerEvent → Option (MachineInfo floats) → Exec (World floats) (Unit {0})
  unfolding cpu_body mail_unless_empty
  alert_for_cpu event machine_info = do
    trigger ← lift (stoi event.value)
    m ← lift (dereference machine_info)
    mail_unless_empty net c (codes "CPU usage for client " ++ c.key)
        (cpu_body floats event.event.condition m.cpu.use_time trigger event.value)

  -- `alert_for_process`
  unfoldable pub alert_for_process :
      TriggerEvent → Option (MachineInfo floats) → Exec (World floats) (Unit {0})
  unfolding process_body mail_unless_empty
  alert_for_process event machine_info = do
    trigger ← lift (stoi event.value)
    m ← lift (dereference machine_info)
    mail_unless_empty net c (codes "Process running limit triggered for client " ++ c.key)
        (process_body event.event.condition m.process.running trigger event.value)

  -- One round of the loop of `notify`.
  unfoldable pub notify_event :
      Option (MachineInfo floats) → TriggerEvent → Exec (World floats) (Unit {0})
  notify_event machine_info it =
      if alert_eq it.event.alert memory
      then alert_for_memory it machine_info
      else if alert_eq it.event.alert cpu
      then alert_for_cpu it machine_info
      else if alert_eq it.event.alert process
      then alert_for_process it machine_info
      else pure tt

  -- `notify`
  unfoldable pub notify : Option (MachineInfo floats) → Exec (World floats) (Unit {0})
  unfolding notify_event for_each
  notify machine_info = for_each (notify_event machine_info) c.notify_events
