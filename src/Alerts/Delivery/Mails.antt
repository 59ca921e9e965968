-- ===== src/Alerts/Delivery/Mails.antt =====
-- The mails that `notify` sends, all events together.
use client_server_db.Prelude.{
  Text, List, [], ◌∷◌, ◌++◌, ◌≡◌, ◌≢◌, refl, sym, ap, ◌∙◌, Bool, true, false, some, codes, map,
  if◌then◌else◌, is_empty, append-nil, All,
}
use mathlib.Core.List.{map-append}
use client_server_db.Prelude.Int.{ℤ}
use client_server_db.Prelude.Exec.{ok, throws, invalid_argument, for_each, ◌>>=◌}
use client_server_db.Prelude.Numbers.{stoi, stol}
use client_server_db.Context.Lookup.{index-index}
use client_server_db.Floats.{Floats}
use client_server_db.Machine.{MachineInfo}
use client_server_db.Smtp.{Network, SmtpClient}
use client_server_db.Smtp.Dialogue.{Writes, send-Returned}
use client_server_db.World.{World, write_log, config_at}
use client_server_db.Alerts.Kinds.{
  Alert, Condition, memory, cpu, process, equal, under, over, TriggerEvent, Client,
}
use client_server_db.Alerts.Notify.{
  send_mail, log_failure, mail_alert, mail_unless_empty, alert_for_memory, alert_for_cpu,
  alert_for_process, notify_event, notify, mem_percentage,
}
use client_server_db.Alerts.Delivery.{
  envelope, Reading, used_part, measured, counted, reading, holds, wording, subject_of, due_for,
  due, memory_body_lem, cpu_body_lem, process_body_lem,
}
use client_server_db.Alerts.Delivery.Sent.{
  HasTrigger, HasPort, Delivered, Delivered-nothing, Delivered-Same, Delivered-then,
}

module _ {floats : Floats} where
  module _ (net : Network) (writes : Writes net) where
    log_failure-Delivered :
        (email : Text) (b : Bool) (v : World floats) → Delivered [] v (log_failure net email b v)
    unfolding log_failure write_log
    log_failure-Delivered email true v = record {
      ended = refl;
      mailed = sym (append-nil (map envelope v.mails));
      config = λ k. refl;
      rows = refl;
      clients = refl;
      client_map = refl;
    }
    log_failure-Delivered email false v = Delivered-nothing v

    send_mail-Delivered :
        (x : SmtpClient) (from to subject body : Text) (v : World floats)
        → Delivered
            (record { to = to; subject = subject; message = body } ∷ [])
            v
            ((send_mail net x from to subject body >>= log_failure net to) v)
    unfolding send_mail
    send_mail-Delivered x from to subject body v =
        let r = send-Returned net writes from to subject body x in
        let l =
          log_failure-Delivered to r.answer (record v { mails = v.mails ++ (r.client ∷ []) }) in
        rw r.ended (record {
          ended = l.ended;
          mailed =
              l.mailed ∙ rw (append-nil, map-append, r.to_kept, r.subject_kept, r.message_kept);
          config = l.config;
          rows = l.rows;
          clients = l.clients;
          client_map = l.client_map;
        })

    mail_alert-Delivered :
        (c : Client) (subject body : Text) (w : World floats)
        → HasPort w
        → Delivered
            (record { to = c.email; subject = subject; message = body } ∷ [])
            w
            (mail_alert net c subject body w)
    unfolding mail_alert write_log config_at
    mail_alert-Delivered c subject body w (port, e) =
        rw (index-index, e)
          (Delivered-Same
            (record {
              mails = refl;
              config = λ k. simp index-index;
              rows = refl;
              clients = refl;
              client_map = refl;
            })
            (send_mail-Delivered _ _ c.email subject body _))

    mail_unless_empty-Delivered :
        (c : Client) (subject text : Text) (b : Bool) (w : World floats)
        → HasPort w
        → (b ≡ true → is_empty text ≡ false)
        → Delivered
            (if b then record { to = c.email; subject = subject; message = text } ∷ [] else [])
            w
            (mail_unless_empty net c subject (if b then text else []) w)
    unfolding mail_unless_empty
    mail_unless_empty-Delivered c subject text true w port h =
        rw (h refl) (mail_alert-Delivered c subject text w port)
    mail_unless_empty-Delivered c subject text false w port h = Delivered-nothing w

    module _ (c : Client) (m : MachineInfo floats) where
      -- A mail that is due has words in front of the trigger value.
      wording-ne-nil :
          (a : Alert) (k : Condition) (r : Reading floats) (trigger : ℤ) (value : Text)
          → reading a m ≡ some r
          → holds k r trigger ≡ true
          → is_empty (wording a k ++ value) ≡ false
      unfolding wording holds reading
      wording-ne-nil Alert.none k r trigger value e h = cc
      wording-ne-nil memory Condition.none r trigger value e h = cc
      wording-ne-nil memory equal r trigger value e h = refl
      wording-ne-nil memory under r trigger value e h = refl
      wording-ne-nil memory over r trigger value e h = refl
      wording-ne-nil cpu Condition.none r trigger value e h = cc
      wording-ne-nil cpu equal r trigger value e h = refl
      wording-ne-nil cpu under r trigger value e h = refl
      wording-ne-nil cpu over r trigger value e h = refl
      wording-ne-nil process Condition.none r trigger value e h = cc
      wording-ne-nil process equal r trigger value e h = refl
      wording-ne-nil process under r trigger value e h = refl
      wording-ne-nil process over r trigger value e h = refl

      at_alert :
          (a : Alert) (e : TriggerEvent) (w : World floats) (trigger : ℤ)
          → e.event.alert ≡ a
          → stoi e.value ≡ ok trigger
          → HasPort w
          → Delivered (due_for c m e (stoi e.value)) w (notify_event floats net c (some m) e w)
      unfolding notify_event alert_for_memory alert_for_cpu alert_for_process subject_of reading
          mem_percentage
      at_alert Alert.none e w trigger ea et port = rw (ea, et) (Delivered-nothing w)
      at_alert memory e w trigger ea et port =
          rw (ea, et, memory_body_lem)
            (mail_unless_empty-Delivered c _ (wording memory e.event.condition ++ e.value)
              (holds e.event.condition (measured (used_part m)) trigger) w port
              (wording-ne-nil memory e.event.condition _ trigger e.value refl))
      at_alert cpu e w trigger ea et port =
          rw (ea, et, cpu_body_lem)
            (mail_unless_empty-Delivered c _ (wording cpu e.event.condition ++ e.value)
              (holds e.event.condition (measured m.cpu.use_time) trigger) w port
              (wording-ne-nil cpu e.event.condition _ trigger e.value refl))
      at_alert process e w trigger ea et port =
          rw (ea, et, process_body_lem floats trigger e.value)
            (mail_unless_empty-Delivered c _ (wording process e.event.condition ++ e.value)
              (holds {floats = floats} e.event.condition (counted m.process.running) trigger) w port
              (wording-ne-nil process e.event.condition _ trigger e.value refl))

      events-Delivered :
          (es : List TriggerEvent) (w : World floats)
          → All HasTrigger es
          → HasPort w
          → Delivered (due c m es) w (for_each (notify_event floats net c (some m)) es w)
      unfolding for_each due
      events-Delivered [] w h port = Delivered-nothing w
      events-Delivered (e ∷ es) w ((trigger, et), hs) (port, ep) =
          let d = at_alert e.event.alert e w trigger refl et (port, ep) in
          Delivered-then (notify_event floats net c (some m) e)
            (for_each (notify_event floats net c (some m)) es) d
            (events-Delivered es _ hs (port, ap stol (d.config (codes "mail_server_port")) ∙ ep))

      -- Where every trigger value of the client can be read, the port of the mail server can be
      -- read and the socket takes every line, notify returns, and it has handed to `Send` exactly
      -- the mails that are due by the table, in the order of the events; `Send` has returned for
      -- each of them, also where the mail server could not be reached. The rows, the clients and
      -- what the configuration answers are unchanged.
      pub notify-Delivered :
          (w : World floats)
          → All HasTrigger c.notify_events
          → HasPort w
          → Delivered (due c m c.notify_events) w (notify floats net c (some m) w)
      unfolding notify
      notify-Delivered w h port = events-Delivered c.notify_events w h port

      event_throws :
          (a : Alert) (e : TriggerEvent) (w : World floats)
          → e.event.alert ≡ a
          → a ≢ Alert.none
          → stoi e.value ≡ throws invalid_argument
          → notify_event floats net c (some m) e w ≡ (throws invalid_argument, w)
      unfolding notify_event alert_for_memory alert_for_cpu alert_for_process
      event_throws Alert.none e w ea kind bad = elim (kind refl) [ ]
      event_throws memory e w ea kind bad = rw (ea, bad) refl
      event_throws cpu e w ea kind bad = rw (ea, bad) refl
      event_throws process e w ea kind bad = rw (ea, bad) refl

      events_throw :
          (front back : List TriggerEvent) (e : TriggerEvent) (w : World floats)
          → All HasTrigger front
          → e.event.alert ≢ Alert.none
          → stoi e.value ≡ throws invalid_argument
          → HasPort w
          → for_each (notify_event floats net c (some m)) (front ++ (e ∷ back)) w
            ≡ (throws invalid_argument, (for_each (notify_event floats net c (some m)) front w).1)
      unfolding for_each
      events_throw [] back e w h kind bad port =
          rw (event_throws e.event.alert e w refl kind bad) refl
      events_throw (f ∷ fs) back e w ((trigger, et), hs) kind bad (port, ep) =
          let d = at_alert f.event.alert f w trigger refl et (port, ep) in
          rw d.ended (
            events_throw fs back e _ hs kind bad
              (port, ap stol (d.config (codes "mail_server_port")) ∙ ep))

      -- An event whose alert is not none and whose trigger value begins with no number, so that
      -- stoi throws invalid_argument, behind events whose trigger values can be read, stops notify
      -- where the port of the mail server can be read and the socket takes every line: the
      -- exception goes on to the caller, the mails of the events in front of it are handed to
      -- `Send`, and none for it and the events behind it.
      pub notify_throws :
          (front back : List TriggerEvent) (e : TriggerEvent) (w : World floats)
          → c.notify_events ≡ front ++ (e ∷ back)
          → All HasTrigger front
          → e.event.alert ≢ Alert.none
          → stoi e.value ≡ throws invalid_argument
          → HasPort w
          → (w' : World floats) × (notify floats net c (some m) w ≡ (throws invalid_argument, w'))
            × Delivered (due c m front) w (ok tt, w')
      unfolding notify
      notify_throws front back e w ec h kind bad port =
          let d = events-Delivered front w h port in
          (
            (for_each (notify_event floats net c (some m)) front w).1,
            ap (λ es. for_each (notify_event floats net c (some m)) es w) ec
                ∙ events_throw front back e w h kind bad port,
            record {
              ended = refl;
              mailed = d.mailed;
              config = d.config;
              rows = d.rows;
              clients = d.clients;
              client_map = d.client_map;
            },
          )
