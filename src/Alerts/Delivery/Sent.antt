-- ===== src/Alerts/Delivery/Sent.antt =====
-- An action that returned and sent some mails, and what its caller may rely on.
use client_server_db.Prelude.{
  Text, List, [], ◌++◌, ◌≡◌, refl, sym, ap, ◌∙◌, codes, map, append-nil, append_assoc,
}
use client_server_db.Prelude.Int.{ℤ}
use client_server_db.Prelude.Exec.{Exec, Outcome, ok, ◌>>◌}
use client_server_db.Prelude.Numbers.{stoi, stol}
use client_server_db.Context.{index}
use client_server_db.Floats.{Floats}
use client_server_db.World.{World}
use client_server_db.Alerts.Kinds.{TriggerEvent}
use client_server_db.Alerts.Delivery.{Envelope, envelope}

-- The trigger value of an event can be read.
abbrev pub HasTrigger : TriggerEvent → Type 0
HasTrigger e = (trigger : ℤ) × (stoi e.value ≡ ok trigger)

module _ {floats : Floats} where
  -- The mail server's port can be read.
  abbrev pub HasPort : World floats → Type 0
  HasPort w = (port : ℤ) × (stol (index (codes "mail_server_port") w.config).0 ≡ ok port)

  -- The action returned, and it sent these mails in this order. Every key of the configuration
  -- reads as before, and the rows and the clients are those that were there.
  pub record Delivered (es : List Envelope) (w : World floats)
      (r : Outcome (Unit {0}) × World floats) : Type 0 where
    pub ended : r.0 ≡ ok tt
    pub mailed : map envelope r.1.mails ≡ map envelope w.mails ++ es
    pub config : (k : Text) → (index k r.1.config).0 ≡ (index k w.config).0
    pub rows : r.1.rows ≡ w.rows
    pub clients : r.1.clients ≡ w.clients
    pub client_map : r.1.client_map ≡ w.client_map

  pub Delivered-nothing : (w : World floats) → Delivered [] w (ok tt, w)
  Delivered-nothing w = record {
    ended = refl;
    mailed = sym (append-nil (map envelope w.mails));
    config = λ k. refl;
    rows = refl;
    clients = refl;
    client_map = refl;
  }

  -- Another world with the same mails, rows and clients, and a configuration that reads the same.
  pub record Same (w v : World floats) : Type 0 where
    pub mails : v.mails ≡ w.mails
    pub config : (k : Text) → (index k v.config).0 ≡ (index k w.config).0
    pub rows : v.rows ≡ w.rows
    pub clients : v.clients ≡ w.clients
    pub client_map : v.client_map ≡ w.client_map

  pub Delivered-Same :
      {es : List Envelope} {w v : World floats} {r : Outcome (Unit {0}) × World floats}
      → Same w v
      → Delivered es v r
      → Delivered es w r
  Delivered-Same {es} s d = record {
    ended = d.ended;
    mailed = d.mailed ∙ ap (λ ms. map envelope ms ++ es) s.mails;
    config = λ k. d.config k ∙ s.config k;
    rows = d.rows ∙ s.rows;
    clients = d.clients ∙ s.clients;
    client_map = d.client_map ∙ s.client_map;
  }

  -- One action after the other.
  pub Delivered-then :
      {es fs : List Envelope} {w : World floats} (m k : Exec (World floats) (Unit {0}))
      → Delivered es w (m w)
      → Delivered fs (m w).1 (k (m w).1)
      → Delivered (es ++ fs) w ((m >> k) w)
  Delivered-then {es} {fs} {w} m k d f = rw d.ended (record {
    ended = f.ended;
    mailed = f.mailed ∙ ap (λ ms. ms ++ fs) d.mailed ∙ append_assoc (map envelope w.mails) es fs;
    config = λ k. f.config k ∙ d.config k;
    rows = f.rows ∙ d.rows;
    clients = f.clients ∙ d.clients;
    client_map = f.client_map ∙ d.client_map;
  })
