-- ===== src/Handler/Served.antt =====
-- Any sequence of requests, one after the other.
use client_server_db.Prelude.{
  Text, List, [], ◌∷◌, ◌++◌, ◌≡◌, refl, sym, ap, ◌∙◌, Bool, true, false, Option, some, map, All,
  ◌⊎◌, inl, inr, if◌then◌else◌, append-nil, append_assoc, codes,
}
use client_server_db.Prelude.Exec.{Outcome, ok}
use client_server_db.Prelude.Numbers.{stol}
use client_server_db.Prelude.Maps.{find, is_some}
use client_server_db.Context.{index}
use client_server_db.Floats.{Floats}
use client_server_db.Machine.{MachineInfo}
use client_server_db.Smtp.{Network}
use client_server_db.Smtp.Dialogue.{Writes}
use client_server_db.World.{World}
use client_server_db.Wire.{Bytes, Runtime}
use client_server_db.Messages.MachineInfo as InfoMessage
use client_server_db.Alerts.Kinds.{Client}
use client_server_db.Alerts.Delivery.Sent.{HasTrigger, HasPort}
use client_server_db.Persistence.{Database, orm_object}
use client_server_db.Persistence.Stored.{takes_at}
use client_server_db.Handler.{
  StatusCode, success_created, client_error_unauthorized, client_key, handle_post,
}
use client_server_db.Handler.Replies.{handle_post-Accepted, handle_post_unknown}

-- A request to the resource: its path and its content.
abbrev pub Post : Type 0
Post = Text × Bytes

module _ {floats : Floats} (rt : Runtime floats) (net : Network) (db : Database floats) where
  -- What is answered to each request, and the state behind the last.
  unfoldable pub handle_all : List Post → World floats → List (Outcome StatusCode) × World floats
  handle_all [] w = ([], w)
  handle_all (p ∷ ps) w =
      let (r, w') = handle_post rt net db p.0 p.1 w in let (rs, v) = handle_all ps w' in (r ∷ rs, v)

  -- A request of nobody in the map, or one of a client whose triggers can be read with a content
  -- that parses.
  abbrev pub IsProper : List (Text × Client) → Post → Type 0
  IsProper clients p =
      (find (client_key p.0) clients ≡ Option.none)
      ⊎ ((c : Client) × (message : InfoMessage.MachineInfo rt) × (find (client_key p.0) clients
            ≡ some c)
          × (InfoMessage.parse_from_string rt p.1 (InfoMessage.new_machine_info rt) ≡ some message)
          × All HasTrigger c.notify_events)

  -- What a proper request is answered.
  abbrev pub answer_to : List (Text × Client) → Post → Outcome StatusCode
  answer_to clients p = ok (
      if is_some (find (client_key p.0) clients)
      then success_created
      else client_error_unauthorized)

  -- The state behind requests: rows of registered clients were added, and nothing else that the
  -- answers depend on has changed.
  pub record Handled (clients : List (Text × Client)) (w v : World floats) : Type 0 where
    pub new : List (MachineInfo floats)
    pub rows : v.rows ≡ w.rows ++ new
    pub registered : All (λ m. is_some (find m.client_key clients) ≡ true) new
    pub client_map : v.client_map ≡ w.client_map
    pub config : (k : Text) → (index k v.config).0 ≡ (index k w.config).0

  pub Handled-none : (clients : List (Text × Client)) (w : World floats) → Handled clients w w
  Handled-none clients w = record {
    new = [];
    rows = sym (append-nil w.rows);
    registered = tt;
    client_map = refl;
    config = λ k. refl;
  }

  row_registered :
      (clients : List (Text × Client)) (b : Bool) (m : MachineInfo floats)
      → is_some (find m.client_key clients) ≡ true
      → All (λ m. is_some (find m.client_key clients) ≡ true) (if b then m ∷ [] else [])
  row_registered clients true m h = (h, tt)
  row_registered clients false m h = tt

  pub handle_proper :
      Writes net
      → (clients : List (Text × Client)) (p : Post) (w : World floats) → w.client_map ≡ clients
      → IsProper clients p
      → HasPort w
      → ((handle_post rt net db p.0 p.1 w).0 ≡ answer_to clients p)
        × Handled clients w (handle_post rt net db p.0 p.1 w).1
  unfolding orm_object
  handle_proper writes clients p w same (inl unknown) port =
      rw
        (
          handle_post_unknown rt net db p.0 p.1 w (ap (find (client_key p.0)) same ∙ unknown),
          unknown,
        )
        (
          refl,
          record {
            new = [];
            rows = sym (append-nil w.rows);
            registered = tt;
            client_map = refl;
            config = λ k. refl;
          },
        )
  handle_proper writes clients p w same (inr (c, message, known, parsed, triggers)) port =
      let a =
        handle_post-Accepted rt net db p.0 p.1 w c message (ap (find (client_key p.0)) same ∙ known)
          parsed triggers port writes in
      let m = orm_object rt (client_key p.0) message in
      rw known (
        a.answer,
        record {
          new = if takes_at db w m then m ∷ [] else [];
          rows = a.rows;
          registered = row_registered clients (takes_at db w m) m (ap is_some known);
          client_map = a.client_map;
          config = a.config;
        },
      )

  All-append :
      {A : Type 0} (P : A → Type 0) (xs ys : List A) → All P xs → All P ys → All P (xs ++ ys)
  All-append P [] ys h k = k
  All-append P (x ∷ xs) ys h k = (h.0, All-append P xs ys h.1 k)

  pub Handled-trans :
      {clients : List (Text × Client)} {u v w : World floats}
      → Handled clients u v
      → Handled clients v w
      → Handled clients u w
  Handled-trans {clients} {u} {v} {w} h k = record {
    new = h.new ++ k.new;
    rows = k.rows ∙ (ap (λ rs. rs ++ k.new) h.rows ∙ append_assoc u.rows h.new k.new);
    registered = All-append _ h.new k.new h.registered k.registered;
    client_map = k.client_map ∙ h.client_map;
    config = λ x. k.config x ∙ h.config x;
  }

  -- Where the socket takes every line and the mail server's port can be read, each of any sequence
  -- of proper requests is answered, in order: 201 to the clients in the map and 401 to the others,
  -- whatever the database does. Behind the last, the rows are those that were there and then rows
  -- of clients in the map only, and the map and what the configuration reads are unchanged.
  pub handle_all_lem :
      Writes net
      → (clients : List (Text × Client)) (ps : List Post) (w : World floats)
      → w.client_map ≡ clients
      → All (IsProper clients) ps
      → HasPort w
      → ((handle_all ps w).0 ≡ map (answer_to clients) ps) × Handled clients w (handle_all ps w).1
  unfolding handle_all
  handle_all_lem writes clients [] w same proper port = (refl, Handled-none clients w)
  handle_all_lem writes clients (p ∷ ps) w same proper (port, e) =
      let h = handle_proper writes clients p w same proper.0 (port, e) in
      let rest =
        handle_all_lem writes clients ps (handle_post rt net db p.0 p.1 w).1 (h.1.client_map ∙ same)
          proper.1 (port, ap stol (h.1.config (codes "mail_server_port")) ∙ e) in
      (rw (h.0, rest.0) refl, Handled-trans h.1 rest.1)
