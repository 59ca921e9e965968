-- ===== src/Startup/Answers.antt =====
-- What the server answers to requests of any method and any path, from its start on.
use client_server_db.Prelude.{
  ℕ, Text, List, [], ◌∷◌, ◌≡◌, refl, sym, ap, ◌∙◌, Bool, true, false, Option, some, codes, map, All,
  ◌⊎◌, inl, inr, if◌then◌else◌, ◌&&◌, ◌||◌, text_eq, Bool-cases,
}
use client_server_db.Prelude.Exec.{ok}
use client_server_db.Prelude.Numbers.{stol}
use client_server_db.Prelude.Maps.{find, or_else}
use client_server_db.Floats.{Floats}
use client_server_db.Smtp.{Network}
use client_server_db.Smtp.Dialogue.{Writes}
use client_server_db.World.{World}
use client_server_db.Wire.{Runtime}
use client_server_db.Alerts.Kinds.{Client}
use client_server_db.Alerts.Registry.{first_with}
use client_server_db.Alerts.Delivery.Sent.{HasPort}
use client_server_db.Persistence.{Database}
use client_server_db.Handler.{client_key, handle_post, handle_default}
use client_server_db.Handler.Served.{IsProper, Handled, Handled-none, Handled-trans, handle_proper}
use client_server_db.Startup.{HttpServer, http_server, machine_resource, answer_default}
use client_server_db.Startup.Serving.{
  Request, HttpLibrary, Serves, resource_for, handler_for, respond_all, is_report, status_for,
  IsProperRequest,
}

-- The lookup in one resource and then in the two default resources.
picked :
    {A : Type 0} (m p g : Bool) (h d : A)
    → or_else
        (or_else (if m then if p then some h else Option.none else Option.none) Option.none)
        (if g then some d else if p then some d else Option.none)
      ≡ (if m && p then some h else if g || p then some d else Option.none)
picked true true g h d = refl
picked true false true h d = refl
picked true false false h d = refl
picked false true true h d = refl
picked false true false h d = refl
picked false false true h d = refl
picked false false false h d = refl

module _ {floats : Floats} (rt : Runtime floats) (net : Network) (db : Database floats)
    (lib : HttpLibrary floats) (serves : Serves lib) (port : ℕ) (address : Text) where
  abbrev here : HttpServer floats
  here = http_server rt net db port address

  pub handler_for_lem :
      (r : Request)
      → handler_for lib.matches here r.method r.path ≡ (
          if is_report r
          then some (handle_post rt net db)
          else if text_eq (codes "GET") r.method || text_eq (codes "POST") r.method
          then some answer_default
          else Option.none)
  unfolding handler_for resource_for http_server machine_resource find
  handler_for_lem r =
      picked (lib.matches machine_resource r.path) (text_eq (codes "POST") r.method)
        (text_eq (codes "GET") r.method) (handle_post rt net db) answer_default
      ∙ ap
          (λ m.
            if m && text_eq (codes "POST") r.method
            then some (handle_post rt net db)
            else if text_eq (codes "GET") r.method || text_eq (codes "POST") r.method
            then some answer_default
            else Option.none)
          (serves.regex r.path)

  -- A request that is no report changes nothing.
  pub respond-other :
      (cs : List Client) (r : Request) (w : World floats)
      → is_report r ≡ false
      → lib.respond here r w ≡ (ok (status_for cs r), w)
  unfolding answer_default handle_default
  respond-other cs r w e =
      elim (Bool-cases (text_eq (codes "GET") r.method || text_eq (codes "POST") r.method)) [
        | inl known ↦
            rw (e, known)
              (serves.answers here r w w answer_default _ (handler_for_lem r ∙ rw (e, known) refl)
                refl)
        | inr unknown ↦
            rw (e, unknown) (serves.closes here r w (handler_for_lem r ∙ rw (e, unknown) refl))
      ]

  -- A report is handled as the server's handler does it.
  respond-report :
      Writes net
      → (m : List (Text × Client)) (cs : List Client) (r : Request) (w : World floats)
      → w.client_map ≡ m
      → ((k : Text) → find k m ≡ first_with k cs)
      → is_report r ≡ true
      → IsProper rt net db m (r.path, r.content)
      → HasPort w
      → ((lib.respond here r w).0 ≡ ok (status_for cs r))
        × Handled rt net db m w (lib.respond here r w).1
  respond-report writes m cs r w same found e proper port =
      let h = handle_proper rt net db writes m (r.path, r.content) w same proper port in
      let v = (handle_post rt net db r.path r.content w).1 in
      let told =
        serves.answers here r w v (handle_post rt net db) _ (handler_for_lem r ∙ rw e refl)
          (ap (λ o. (o, v)) h.0) in
      rw (told, e) (rw (sym (found (client_key r.path))) refl, h.1)

  IsProper-found :
      (m : List (Text × Client)) (cs : List Client) (r : Request)
      → ((k : Text) → find k m ≡ first_with k cs)
      → IsProperRequest rt cs r
      → (is_report r ≡ false) ⊎ IsProper rt net db m (r.path, r.content)
  IsProper-found m cs r found (inl other) = inl other
  IsProper-found m cs r found (inr (inl unknown)) = inr (inl (found (client_key r.path) ∙ unknown))
  IsProper-found m cs r found (inr (inr (c, message, known, parsed, triggers))) =
      inr (inr (c, message, found (client_key r.path) ∙ known, parsed, triggers))

  respond_proper :
      Writes net
      → (m : List (Text × Client)) (cs : List Client) (r : Request) (w : World floats)
      → w.client_map ≡ m
      → ((k : Text) → find k m ≡ first_with k cs)
      → IsProperRequest rt cs r
      → HasPort w
      → ((lib.respond here r w).0 ≡ ok (status_for cs r))
        × Handled rt net db m w (lib.respond here r w).1
  respond_proper writes m cs r w same found proper port = elim (Bool-cases (is_report r)) [
    | inr other ↦ rw (respond-other cs r w other) (refl, Handled-none rt net db m w)
    | inl e ↦ elim (IsProper-found m cs r found proper) [
      | inl other ↦ cc
      | inr p ↦ respond-report writes m cs r w same found e p port
    ]
  ]

  pub respond_all_lem :
      Writes net
      → (m : List (Text × Client)) (cs : List Client) (rs : List Request) (w : World floats)
      → w.client_map ≡ m
      → ((k : Text) → find k m ≡ first_with k cs)
      → All (IsProperRequest rt cs) rs
      → HasPort w
      → ((respond_all lib here rs w).0 ≡ map (λ r. ok (status_for cs r)) rs)
        × Handled rt net db m w (respond_all lib here rs w).1
  unfolding respond_all
  respond_all_lem writes m cs [] w same found proper port = (refl, Handled-none rt net db m w)
  respond_all_lem writes m cs (r ∷ rs) w same found proper (p, e) =
      let h = respond_proper writes m cs r w same found proper.0 (p, e) in
      let rest =
        respond_all_lem writes m cs rs (lib.respond here r w).1 (h.1.client_map ∙ same) found
          proper.1 (p, ap stol (h.1.config (codes "mail_server_port")) ∙ e) in
      (rw (h.0, rest.0) refl, Handled-trans rt net db h.1 rest.1)
