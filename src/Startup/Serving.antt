-- ===== src/Startup/Serving.antt =====
-- The server's process and the HTTP library together: any sequence of requests, of any method and
-- any path. The library is a parameter, with what its documentation says of it.
use client_server_db.Prelude.{
  Text, List, [], ◌∷◌, ◌≡◌, Bool, false, Option, some, codes, All, ◌⊎◌, if◌then◌else◌, ◌&&◌, ◌||◌,
  text_eq,
}
use client_server_db.Prelude.Exec.{Exec, Outcome, Exception, ok, throws}
use client_server_db.Prelude.Maps.{find, or_else, is_some}
use client_server_db.Floats.{Floats}
use client_server_db.World.{World}
use client_server_db.Wire.{Bytes, Runtime}
use client_server_db.Messages.MachineInfo as InfoMessage
use client_server_db.Alerts.Kinds.{Client}
use client_server_db.Alerts.Registry.{first_with}
use client_server_db.Alerts.Delivery.Sent.{HasTrigger}
use client_server_db.Handler.{
  StatusCode, success_created, client_error_unauthorized, server_error_not_implemented,
  is_machine_path, client_key,
}
use client_server_db.Startup.{HandlerOf, Methods, HttpServer}

pub record Request : Type 0 where
  pub method : Text
  pub path : Text
  pub content : Bytes

-- The HTTP library, on the members that the program sets: whether a regular expression matches the
-- whole of a path, and what is done with a request, to the status that is sent, if one is.
pub record HttpLibrary (floats : Floats) : Type 0 where
  pub matches : Text → Text → Bool
  pub respond : HttpServer floats → Request → Exec (World floats) (Option StatusCode)

module _ {floats : Floats} (matches : Text → Text → Bool) where
  -- The first handler for the method among the resources that match the path.
  unfoldable pub resource_for :
      List (Text × Methods floats) → Text → Text → Option (HandlerOf floats)
  resource_for [] method path = Option.none
  resource_for ((r, handlers) ∷ rs) method path =
      or_else (if matches r path then find method handlers else Option.none)
        (resource_for rs method path)

  -- The handler that the library documents for a request.
  unfoldable pub handler_for : HttpServer floats → Text → Text → Option (HandlerOf floats)
  handler_for server method path =
      or_else (resource_for server.resource method path) (find method server.default_resource)

module _ {floats : Floats} (lib : HttpLibrary floats) where
  -- What the library documents: a request goes to its handler, whose status is sent; where the
  -- handler throws, `on_error` is called, on what is left of the content, and nothing is sent; and
  -- a request without a handler has no answer.
  pub record Serves : Type 0 where
    pub regex :
        (path : Text) → lib.matches (codes "^/machine/[a-zA-Z0-9]*$") path ≡ is_machine_path path
    pub answers :
        (server : HttpServer floats) (r : Request) (w v : World floats) (h : HandlerOf floats)
        (s : StatusCode)
        → handler_for lib.matches server r.method r.path ≡ some h
        → h r.path r.content w ≡ (ok s, v)
        → lib.respond server r w ≡ (ok (some s), v)
    pub reports :
        (server : HttpServer floats) (r : Request) (w v : World floats) (h : HandlerOf floats)
        (e : Exception)
        → handler_for lib.matches server r.method r.path ≡ some h
        → h r.path r.content w ≡ (throws e, v)
        → (left : Text) × (lib.respond server r w ≡ (ok Option.none, (server.on_error left v).1))
    pub closes :
        (server : HttpServer floats) (r : Request) (w : World floats)
        → handler_for lib.matches server r.method r.path ≡ Option.none
        → lib.respond server r w ≡ (ok Option.none, w)

  -- What is sent for each request, and the state behind the last.
  unfoldable pub respond_all :
      HttpServer floats
      → List Request
      → World floats
      → List (Outcome (Option StatusCode)) × World floats
  respond_all server [] w = ([], w)
  respond_all server (r ∷ rs) w =
      let (a, w') = lib.respond server r w in
      let (rest, v) = respond_all server rs w' in (a ∷ rest, v)

-- A POST to the machine resource.
abbrev pub is_report : Request → Bool
is_report r = is_machine_path r.path && text_eq (codes "POST") r.method

-- What a request is sent: a report 201 or 401, any other GET or POST 501, and nothing for the
-- other methods.
abbrev pub status_for : List Client → Request → Option StatusCode
status_for cs r =
    if is_report r
    then some (
        if is_some (first_with (client_key r.path) cs)
        then success_created
        else client_error_unauthorized)
    else if text_eq (codes "GET") r.method || text_eq (codes "POST") r.method
    then some server_error_not_implemented
    else Option.none

module _ {floats : Floats} (rt : Runtime floats) where
  -- A request that is no report; or a report of nobody on the list, or of a client whose triggers
  -- can be read and with a content that parses.
  abbrev pub IsProperRequest : List Client → Request → Type 0
  IsProperRequest cs r =
      (is_report r ≡ false)
      ⊎ ((first_with (client_key r.path) cs ≡ Option.none)
          ⊎ ((c : Client) × (message : InfoMessage.MachineInfo rt) × (first_with (client_key r.path)
                  cs
                ≡ some c)
              × (InfoMessage.parse_from_string rt r.content (InfoMessage.new_machine_info rt)
                  ≡ some message)
              × All HasTrigger c.notify_events))
