-- ===== src/Smtp.antt =====
-- common/include/smtpclient.h: a message sent over SMTP by callbacks of boost's `io_service`.
-- The resolver, the socket and the base64 iterators are parameters.
pub mod Dialogue
use client_server_db.Prelude.{
  ℕ, Text, List, [], ◌∷◌, ◌++◌, Bool, true, false, codes, if◌then◌else◌, not,
}
use client_server_db.Prelude.Exec.{
  Exec, Outcome, ok, throws, system_error, pure, gets, modify, for_each, ◌>>=◌, ◌>>◌,
}

-- What the network does with a connection to a server's port, and the library's encoder.
pub record Network : Type 0 where
  pub resolves : Text → ℕ → Bool
  pub connects : Text → ℕ → Bool
  -- Whether `boost::asio::write` of this line succeeds; it throws where it does not.
  pub writes : Text → Bool
  pub base64 : Text → Text

-- The fields of `SMTPClient` that its methods use, and `sent`: the lines written to the socket.
pub record SmtpClient : Type 0 where
  pub server : Text
  pub port : ℕ
  pub user_name : Text
  pub password : Text
  pub from : Text
  pub to : Text
  pub subject : Text
  pub message : Text
  pub has_error : Bool
  pub sent : List Text

-- The constructor; the resolver that it starts runs when `Send` runs the service.
unfoldable pub new_client : Text → ℕ → Text → Text → SmtpClient
new_client server port user password = record {
  server = server;
  port = port;
  user_name = user;
  password = password;
  from = [];
  to = [];
  subject = [];
  message = [];
  has_error = false;
  sent = [];
}

abbrev pub crlf : Text
crlf = 13 ∷ 10 ∷ []

-- The lines that `handleConnect` hands to `writeLine`.
unfoldable pub dialogue : (Text → Text) → SmtpClient → List Text
dialogue base64 c =
    (codes "EHLO " ++ c.server)
    ∷ codes "AUTH LOGIN"
    ∷ base64 c.user_name
    ∷ base64 c.password
    ∷ (codes "MAIL FROM:<" ++ (c.from ++ codes ">"))
    ∷ (codes "RCPT TO:<" ++ (c.to ++ codes ">"))
    ∷ codes "DATA"
    ∷ (codes "SUBJECT:" ++ c.subject)
    ∷ (codes "From:" ++ c.from)
    ∷ (codes "To:" ++ c.to)
    ∷ []
    ∷ c.message
    ∷ (codes "." ++ crlf)
    ∷ []

module _ (net : Network) where
  open net use {resolves, connects, writes, base64}

  -- `writeLine`
  unfoldable pub write_line : Text → Exec SmtpClient (Unit {0})
  write_line line c =
      if writes (line ++ crlf)
      then (ok tt, record c { sent = c.sent ++ ((line ++ crlf) ∷ []) })
      else (throws system_error, c)

  -- `handleConnect`
  unfoldable pub handle_connect : Bool → Exec SmtpClient (Unit {0})
  handle_connect true c = for_each write_line (dialogue base64 c) c
  handle_connect false c = (ok tt, record c { has_error = true })

  -- `handleResolve`, with the callback of the connection that it starts.
  unfoldable pub handle_resolve : Bool → Exec SmtpClient (Unit {0})
  handle_resolve true c = handle_connect (connects c.server c.port) c
  handle_resolve false c = (ok tt, record c { has_error = true })

  -- `Send`: the answer is true where there was an error.
  unfoldable pub send : Text → Text → Text → Text → Exec SmtpClient Bool
  send from to subject message = do
    modify (λ c. record c { from = from; to = to; subject = subject; message = message })
    connected ← gets (λ c. resolves c.server c.port)
    handle_resolve connected
    gets (λ c. c.has_error)
