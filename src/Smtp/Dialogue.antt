-- ===== src/Smtp/Dialogue.antt =====
-- What `send` writes to the socket and answers.
use client_server_db.Prelude.{
  codes, ℕ, Text, List, [], ◌∷◌, ◌++◌, ◌≡◌, refl, Bool, Bool-cases, inl, inr, true, false, arith,
  map, append-nil, append_assoc, ◌&&◌, All,
}
use client_server_db.Prelude.Exec.{Outcome, ok, for_each}
use client_server_db.Smtp.{
  Network, SmtpClient, new_client, dialogue, write_line, handle_connect, handle_resolve, send, crlf,
}

module _ (net : Network) where
  -- Every line of the list goes through.
  abbrev pub AllWritten : List Text → Type 0
  AllWritten = All (λ line. net.writes (line ++ crlf) ≡ true)

  pub write_lines :
      (lines : List Text) (c : SmtpClient)
      → AllWritten lines
      → for_each (write_line net) lines c
        ≡ (ok tt, record c { sent = c.sent ++ map (λ line. line ++ crlf) lines })
  unfolding for_each write_line
  write_lines [] c h = rw append-nil
  write_lines (x ∷ xs) c (h, hs) =
      rw (h, write_lines xs (record c { sent = c.sent ++ ((x ++ crlf) ∷ []) }) hs, append_assoc)

  module _ (server : Text) (port : ℕ) (user password from to subject message : Text) where
    -- The client when `send` hands the message to the service.
    abbrev pub addressed : SmtpClient
    addressed = record {
      server = server;
      port = port;
      user_name = user;
      password = password;
      from = from;
      to = to;
      subject = subject;
      message = message;
      has_error = false;
      sent = [];
    }

    -- The thirteen lines of a mail, in their order.
    abbrev pub mail_lines : List Text
    mail_lines =
        (codes "EHLO " ++ server)
        ∷ codes "AUTH LOGIN"
        ∷ net.base64 user
        ∷ net.base64 password
        ∷ (codes "MAIL FROM:<" ++ (from ++ codes ">"))
        ∷ (codes "RCPT TO:<" ++ (to ++ codes ">"))
        ∷ codes "DATA"
        ∷ (codes "SUBJECT:" ++ subject)
        ∷ (codes "From:" ++ from)
        ∷ (codes "To:" ++ to)
        ∷ []
        ∷ message
        ∷ (codes "." ++ crlf)
        ∷ []

    -- On a new client, send answers true and writes nothing where the server's name does not
    -- resolve or the connection is refused. Where both succeed and the socket takes every line, it
    -- answers false, and the thirteen lines written out above stand on the wire in order, each with
    -- CR LF behind it.
    pub send_lem :
        (((net.resolves server port && net.connects server port) ≡ false)
          → send net from to subject message (new_client server port user password)
            ≡ (ok true, record addressed { has_error = true }))
        × (net.resolves server port ≡ true
            → net.connects server port ≡ true
            → AllWritten mail_lines
            → send net from to subject message (new_client server port user password)
              ≡ (ok false, record addressed { sent = map (λ line. line ++ crlf) mail_lines }))
    unfolding send handle_resolve handle_connect new_client dialogue
    send_lem = (
      λ e. ground arith,
      λ r c h. rw (r, handle_resolve, c, handle_connect, write_lines mail_lines addressed h),
    )

  -- The socket takes every line.
  abbrev pub Writes : Type 0
  Writes = (line : Text) → net.writes line ≡ true

  pub AllWritten-every : Writes → (lines : List Text) → AllWritten lines
  AllWritten-every h [] = tt
  AllWritten-every h (x ∷ xs) = (h (x ++ crlf), AllWritten-every h xs)

  -- What is left of a client when `send` has returned: whom it wrote to, and what.
  pub record Returned (to subject message : Text) (r : Outcome Bool × SmtpClient) : Type 0 where
    pub answer : Bool
    pub client : SmtpClient
    pub ended : r ≡ (ok answer, client)
    pub to_kept : client.to ≡ to
    pub subject_kept : client.subject ≡ subject
    pub message_kept : client.message ≡ message

  -- Where the socket takes every line, `send` returns.
  pub send-Returned :
      Writes
      → (from to subject message : Text) (c : SmtpClient)
      → Returned to subject message (send net from to subject message c)
  unfolding send handle_resolve handle_connect
  send-Returned h from to subject message c = elim (Bool-cases (net.resolves c.server c.port)) [
    | inr refused ↦
        rw (refused, handle_resolve)
          (record {
            answer = true;
            client = record c {
              from = from;
              to = to;
              subject = subject;
              message = message;
              has_error = true;
            };
            ended = refl;
            to_kept = refl;
            subject_kept = refl;
            message_kept = refl;
          })
    | inl resolved ↦ elim (Bool-cases (net.connects c.server c.port)) [
      | inr refused ↦
          rw (resolved, handle_resolve, refused, handle_connect)
            (record {
              answer = true;
              client = record c {
                from = from;
                to = to;
                subject = subject;
                message = message;
                has_error = true;
              };
              ended = refl;
              to_kept = refl;
              subject_kept = refl;
              message_kept = refl;
            })
      | inl connected ↦
          let c' = record c { from = from; to = to; subject = subject; message = message } in
          rw
            (
              resolved,
              handle_resolve,
              connected,
              handle_connect,
              write_lines (dialogue net.base64 c') c' (AllWritten-every h (dialogue net.base64 c')),
            )
            (record {
              answer = c.has_error;
              client = record c' {
                sent = c.sent ++ map (λ line. line ++ crlf) (dialogue net.base64 c');
              };
              ended = refl;
              to_kept = refl;
              subject_kept = refl;
              message_kept = refl;
            })
    ]
  ]
