-- ===== src/Handler/EndToEnd.antt =====
-- From the client's message to the row of the database: the serializer of the client, the path that
-- it posts to, and the handler of the server.
use client_server_db.Prelude.{Text, ◌++◌, ◌<◌, ◌^◌, ◌≡◌, ◌∙◌, ap, true, some, codes, All}
use mathlib.Core.Path.{subst}
use client_server_db.Prelude.Maps.{find}
use client_server_db.Floats.{Floats}
use client_server_db.Smtp.{Network}
use client_server_db.Smtp.Dialogue.{Writes}
use client_server_db.World.{World}
use client_server_db.Wire.{Bytes, Runtime}
use client_server_db.Wire.Laws.{Laws}
use client_server_db.Messages.MachineInfo.{
  MachineInfo, new_machine_info, byte_size, serialize_to_string,
}
use client_server_db.Messages.MachineInfo.RoundTrip.{
  IsSendable, parse_from_string-serialize_to_string,
}
use client_server_db.Alerts.Kinds.{Client}
use client_server_db.Alerts.Delivery.Sent.{HasTrigger, HasPort}
use client_server_db.Persistence.{Database, orm_object}
use client_server_db.Persistence.Figures.{HasFigures, orm_object-HasFigures}
use client_server_db.Handler.{all_key_chars, handle_post}
use client_server_db.Handler.Replies.{Accepted, handle_post-Accepted}
use client_server_db.Handler.Paths.{client_key_lem}

module _ {floats : Floats} (rt : Runtime floats) (laws : Laws rt) (net : Network)
    (db : Database floats) where
  -- A message that the wire carries unchanged, serialized by a client whose id has letters and
  -- digits only and is registered at the server, and posted to "/machine/" with the id behind it,
  -- is accepted: the answer is 201, and the new row (where the database takes it) and the mails are
  -- those of the object of that same message, which has the id as its key and in each member the
  -- field of the message with its name. It asks that the message is shorter than 2 ^ 31, that
  -- the client's triggers and the mail server's port can be read, and that the socket takes every
  -- line.
  pub handle_post-serialize_to_string :
      (id : Text) (message : MachineInfo rt) (w : World floats) (c : Client)
      → all_key_chars id ≡ true
      → IsSendable rt message
      → byte_size rt message < 2 ^ 31
      → find id w.client_map ≡ some c
      → All HasTrigger c.notify_events
      → HasPort w
      → Writes net
      → (bs : Bytes) × (serialize_to_string rt message ≡ some bs)
        × Accepted rt net db c
            (orm_object rt id message)
            w
            (handle_post rt net db (codes "/machine/" ++ id) bs w)
        × HasFigures rt id message (orm_object rt id message)
  handle_post-serialize_to_string id message w c chars sendable short known triggers port writes =
      let key = (client_key_lem id chars).1 in
      let (bs, written, sized, parsed) =
        parse_from_string-serialize_to_string rt laws message (new_machine_info rt) sendable
          short in
      (
        bs,
        written,
        subst
            (λ k.
              Accepted rt net db c (orm_object rt k message) w
                (handle_post rt net db (codes "/machine/" ++ id) bs w))
            key
            (handle_post-Accepted rt net db (codes "/machine/" ++ id) bs w c message
              (ap (λ k. find k w.client_map) key ∙ known) parsed triggers port writes),
        orm_object-HasFigures rt id message,
      )
