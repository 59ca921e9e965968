-- ===== src/Odb/Image/RoundTrip.antt =====
-- An object is what its image stands for.
use client_server_db.Prelude.{◌^◌, ◌<◌, ◌≡◌}
use client_server_db.Prelude.Int.{IsInt32}
use client_server_db.Floats.{Floats}
use client_server_db.Machine.{MachineInfo}
use client_server_db.Odb.Traits.{Traits}
use client_server_db.Odb.Traits.Laws.{Laws}
use client_server_db.Odb.Image.{Object, Image, to_image, of_image}

-- The numbers are within the types of their fields.
pub record IsStorable {floats : Floats} (m : MachineInfo floats) : Type 0 where
  pub mem_total : IsInt32 m.memory.mem_total
  pub mem_available : IsInt32 m.memory.mem_available
  pub mem_free : IsInt32 m.memory.mem_free
  pub total : IsInt32 m.process.total
  pub running : IsInt32 m.process.running
  pub blocked : IsInt32 m.process.blocked
  pub time_stamp : m.time_stamp < 2 ^ 64

module _ {floats : Floats} (traits : Traits floats) (laws : Laws traits) where
  open laws use {integer_image_value, real_image_value, bigint_image_value, string_image_value}

  -- Whatever an image held before, after an object within the ranges of its fields is written to
  -- it the image stands for the object, but for the id, which is the image's.
  pub of_image-to_image :
      (i : Image traits) (o : Object floats)
      → IsStorable o.info
      → of_image traits (to_image traits i o).0
        ≡ record { id_ = traits.bigint_value i.id_value i.id_null; info = o.info }
  unfolding of_image to_image
  of_image-to_image i o s =
      rw
        (
          integer_image_value _ s.mem_total,
          integer_image_value _ s.mem_available,
          integer_image_value _ s.mem_free,
          integer_image_value _ s.total,
          integer_image_value _ s.running,
          integer_image_value _ s.blocked,
          bigint_image_value _ s.time_stamp,
        )
        (simp (real_image_value, string_image_value))
