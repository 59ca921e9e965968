-- ===== src/Wire/Laws.antt =====
-- The documented behaviour of the protobuf runtime that the proofs rest on: the encoding of each
-- kind of field, and that a reader never hands back more than it was given.
use client_server_db.Prelude.{ℕ, Text, [], ◌++◌, ◌+◌, ◌*◌, ◌≤◌, ◌<◌, ◌^◌, ◌≡◌, true, some, length}
use client_server_db.Prelude.Int.{ℤ, IsInt32}
use client_server_db.Floats.{Floats}
use client_server_db.Wire.{Bytes, at_end, tag, Merged, Runtime}

pub record Laws {floats : Floats} (rt : Runtime floats) : Type 1 where
  -- A field is its tag and its body; a reader of the body finds the value and what follows.
  pub int32_body : ℤ → Bytes
  pub float_body : floats.Float → Bytes
  pub string_body : Text → Bytes
  pub message_body : Bytes → Bytes
  pub tag_int32 :
      (n : ℕ) (v : ℤ) (rest : Bytes)
      → 0 < n
      → n < 16
      → rt.read_tag (rt.write_int32 n v ++ rest) ≡ tag (n * 8) (int32_body v ++ rest)
  pub tag_float :
      (n : ℕ) (x : floats.Float) (rest : Bytes)
      → 0 < n
      → n < 16
      → rt.read_tag (rt.write_float n x ++ rest) ≡ tag (n * 8 + 5) (float_body x ++ rest)
  pub tag_string :
      (n : ℕ) (s : Text) (rest : Bytes)
      → 0 < n
      → n < 16
      → rt.read_tag (rt.write_string n s ++ rest) ≡ tag (n * 8 + 2) (string_body s ++ rest)
  pub tag_message :
      (n : ℕ) (payload rest : Bytes)
      → 0 < n
      → n < 16
      → rt.read_tag (rt.write_message n (length payload) payload ++ rest)
        ≡ tag (n * 8 + 2) (message_body payload ++ rest)
  pub read_int32_body :
      (v : ℤ) (rest : Bytes) → IsInt32 v → rt.read_int32 (int32_body v ++ rest) ≡ some (v, rest)
  pub read_float_body :
      (x : floats.Float) (rest : Bytes) → rt.read_float (float_body x ++ rest) ≡ some (x, rest)
  pub read_string_body :
      (s : Text) (rest : Bytes)
      → length s < 2 ^ 31
      → rt.read_string (string_body s ++ rest) ≡ some (s, rest)
  pub read_message_body :
      (M : Type 0) (merge : Bytes → M → Merged M) (payload rest : Bytes) (m m' : M)
      → length payload < 2 ^ 31
      → merge payload m ≡ some (m', true)
      → rt.read_message M merge (message_body payload ++ rest) m ≡ some (m', rest)
  -- The end of the input, and how far the readers go.
  pub read_tag_end : rt.read_tag [] ≡ at_end
  pub read_tag_takes :
      (bs : Bytes) (t : ℕ) (rest : Bytes) → rt.read_tag bs ≡ tag t rest → length rest < length bs
  pub read_int32_takes :
      (bs : Bytes) (v : ℤ) (rest : Bytes)
      → rt.read_int32 bs ≡ some (v, rest)
      → length rest ≤ length bs
  pub read_float_takes :
      (bs : Bytes) (x : floats.Float) (rest : Bytes)
      → rt.read_float bs ≡ some (x, rest)
      → length rest ≤ length bs
  pub read_string_takes :
      (bs : Bytes) (s : Text) (rest : Bytes)
      → rt.read_string bs ≡ some (s, rest)
      → length rest ≤ length bs
  pub read_message_takes :
      (M : Type 0) (merge : Bytes → M → Merged M) (bs : Bytes) (m m' : M) (rest : Bytes)
      → rt.read_message M merge bs m ≡ some (m', rest)
      → length rest ≤ length bs
  pub skip_field_takes :
      (t : ℕ) (bs unknown rest unknown' : Bytes)
      → rt.skip_field t bs unknown ≡ some (rest, unknown')
      → length rest ≤ length bs
  -- The sizes are those of what the writers write; a tag of a field below 16 is one byte.
  pub length-write_int32 :
      (n : ℕ) (v : ℤ) → 0 < n → n < 16 → length (rt.write_int32 n v) ≡ 1 + rt.int32_size v
  pub length-write_float :
      (n : ℕ) (x : floats.Float) → 0 < n → n < 16 → length (rt.write_float n x) ≡ 1 + 4
  pub length-write_string :
      (n : ℕ) (s : Text) → 0 < n → n < 16 → length (rt.write_string n s) ≡ 1 + rt.string_size s
  pub length-write_message :
      (n : ℕ) (payload : Bytes)
      → 0 < n
      → n < 16
      → length (rt.write_message n (length payload) payload) ≡ 1 + rt.message_size (length payload)
  pub string_size_bound : (s : Text) → length s ≤ rt.string_size s
  pub message_size_bound : (n : ℕ) → n ≤ rt.message_size n
  pub length-write_unknowns : (u : Bytes) → length (rt.write_unknowns u) ≡ rt.unknowns_size u
  -- The runtime's own message.
  pub length-serialize_timestamp :
      (t : rt.Timestamp) → length (rt.serialize_timestamp t) ≡ rt.timestamp_size t
  pub merge-serialize_timestamp :
      (t m : rt.Timestamp)
      → rt.merge_timestamp (rt.serialize_timestamp t) m ≡ some (rt.merge_from_timestamp m t, true)
  pub merge_from_new_timestamp : (t : rt.Timestamp) → rt.merge_from_timestamp rt.new_timestamp t ≡ t
