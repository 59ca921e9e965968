-- ===== src/Messages/SystemInfo/Laws.antt =====
-- What the serializer of `Machine_SystemInfo` writes: its length, and what the parser makes of it.
use client_server_db.Prelude.{
  ℕ, Text, [], ◌++◌, ◌<◌, ◌^◌, ◌≡◌, ◌≢◌, refl, sym, ◌∙◌, Bool, true, false, arith, length,
  length-append, append-nil, append_assoc, if◌then◌else◌, is_empty, ap,
}
use client_server_db.Floats.{Floats}
use client_server_db.Wire.{Bytes, Runtime}
use client_server_db.Wire.Laws.{Laws}
use client_server_db.Wire.Loop.{success, stuck, parse_end, parse-ne-stuck, Takes, merged}
use client_server_db.Messages.Submessage.{IsCarried}
use client_server_db.Messages.Fields.{
  parse-string_field, length-string_field, length-unknowns_field, unknowns_field-nil, default_text,
}
use client_server_db.Messages.Within.{Within, within_rules}
use client_server_db.Messages.{string_field}
use client_server_db.Messages.SystemInfo.{
  SystemInfo, new_system_info, merge_from, copy_from, switch, merge_partial, serialize, byte_size,
}

-- What the serializer can write so that the parser finds it again: UTF-8 texts that are not too
-- long, and no unknown fields.
pub record IsEncodable (is_utf8 : Text → Bool) (m : SystemInfo) : Type 0 where
  pub system_ip : (length m.system_ip < 2 ^ 31) × (is_utf8 m.system_ip ≡ true)
  pub system_name : (length m.system_name < 2 ^ 31) × (is_utf8 m.system_name ≡ true)
  pub known : m.unknown ≡ []

-- A copy is the message copied, its unknown fields too, whatever was there before; a message copied
-- to itself is left alone.
pub copy_from_lem :
    (m from : SystemInfo) → (copy_from false m from ≡ from) × (copy_from true m from ≡ m)
unfolding copy_from
copy_from_lem m from = (
  (λ i. record {
    system_ip = default_text from.system_ip i;
    system_name = default_text from.system_name i;
    unknown = from.unknown;
  }),
  refl,
)

-- Merged into a new message, a message is itself.
pub merge_from-new : (a : SystemInfo) → merge_from new_system_info a ≡ a
unfolding copy_from
merge_from-new a = (copy_from_lem new_system_info a).0

module _ {floats : Floats} (rt : Runtime floats) (laws : Laws rt) where
  switch-Within : (t : ℕ) (bs : Bytes) (m : SystemInfo) → Within bs (switch rt t bs m)
  unfolding switch
  switch-Within t bs m = search within_rules depth 12

  switch-Takes : Takes rt (switch rt)
  switch-Takes t bs m m' rest h = (switch-Within t bs m).at m' rest h

  -- On every input the parser ends.
  pub merge_partial-ne-stuck : (bs : Bytes) (m : SystemInfo) → merge_partial rt bs m ≢ stuck
  unfolding merge_partial
  merge_partial-ne-stuck = parse-ne-stuck rt (switch rt) laws switch-Takes

  -- Parsing what the serializer wrote for one message into another merges the first into the
  -- second, whatever follows.
  pub merge_partial-serialize :
      (a m : SystemInfo) (rest : Bytes)
      → IsEncodable rt.is_utf8 a
      → merge_partial rt (serialize rt a ++ rest) m ≡ merge_partial rt rest (merge_from m a)
  unfolding merge_partial serialize merge_from switch
  merge_partial-serialize a m rest h =
      let parse_string = parse-string_field rt laws (switch rt) switch-Takes in
      let m1 = record m { system_ip = if is_empty a.system_ip then m.system_ip else a.system_ip } in
      rw (h.known, unknowns_field-nil, append-nil, append-nil, append_assoc)
        (parse_string 1 a.system_ip (string_field rt 2 a.system_name ++ rest)
            (λ x. record m { system_ip = x }) m.system_ip (omega arith) (omega arith)
            (rw (laws.read_string_body _ _ h.system_ip.0, h.system_ip.1))
          ∙ parse_string 2 a.system_name rest (λ x. record m1 { system_name = x }) m.system_name
              (omega arith) (omega arith)
              (rw (laws.read_string_body _ _ h.system_name.0, h.system_name.1)))

  -- The length of what is written is the size that was computed for it.
  pub length-serialize : (a : SystemInfo) → length (serialize rt a) ≡ byte_size rt a
  unfolding serialize byte_size
  length-serialize a =
      rw
        (
          length-append,
          length-append,
          length-string_field rt laws 1 (omega arith) (omega arith),
          length-string_field rt laws 2 (omega arith) (omega arith),
          length-unknowns_field rt laws,
        )
        (omega arith)

  -- A message that can be encoded can be carried as a submessage.
  pub serialize-IsCarried :
      (a : SystemInfo)
      → IsEncodable rt.is_utf8 a
      → byte_size rt a < 2 ^ 31
      → IsCarried rt laws
          (λ bs x. merged (merge_partial rt bs x))
          (byte_size rt)
          (serialize rt)
          merge_from
          new_system_info
          a
  unfolding merge_partial
  serialize-IsCarried a h short = record {
    merges = λ m.
        ap (λ bs. merged (merge_partial rt bs m)) (sym (append-nil (serialize rt a)))
        ∙ ap merged (merge_partial-serialize a m [] h)
        ∙ ap merged (parse_end rt (switch rt) laws switch-Takes (merge_from m a));
    sized = length-serialize a;
    short = short;
  }

  -- Parsed into a new message, it is the message itself, and the input is used up.
  pub merge_partial-new :
      (a : SystemInfo)
      → IsEncodable rt.is_utf8 a
      → merge_partial rt (serialize rt a) new_system_info ≡ success a true
  unfolding merge_partial copy_from
  merge_partial-new a h =
      ap (λ bs. merge_partial rt bs new_system_info) (sym (append-nil (serialize rt a)))
      ∙ merge_partial-serialize a new_system_info [] h
      ∙ rw ((copy_from_lem new_system_info a).0) (parse_end rt (switch rt) laws switch-Takes a)
