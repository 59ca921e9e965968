-- ===== src/Messages/Memory/Laws.antt =====
-- What the serializer of `Machine_Memory` writes: its length, and what the parser makes of it.
use client_server_db.Prelude.{
  ℕ, [], ◌++◌, ◌<◌, ◌^◌, ◌≡◌, ◌≢◌, refl, sym, ◌∙◌, true, false, arith, length, length-append,
  append-nil, append_assoc, if◌then◌else◌, ap,
}
use client_server_db.Prelude.Int.{is_zero, IsInt32}
use client_server_db.Floats.{Floats}
use client_server_db.Wire.{Bytes, Runtime}
use client_server_db.Wire.Laws.{Laws}
use client_server_db.Wire.Loop.{success, stuck, parse_end, parse-ne-stuck, Takes, merged}
use client_server_db.Messages.Submessage.{IsCarried}
use client_server_db.Messages.Fields.{
  parse-int32_field, length-int32_field, length-unknowns_field, unknowns_field-nil, default_int32,
}
use client_server_db.Messages.Within.{Within, within_rules}
use client_server_db.Messages.{int32_field}
use client_server_db.Messages.Memory.{
  Memory, new_memory, merge_from, copy_from, switch, merge_partial, serialize, byte_size,
}

-- What the serializer can write so that the parser finds it again: 32-bit fields, and no unknown
-- fields.
pub record IsEncodable (m : Memory) : Type 0 where
  pub mem_total : IsInt32 m.mem_total
  pub mem_available : IsInt32 m.mem_available
  pub mem_free : IsInt32 m.mem_free
  pub known : m.unknown ≡ []

-- A copy is the message copied, its unknown fields too, whatever was there before; a message copied
-- to itself is left alone.
pub copy_from_lem :
    (m from : Memory) → (copy_from false m from ≡ from) × (copy_from true m from ≡ m)
unfolding copy_from
copy_from_lem m from = (
  (λ i. record {
    mem_total = default_int32 from.mem_total i;
    mem_available = default_int32 from.mem_available i;
    mem_free = default_int32 from.mem_free i;
    unknown = from.unknown;
  }),
  refl,
)

-- Merged into a new message, a message is itself.
pub merge_from-new : (a : Memory) → merge_from new_memory a ≡ a
unfolding copy_from
merge_from-new a = (copy_from_lem new_memory a).0

module _ {floats : Floats} (rt : Runtime floats) (laws : Laws rt) where
  switch-Within : (t : ℕ) (bs : Bytes) (m : Memory) → Within bs (switch rt t bs m)
  unfolding switch
  switch-Within t bs m = search within_rules depth 12

  switch-Takes : Takes rt (switch rt)
  switch-Takes t bs m m' rest h = (switch-Within t bs m).at m' rest h

  -- On every input the parser ends.
  pub merge_partial-ne-stuck : (bs : Bytes) (m : Memory) → merge_partial rt bs m ≢ stuck
  unfolding merge_partial
  merge_partial-ne-stuck = parse-ne-stuck rt (switch rt) laws switch-Takes

  -- Parsing what the serializer wrote for a memory message with 32-bit numbers and no unknown
  -- fields into another message merges the first into the second, as MergeFrom does, and goes on
  -- with whatever follows. It asks for the documented laws of the runtime.
  pub merge_partial-serialize :
      (a m : Memory) (rest : Bytes)
      → IsEncodable a
      → merge_partial rt (serialize rt a ++ rest) m ≡ merge_partial rt rest (merge_from m a)
  unfolding merge_partial serialize merge_from switch
  merge_partial-serialize a m rest h =
      let parse_int32 = parse-int32_field rt laws (switch rt) switch-Takes in
      let m1 = record m { mem_total = if is_zero a.mem_total then m.mem_total else a.mem_total } in
      let m2 = record m1 {
        mem_available = if is_zero a.mem_available then m.mem_available else a.mem_available;
      } in
      rw (h.known, unknowns_field-nil, append-nil, append-nil, append_assoc, append_assoc)
        (parse_int32 1 a.mem_total
            (int32_field rt 2 a.mem_available ++ (int32_field rt 3 a.mem_free ++ rest))
            (λ x. record m { mem_total = x }) m.mem_total (omega arith) (omega arith)
            (rw (laws.read_int32_body _ _ h.mem_total))
          ∙ parse_int32 2 a.mem_available (int32_field rt 3 a.mem_free ++ rest)
              (λ x. record m1 { mem_available = x }) m.mem_available (omega arith) (omega arith)
              (rw (laws.read_int32_body _ _ h.mem_available))
          ∙ parse_int32 3 a.mem_free rest (λ x. record m2 { mem_free = x }) m.mem_free (omega arith)
              (omega arith) (rw (laws.read_int32_body _ _ h.mem_free)))

  -- The length of what is written is the size that was computed for it.
  pub length-serialize : (a : Memory) → length (serialize rt a) ≡ byte_size rt a
  unfolding serialize byte_size
  length-serialize a =
      rw
        (
          length-append,
          length-append,
          length-append,
          length-int32_field rt laws 1 (omega arith) (omega arith),
          length-int32_field rt laws 2 (omega arith) (omega arith),
          length-int32_field rt laws 3 (omega arith) (omega arith),
          length-unknowns_field rt laws,
        )
        (omega arith)

  -- A message that can be encoded can be carried as a submessage.
  pub serialize-IsCarried :
      (a : Memory)
      → IsEncodable a
      → byte_size rt a < 2 ^ 31
      → IsCarried rt laws
          (λ bs x. merged (merge_partial rt bs x))
          (byte_size rt)
          (serialize rt)
          merge_from
          new_memory
          a
  unfolding merge_partial
  serialize-IsCarried a h short = record {
    merges = λ m.
        ap (λ bs. merged (merge_partial rt bs m)) (sym (append-nil (serialize rt a)))
        ∙ ap merged (merge_partial-serialize a m [] h)
        ∙ ap merged (parse_end rt (switch rt) laws switch-Takes (merge_from m a));
    sized = length-serialize a;
    short = short;
  }

  -- Parsed into a new message, it is the message itself, and the input is used up.
  pub merge_partial-new :
      (a : Memory) → IsEncodable a → merge_partial rt (serialize rt a) new_memory ≡ success a true
  unfolding merge_partial copy_from
  merge_partial-new a h =
      ap (λ bs. merge_partial rt bs new_memory) (sym (append-nil (serialize rt a)))
      ∙ merge_partial-serialize a new_memory [] h
      ∙ rw ((copy_from_lem new_memory a).0) (parse_end rt (switch rt) laws switch-Takes a)
