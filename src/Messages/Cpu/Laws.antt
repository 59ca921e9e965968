-- ===== src/Messages/Cpu/Laws.antt =====
-- What the serializer of `Machine_CPU` writes: its length, and what the parser makes of it.
use client_server_db.Prelude.{
  ℕ, [], ◌++◌, ◌<◌, ◌^◌, ◌≡◌, ◌≢◌, refl, sym, ◌∙◌, Bool, true, arith, length, length-append,
  append-nil, append_assoc, if◌then◌else◌, ap,
}
use client_server_db.Prelude.Int.{pos}
use client_server_db.Floats.{Floats}
use client_server_db.Wire.{Bytes, Runtime}
use client_server_db.Wire.Laws.{Laws}
use client_server_db.Wire.Loop.{success, stuck, parse_end, parse-ne-stuck, Takes, merged}
use client_server_db.Messages.Submessage.{IsCarried}
use client_server_db.Messages.Fields.{
  parse-float_field, length-float_field, length-unknowns_field, unknowns_field-nil, default_float,
}
use client_server_db.Messages.Within.{Within, within_rules}
use client_server_db.Messages.{float_field}
use client_server_db.Messages.Cpu.{
  Cpu, new_cpu, merge_from, copy_from, switch, merge_partial, serialize, byte_size,
}

-- What the serializer can write so that the parser finds it again: any floats, and no unknown
-- fields.
pub record IsEncodable {floats : Floats} (m : Cpu floats) : Type 0 where
  pub known : m.unknown ≡ []

-- A float that is equal to zero is the default: there is no negative zero.
pub record HasOneZero {floats : Floats} (m : Cpu floats) : Type 0 where
  pub idle_time : floats.is_zero m.idle_time ≡ true → m.idle_time ≡ floats.float_of_int (pos 0)
  pub use_time : floats.is_zero m.use_time ≡ true → m.use_time ≡ floats.float_of_int (pos 0)

module _ (floats : Floats) where
  -- A copy of a processor message in which a float that is zero is the default zero is the message
  -- copied, its unknown fields too, whatever was there before; a message copied to itself is left
  -- alone.
  pub copy_from_lem :
      (m from : Cpu floats)
      → HasOneZero from
      → (copy_from floats Bool.false m from ≡ from) × (copy_from floats Bool.true m from ≡ m)
  unfolding copy_from
  copy_from_lem m from h = (
    (λ i. record {
      idle_time = default_float floats from.idle_time h.idle_time i;
      use_time = default_float floats from.use_time h.use_time i;
      unknown = from.unknown;
    }),
    refl,
  )

  -- Merged into a new message, a message is itself.
  pub merge_from-new : (a : Cpu floats) → HasOneZero a → merge_from floats (new_cpu floats) a ≡ a
  unfolding copy_from
  merge_from-new a one = (copy_from_lem (new_cpu floats) a one).0

module _ {floats : Floats} (rt : Runtime floats) (laws : Laws rt) where
  switch-Within : (t : ℕ) (bs : Bytes) (m : Cpu floats) → Within bs (switch rt t bs m)
  unfolding switch
  switch-Within t bs m = search within_rules depth 12

  switch-Takes : Takes rt (switch rt)
  switch-Takes t bs m m' rest h = (switch-Within t bs m).at m' rest h

  -- On every input the parser ends.
  pub merge_partial-ne-stuck : (bs : Bytes) (m : Cpu floats) → merge_partial rt bs m ≢ stuck
  unfolding merge_partial
  merge_partial-ne-stuck = parse-ne-stuck rt (switch rt) laws switch-Takes

  -- Parsing what the serializer wrote for one message into another merges the first into the
  -- second, whatever follows.
  pub merge_partial-serialize :
      (a m : Cpu floats) (rest : Bytes)
      → IsEncodable a
      → merge_partial rt (serialize rt a ++ rest) m ≡ merge_partial rt rest (merge_from floats m a)
  unfolding merge_partial serialize merge_from switch
  merge_partial-serialize a m rest h =
      let parse_float = parse-float_field rt laws (switch rt) switch-Takes in
      let m1 = record m {
        idle_time = if floats.is_zero a.idle_time then m.idle_time else a.idle_time;
      } in
      rw (h.known, unknowns_field-nil, append-nil, append-nil, append_assoc)
        (parse_float 1 a.idle_time (float_field rt 2 a.use_time ++ rest)
            (λ x. record m { idle_time = x }) m.idle_time (omega arith) (omega arith)
            (rw laws.read_float_body)
          ∙ parse_float 2 a.use_time rest (λ x. record m1 { use_time = x }) m.use_time (omega arith)
              (omega arith) (rw laws.read_float_body))

  -- The length of what is written is the size that was computed for it.
  pub length-serialize : (a : Cpu floats) → length (serialize rt a) ≡ byte_size rt a
  unfolding serialize byte_size
  length-serialize a =
      rw
        (
          length-append,
          length-append,
          length-float_field rt laws 1 (omega arith) (omega arith),
          length-float_field rt laws 2 (omega arith) (omega arith),
          length-unknowns_field rt laws,
        )
        (omega arith)

  -- A message that can be encoded can be carried as a submessage.
  pub serialize-IsCarried :
      (a : Cpu floats)
      → IsEncodable a
      → byte_size rt a < 2 ^ 31
      → IsCarried rt laws
          (λ bs x. merged (merge_partial rt bs x))
          (byte_size rt)
          (serialize rt)
          (merge_from floats)
          (new_cpu floats)
          a
  unfolding merge_partial
  serialize-IsCarried a h short = record {
    merges = λ m.
        ap (λ bs. merged (merge_partial rt bs m)) (sym (append-nil (serialize rt a)))
        ∙ ap merged (merge_partial-serialize a m [] h)
        ∙ ap merged (parse_end rt (switch rt) laws switch-Takes (merge_from floats m a));
    sized = length-serialize a;
    short = short;
  }

  -- Parsed into a new message, it is the message itself, and the input is used up.
  pub merge_partial-new :
      (a : Cpu floats)
      → IsEncodable a
      → HasOneZero a
      → merge_partial rt (serialize rt a) (new_cpu floats) ≡ success a true
  unfolding merge_partial copy_from
  merge_partial-new a h one =
      ap (λ bs. merge_partial rt bs (new_cpu floats)) (sym (append-nil (serialize rt a)))
      ∙ merge_partial-serialize a (new_cpu floats) [] h
      ∙ rw ((copy_from_lem floats (new_cpu floats) a one).0)
          (parse_end rt (switch rt) laws switch-Takes a)
