-- ===== src/Messages/Submessage.antt =====
-- A field that is a message: what a parser makes of what the serializer wrote, and its length.
use client_server_db.Prelude.{
  ℕ, ◌++◌, ◌+◌, ◌*◌, ◌<◌, ◌^◌, ◌≡◌, refl, sym, ap, ◌∙◌, Option, some, length, true,
}
use client_server_db.Floats.{Floats}
use client_server_db.Wire.{Bytes, Merged, Runtime}
use client_server_db.Wire.Laws.{Laws}
use client_server_db.Wire.Loop.{parse, Takes}
use client_server_db.Messages.Fields.{parse-message_field}
use client_server_db.Messages.{store, mutable, merge_option, message_field, message_field_size}

abbrev pub OnSome : {S : Type 0} → (S → Type 0) → Option S → Type 0
OnSome P Option.none = Unit
OnSome P (some x) = P x

-- A kind of message: its parser, its serializer and its merge.
module _ {floats : Floats} (rt : Runtime floats) (laws : Laws rt) {S : Type 0}
    (merge : Bytes → S → Merged S) (size : S → ℕ) (serialize : S → Bytes) (merge_from : S → S → S)
    (new : S) where
  -- A submessage that its own parser merges as it should, and that is not too long.
  pub record IsCarried (x : S) : Type 0 where
    pub merges : (m : S) → merge (serialize x) m ≡ some (merge_from m x, true)
    pub sized : length (serialize x) ≡ size x
    pub short : size x < 2 ^ 31

  -- A submessage is written with its own length.
  written :
      (n : ℕ) (x : S)
      → length (serialize x) ≡ size x
      → message_field rt size serialize n (some x)
        ≡ rt.write_message n (length (serialize x)) (serialize x)
  unfolding message_field
  written n x e = ap (λ k. rt.write_message n k (serialize x)) (sym e)

  module _ {M : Type 0} (field : ℕ → Bytes → M → Option (M × Bytes)) (takes : Takes rt field) where
    pub parse-submessage :
        (n : ℕ) (o : Option S) (rest : Bytes) (set : Option S → M) (old : Option S)
        → 0 < n
        → n < 16
        → OnSome IsCarried o
        → ((bs : Bytes)
            → field (n * 8 + 2) bs (set old)
              ≡ store (λ v. set (some v)) (rt.read_message S merge bs (mutable new old)))
        → parse rt field (message_field rt size serialize n o ++ rest) (set old)
          ≡ parse rt field rest (set (merge_option merge_from new old o))
    parse-submessage n Option.none rest set old h k c goes = unfold message_field in refl
    parse-submessage n (some x) rest set old h k c goes = rw (written n x c.sized) (
        parse-message_field rt laws field takes n (serialize x) rest (set old)
          (set (some (merge_from (mutable new old) x))) h k
          (rw (
            goes (laws.message_body (serialize x) ++ rest),
            laws.read_message_body S merge (serialize x) rest (mutable new old)
                (merge_from (mutable new old) x) (rw c.sized c.short) (c.merges (mutable new old)),
          )))

  pub length-message_field :
      (n : ℕ) (o : Option S)
      → 0 < n
      → n < 16
      → ((x : S) → length (serialize x) ≡ size x)
      → length (message_field rt size serialize n o) ≡ message_field_size rt size o
  unfolding message_field_size
  length-message_field n Option.none h k sized = unfold message_field in refl
  length-message_field n (some x) h k sized =
      rw (written n x (sized x))
        (laws.length-write_message n (serialize x) h k ∙ ap (λ k. 1 + rt.message_size k) (sized x))
