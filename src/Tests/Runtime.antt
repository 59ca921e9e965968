-- ===== src/Tests/Runtime.antt =====
-- Concrete parameters for the examples: a small codec in the shape of the wire format, a number to
-- a word, with the laws of the protobuf runtime proved of it; floats that are integers; and a
-- network and a database that take everything.
use client_server_db.Prelude.{
  ℕ, zero, suc, [], ◌∷◌, ◌++◌, ◌+◌, ◌*◌, ◌/◌, ◌≤◌, ◌≡◌, refl, ap, true, false, Option, some, arith,
  length, length-append, take, drop, if◌then◌else◌, leb, Bool-cases, inl, inr,
}
use client_server_db.Prelude.Int.{ℤ, pos, negsuc, pos_part, neg_part, sub_ℕ, ◌-ℤ◌, ltb_ℤ, eqb_ℤ}
use client_server_db.Floats.{Floats}
use client_server_db.Smtp.{Network}
use client_server_db.Persistence.{Database}
use client_server_db.Wire.{Bytes, NextTag, at_end, tag, Merged, Runtime}
use client_server_db.Wire.Laws.{Laws}

abbrev times : ℤ → ℤ → ℤ
times a b =
    sub_ℕ (pos_part a * pos_part b + neg_part a * neg_part b)
      (pos_part a * neg_part b + neg_part a * pos_part b)

-- Division of what is not negative, which is all that the examples divide.
abbrev over : ℤ → ℤ → ℤ
over a b = pos (pos_part a / pos_part b)

abbrev pub integers : Floats
integers = record {
  Float = ℤ;
  Double = ℤ;
  float_of_int = λ z. z;
  double_of_int = λ z. z;
  float_of_double = λ z. z;
  double_of_float = λ z. z;
  int_of_float = λ z. z;
  mul_double = times;
  div_double = over;
  sub_float = λ a b. a -ℤ b;
  mul_float = times;
  div_float = over;
  lt = ltb_ℤ;
  is_zero = λ z. eqb_ℤ z (pos 0);
}

-- The words of an integer: one for its positive and one for its negative part.
abbrev decode : ℕ → ℕ → ℤ
decode p zero = pos p
decode p (suc n) = negsuc n

decode_lem : (z : ℤ) → decode (pos_part z) (neg_part z) ≡ z
decode_lem (pos n) = refl
decode_lem (negsuc n) = refl

abbrev next_tag : Bytes → NextTag
next_tag [] = at_end
next_tag (t ∷ rest) = tag t rest

abbrev int_body : ℤ → Bytes
int_body z = pos_part z ∷ neg_part z ∷ []

abbrev take_int : Bytes → Option (ℤ × Bytes)
take_int (p ∷ n ∷ rest) = some (decode p n, rest)
take_int other = Option.none

abbrev wide_body : ℤ → Bytes
wide_body z = pos_part z ∷ neg_part z ∷ 0 ∷ 0 ∷ []

abbrev take_wide : Bytes → Option (ℤ × Bytes)
take_wide (p ∷ n ∷ _ ∷ _ ∷ rest) = some (decode p n, rest)
take_wide other = Option.none

-- A length and that many words.
abbrev sized_body : Bytes → Bytes
sized_body s = length s ∷ s

abbrev split_at : ℕ → Bytes → Option (Bytes × Bytes)
split_at n bs = if leb n (length bs) then some (take n bs, drop n bs) else Option.none

abbrev pub take_sized : Bytes → Option (Bytes × Bytes)
take_sized [] = Option.none
take_sized (n ∷ bs) = split_at n bs

abbrev pub finish : {M : Type 0} → Merged M → Bytes → Option (M × Bytes)
finish Option.none rest = Option.none
finish (some (m, true)) rest = some (m, rest)
finish (some (m, false)) rest = Option.none

abbrev rest_of : {M : Type 0} → Bytes → Option (M × Bytes) → Bytes
rest_of bs Option.none = bs
rest_of bs (some (m, rest)) = rest

abbrev pub take_merged :
    (M : Type 0) → (Bytes → M → Merged M) → Option (Bytes × Bytes) → M → Option (M × Bytes)
take_merged M merge Option.none m = Option.none
take_merged M merge (some (payload, rest)) m = finish (merge payload m) rest

abbrev skip : ℕ → Bytes → Bytes → Option (Bytes × Bytes)
skip t [] unknown = Option.none
skip t (b ∷ rest) unknown = some (rest, unknown ++ (t ∷ b ∷ []))

abbrev pub merge_time : ℕ → ℕ → ℕ
merge_time m zero = m
merge_time m (suc t) = suc t

abbrev pub parse_time : Bytes → ℕ → Merged ℕ
parse_time [] m = some (m, true)
parse_time (t ∷ []) m = some (merge_time m t, true)
parse_time other m = Option.none

abbrev pub words : Runtime integers
words = record {
  read_tag = next_tag;
  read_int32 = take_int;
  read_float = take_wide;
  read_string = take_sized;
  read_message = λ M merge bs m. take_merged M merge (take_sized bs) m;
  skip_field = skip;
  is_utf8 = λ s. true;
  write_int32 = λ n z. (n * 8) ∷ int_body z;
  write_float = λ n z. (n * 8 + 5) ∷ wide_body z;
  write_string = λ n s. (n * 8 + 2) ∷ sized_body s;
  write_message = λ n size payload. (n * 8 + 2) ∷ size ∷ payload;
  int32_size = λ z. 2;
  string_size = λ s. 1 + length s;
  message_size = λ n. 1 + n;
  preserves_unknowns = true;
  write_unknowns = λ u. u;
  unknowns_size = length;
  Timestamp = ℕ;
  new_timestamp = 0;
  merge_timestamp = parse_time;
  merge_from_timestamp = merge_time;
  serialize_timestamp = λ t. t ∷ [];
  timestamp_size = λ t. 1;
  seconds = pos;
}

length-drop : (n : ℕ) (bs : Bytes) → length (drop n bs) ≤ length bs
length-drop zero bs = omega arith
length-drop (suc n) [] = omega arith
length-drop (suc n) (b ∷ bs) = omega (arith, length-drop n bs)

take-append : (s rest : Bytes) → take (length s) (s ++ rest) ≡ s
take-append [] rest = refl
take-append (x ∷ s) rest = ap (λ t. x ∷ t) (take-append s rest)

drop-append : (s rest : Bytes) → drop (length s) (s ++ rest) ≡ rest
drop-append [] rest = refl
drop-append (x ∷ s) rest = drop-append s rest

take_sized_body : (s rest : Bytes) → take_sized (sized_body s ++ rest) ≡ some (s, rest)
take_sized_body s rest = elim (Bool-cases (leb (length s) (length (s ++ rest)))) [
  | inl fits ↦ rw (fits, take-append, drop-append)
  | inr short ↦ absurd (ground (arith, length-append s rest))
]

take_sized_takes : (bs s rest : Bytes) → take_sized bs ≡ some (s, rest) → length rest ≤ length bs
take_sized_takes [] s rest e = cc
take_sized_takes (n ∷ bs) s rest e = elim (Bool-cases (leb n (length bs))) [
  | inl fits ↦ ground (arith, length-drop n bs)
  | inr short ↦ ground arith
]

take_merged_takes :
    (M : Type 0) (merge : Bytes → M → Merged M) (bs : Bytes) (m m' : M) (rest : Bytes)
    → take_merged M merge (take_sized bs) m ≡ some (m', rest)
    → length rest ≤ length bs
take_merged_takes M merge bs m m' rest e = step (take_sized bs) refl e
  where
    step :
        (o : Option (Bytes × Bytes))
        → take_sized bs ≡ o
        → take_merged M merge o m ≡ some (m', rest)
        → length rest ≤ length bs
    step Option.none h e' = cc
    step (some (payload, rest')) h e' = end (merge payload m) e'
      where
        end : (r : Merged M) → finish r rest' ≡ some (m', rest) → length rest ≤ length bs
        end Option.none g = cc
        end (some (x, true)) g =
            omega (arith, take_sized_takes bs payload rest' h, ap (λ o. length (rest_of rest' o)) g)
        end (some (x, false)) g = cc

take_int_takes :
    (bs : Bytes) (z : ℤ) (rest : Bytes) → take_int bs ≡ some (z, rest) → length rest ≤ length bs
take_int_takes bs z rest e = ground arith

take_wide_takes :
    (bs : Bytes) (z : ℤ) (rest : Bytes) → take_wide bs ≡ some (z, rest) → length rest ≤ length bs
take_wide_takes bs z rest e = ground arith

merge_time-new : (t : ℕ) → merge_time 0 t ≡ t
merge_time-new zero = refl
merge_time-new (suc t) = refl

pub words_laws : Laws words
words_laws = record {
  int32_body = int_body;
  float_body = wide_body;
  string_body = sized_body;
  message_body = sized_body;
  tag_int32 = λ n v rest p q. refl;
  tag_float = λ n v rest p q. refl;
  tag_string = λ n s rest p q. refl;
  tag_message = λ n payload rest p q. refl;
  read_int32_body = λ v rest h. ap (λ z. some (z, rest)) (decode_lem v);
  read_float_body = λ v rest. ap (λ z. some (z, rest)) (decode_lem v);
  read_string_body = λ s rest h. take_sized_body s rest;
  read_message_body = λ M merge payload rest m m' h e. rw (take_sized_body payload rest, e) refl;
  read_tag_end = refl;
  read_tag_takes = λ bs t rest e. ground arith;
  read_int32_takes = take_int_takes;
  read_float_takes = take_wide_takes;
  read_string_takes = take_sized_takes;
  read_message_takes = take_merged_takes;
  skip_field_takes = λ t bs unknown rest unknown' e. ground arith;
  length-write_int32 = λ n v p q. omega arith;
  length-write_float = λ n v p q. omega arith;
  length-write_string = λ n s p q. omega arith;
  length-write_message = λ n payload p q. omega arith;
  string_size_bound = λ s. omega arith;
  message_size_bound = λ n. omega arith;
  length-write_unknowns = λ u. refl;
  length-serialize_timestamp = λ t. refl;
  merge-serialize_timestamp = λ t m. refl;
  merge_from_new_timestamp = merge_time-new;
}

abbrev pub open_network : Network
open_network = record {
  resolves = λ server port. true;
  connects = λ server port. true;
  writes = λ line. true;
  base64 = λ s. s;
}

abbrev pub open_database : Database integers
open_database = record {
  begins = λ user password name. true;
  persists = λ m. true;
  commits = λ m. true;
}
