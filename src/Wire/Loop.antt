-- ===== src/Wire/Loop.antt =====
-- The loop `for (;;)` that every `MergePartialFromCodedStream` of machine.pb.cc is, over the switch
-- of the message. It ends, and its fuel does not show.
use client_server_db.Prelude.{
  ℕ, zero, suc, [], ◌≤◌, ◌<◌, ◌≡◌, ◌≢◌, refl, Bool, true, false, Option, some, length, arith,
  Option-cases, inl, inr,
}
use client_server_db.Floats.{Floats}
use client_server_db.Wire.{Bytes, NextTag, at_end, tag, Merged, Runtime}
use client_server_db.Wire.Laws.{Laws}

-- The labels `success` and `failure`; `stuck` is no end of the program's, it stands for fuel that
-- ran out.
pub data Parsed (M : Type 0) : Type 0 where
  success : M → Bool → Parsed M
  failure : Parsed M
  stuck : Parsed M

-- What the caller of the parser sees.
abbrev pub merged : {M : Type 0} → Parsed M → Merged M
merged (success m b) = some (m, b)
merged failure = Option.none
merged stuck = Option.none

module _ {floats : Floats} (rt : Runtime floats) {M : Type 0}
    (field : ℕ → Bytes → M → Option (M × Bytes)) where
  abbrev after_field : (Bytes → M → Parsed M) → Option (M × Bytes) → Parsed M
  after_field next Option.none = failure
  after_field next (some (m, rest)) = next rest m

  abbrev after_tag : (Bytes → M → Parsed M) → NextTag → M → Parsed M
  after_tag next at_end m = success m true
  after_tag next (tag zero rest) m = success m false
  after_tag next (tag (suc t) rest) m = after_field next (field (suc t) rest m)

  -- One field after the other; `field` is the switch, at a tag that is not 0.
  unfoldable pub parse_loop : ℕ → Bytes → M → Parsed M
  parse_loop zero bs m = stuck
  parse_loop (suc fuel) bs m = after_tag (parse_loop fuel) (rt.read_tag bs) m

  -- Each round takes a byte at least, so one round more than there are bytes is enough.
  unfoldable pub parse : Bytes → M → Parsed M
  unfolding parse_loop
  parse bs m = parse_loop (suc (length bs)) bs m

  -- The switch hands on no more than it is given.
  abbrev pub Takes : Type 0
  Takes =
      (t : ℕ) (bs : Bytes) (m m' : M) (rest : Bytes)
      → field t bs m ≡ some (m', rest)
      → length rest ≤ length bs

  module _ (laws : Laws rt) (takes : Takes) where
    open laws use {read_tag_end, read_tag_takes}

    -- Two ways to go on that agree on what is left agree on the whole.
    after_tag_agree :
        (p q : Bytes → M → Parsed M) (bs : Bytes) (n : NextTag) (m : M)
        → rt.read_tag bs ≡ n
        → ((rest : Bytes) (m' : M) → length rest < length bs → p rest m' ≡ q rest m')
        → after_tag p n m ≡ after_tag q n m
    after_tag_agree p q bs at_end m e h = refl
    after_tag_agree p q bs (tag zero rest) m e h = refl
    after_tag_agree p q bs (tag (suc t) rest) m e h = elim (Option-cases (field (suc t) rest m)) [
      | inl fails ↦ rw fails
      | inr ((m', rest'), goes) ↦
          rw goes
            (h rest' m' (omega (arith, read_tag_takes bs _ rest e, takes _ rest m m' rest' goes)))
    ]

    parse_loop_fuel :
        (f g : ℕ) (bs : Bytes) (m : M)
        → length bs < f
        → length bs < g
        → parse_loop f bs m ≡ parse_loop g bs m
    unfolding parse_loop
    parse_loop_fuel zero g bs m hf hg = absurd (omega arith)
    parse_loop_fuel (suc f) zero bs m hf hg = absurd (omega arith)
    parse_loop_fuel (suc f) (suc g) bs m hf hg =
        after_tag_agree (parse_loop f) (parse_loop g) bs (rt.read_tag bs) m refl
          λ rest m' shorter. parse_loop_fuel f g rest m' (omega arith) (omega arith)

    -- One field that the switch takes.
    pub parse_field :
        (bs rest rest' : Bytes) (t : ℕ) (m m' : M)
        → 0 < t
        → rt.read_tag bs ≡ tag t rest
        → field t rest m ≡ some (m', rest')
        → parse bs m ≡ parse rest' m'
    unfolding parse
    parse_field bs rest rest' zero m m' h e goes = absurd (omega arith)
    parse_field bs rest rest' (suc t) m m' h e goes =
        rw (e, parse_loop, goes)
          (parse_loop_fuel (length bs) (suc (length rest')) rest' m'
            (omega (arith, read_tag_takes bs _ rest e, takes _ rest m m' rest' goes)) (omega arith))

    -- The end of the input.
    pub parse_end : (m : M) → parse [] m ≡ success m true
    unfolding parse
    parse_end m = rw (read_tag_end, parse_loop)

    after_tag-ne-stuck :
        (p : Bytes → M → Parsed M) (bs : Bytes) (n : NextTag) (m : M)
        → rt.read_tag bs ≡ n
        → ((rest : Bytes) (m' : M) → length rest < length bs → p rest m' ≢ stuck)
        → after_tag p n m ≢ stuck
    after_tag-ne-stuck p bs at_end m e h = λ x. cc
    after_tag-ne-stuck p bs (tag zero rest) m e h = λ x. cc
    after_tag-ne-stuck p bs (tag (suc t) rest) m e h = elim (Option-cases (field (suc t) rest m)) [
      | inl fails ↦ rw fails (λ x. cc)
      | inr ((m', rest'), goes) ↦
          rw goes
            (h rest' m' (omega (arith, read_tag_takes bs _ rest e, takes _ rest m m' rest' goes)))
    ]

    parse_loop-ne-stuck : (f : ℕ) (bs : Bytes) (m : M) → length bs < f → parse_loop f bs m ≢ stuck
    unfolding parse_loop
    parse_loop-ne-stuck zero bs m h = absurd (omega arith)
    parse_loop-ne-stuck (suc f) bs m h =
        after_tag-ne-stuck (parse_loop f) bs (rt.read_tag bs) m refl
          λ rest m' shorter. parse_loop-ne-stuck f rest m' (omega arith)

    -- On every input the parser ends.
    pub parse-ne-stuck : (bs : Bytes) (m : M) → parse bs m ≢ stuck
    unfolding parse
    parse-ne-stuck bs m = parse_loop-ne-stuck (suc (length bs)) bs m (omega arith)
