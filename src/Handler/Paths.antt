-- ===== src/Handler/Paths.antt =====
-- The path of a request and the client's key in it.
use client_server_db.Prelude.{
  ℕ, zero, suc, ap, ◌≤◌, Text, [], ◌∷◌, ◌++◌, ◌≡◌, ◌∙◌, leb, ◌&&◌, refl, true, Option, arith, codes,
  take, length,
}
use client_server_db.Strings.{rfind}
use client_server_db.Handler.{
  is_key_char, all_key_chars, matches_behind, is_machine_path, client_key,
}

-- A key has no slash.
rfind-all_key_chars : (id : Text) → all_key_chars id ≡ true → rfind b'/' id ≡ Option.none
unfolding rfind all_key_chars is_key_char
rfind-all_key_chars [] h = refl
rfind-all_key_chars (c ∷ id) h = rw (rfind-all_key_chars id (ground arith)) (ground arith)

take_all : (s : Text) (n : ℕ) → length s ≤ n → take n s ≡ s
take_all [] zero h = refl
take_all [] (suc n) h = refl
take_all (c ∷ s) zero h = absurd (omega arith)
take_all (c ∷ s) (suc n) h = ap (λ t. c ∷ t) (take_all s n (omega arith))

-- For a key of letters and digits, the path "/machine/" with the key behind it is one that the
-- resource matches, and the key that the handler takes from it is that key.
pub client_key_lem :
    (id : Text)
    → all_key_chars id ≡ true
    → (is_machine_path (codes "/machine/" ++ id) ≡ true)
      × (client_key (codes "/machine/" ++ id) ≡ id)
unfolding is_machine_path matches_behind client_key rfind
client_key_lem id h =
    (h, rw (rfind-all_key_chars id h, client_key, rfind) (take_all id _ (omega arith)))

equal_codes : (p c : ℕ) → (leb p c && leb c p) ≡ true → p ≡ c
equal_codes p c h = ground arith

split_prefix :
    (ps path : Text)
    → matches_behind ps path ≡ true
    → (id : Text) × (path ≡ ps ++ id) × (all_key_chars id ≡ true)
unfolding matches_behind
split_prefix [] path h = (path, refl, h)
split_prefix (p ∷ ps) [] h = cc
split_prefix (p ∷ ps) (c ∷ path) h =
    let (id, e, chars) = split_prefix ps path (ground arith) in
    (id, rw (e, equal_codes p c (ground arith)) refl, chars)

-- A path that the resource matches is "/machine/" with letters and digits behind it, and these are
-- the key that the handler takes from it, all of them.
pub is_machine_path-client_key :
    (path : Text)
    → is_machine_path path ≡ true
    → (path ≡ codes "/machine/" ++ client_key path) × (all_key_chars (client_key path) ≡ true)
unfolding is_machine_path
is_machine_path-client_key path h =
    let (id, e, chars) = split_prefix (codes "/machine/") path h in
    let key = ap client_key e ∙ (client_key_lem id chars).1 in rw key (e, chars)
