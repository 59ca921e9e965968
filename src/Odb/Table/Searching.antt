-- ===== src/Odb/Table/Searching.antt =====
-- `find_`: a search for a row, against the table.
use mathlib.Core.Path.{subst}
use client_server_db.Prelude.{
  ℕ, ◌+◌, ◌^◌, ◌<◌, ◌≤◌, ◌≡◌, refl, sym, ap, ◌∙◌, Bool, true, false, Option, some, arith,
  if◌then◌else◌, Bool-cases, inl, inr,
}
use client_server_db.Prelude.Exec.{Outcome, ok, throws, fault, continue, ◌>>=◌, database_exception}
use client_server_db.Floats.{Floats}
use client_server_db.Odb.Traits.{Traits}
use client_server_db.Odb.Traits.Laws.{Laws}
use client_server_db.Odb.Image.{Object, Image, of_image}
use client_server_db.Odb.Binding.{statement_select, bind, Flags}
use client_server_db.Odb.Statements.{
  Driver, Fetched, success, truncated, find_statement, find_statement_types,
}
use client_server_db.Odb.Statements.Synced.{IsSynced}
use client_server_db.Odb.Prepare.{prepare_find}
use client_server_db.Odb.Object.{Session, fetch_row, after_fetch, find_row}
use client_server_db.Odb.Prepare.Images.{prepare_find_lem}
use client_server_db.Odb.Prepare.Prepared.{prepare_find-IsSynced}
use client_server_db.Odb.Table.Program
use client_server_db.Odb.Table.{object, Server, Selected, Answers, IsFetched}
use client_server_db.Odb.Table.Loading.{load_truncated_lem, IsWritten-IsSynced}

module _ {floats : Floats} {traits : Traits floats} {driver : Driver traits}
    (server : Server driver) where
  open server use {rows, answers, row}

  -- How a search for a row ends: with the object in the image where there is one.
  abbrev pub FindsRow : Bool → Option (Object floats) → Outcome Bool × Session driver → Type 0
  FindsRow true Option.none (r, s) = r ≡ ok false
  FindsRow true (some o) (r, s) = (r ≡ ok true) × (of_image traits s.statements.image ≡ o)
  FindsRow false o (r, s) = r ≡ throws database_exception

  -- What a search leaves as it was.
  pub record IsKept (s s' : Session driver) : Type 0 where
    pub synced : IsSynced traits s'.statements
    pub rows_same : rows s'.db ≡ rows s.db
    pub lock_same : s'.statements.lock ≡ s.statements.lock
    pub in_transaction_same : driver.in_transaction s'.db ≡ driver.in_transaction s.db
    pub version_within : s'.statements.image.version ≤ s.statements.image.version + 1

  neither :
      (a b c : Bool)
      → (if a then true else if b then true else c) ≡ false
      → (a ≡ false) × (b ≡ false) × (c ≡ false)
  neither a b c h = (ground arith, ground arith, ground arith)

  -- With no column truncated the image already stands for the row.
  whole_lem :
      (o : Object floats) (im : Image traits) (t : Flags traits)
      → IsFetched traits im t o
      → (if t 1 then true else if t 10 then true else t 11) ≡ false
      → of_image traits im ≡ o
  unfolding of_image
  whole_lem o im t h none =
      let clear = neither (t 1) (t 10) (t 11) none in
      let key = h.client_key.value_lem clear.0 in
      let ip = h.system_ip.value_lem clear.1 in
      let name = h.system_name.value_lem clear.2 in
      λ i. record {
        id_ = (h.numbers_lem i).0;
        info = record {
          client_key = key i;
          memory = (h.numbers_lem i).1;
          cpu = (h.numbers_lem i).2;
          process = (h.numbers_lem i).3;
          system_info = record { system_ip = ip i; system_name = name i };
          time_stamp = (h.numbers_lem i).4;
        };
      }

  kept : (s : Session driver) → IsSynced traits s.statements → IsKept s s
  kept s synced = record {
    synced = synced;
    rows_same = refl;
    lock_same = refl;
    in_transaction_same = refl;
    version_within = omega arith;
  }

  after_fetch_lem :
      Laws traits
      → (c : driver.Cursor) (o : Option (Object floats)) (r : Fetched) (s : Session driver)
      → row c ≡ o
      → Answers traits o (r, s.statements.image, s.statements.select_image_truncated)
      → s.statements.select_image_version ≡ s.statements.image.version
      → s.statements.image.version + 1 < 2 ^ 64
      → IsSynced traits s.statements
      → FindsRow true o (after_fetch driver c r s) × IsKept s (after_fetch driver c r s).1
  after_fetch_lem laws c Option.none r s at h same small synced = rw h (refl, kept s synced)
  after_fetch_lem laws c (some o) r s at h same small synced =
      let t = s.statements.select_image_truncated in
      elim (Bool-cases (if t 1 then true else if t 10 then true else t 11)) [
        | inl cut ↦
            let l = load_truncated_lem server laws c o s at h.0 cut same small synced in
            rw (h.1 ∙ ap (λ b. if b then truncated else success) cut, l.0)
              (
                (refl, l.1),
                record {
                  synced = l.2;
                  rows_same = ap rows l.3;
                  lock_same = l.4;
                  in_transaction_same = ap driver.in_transaction l.3;
                  version_within = l.5;
                },
              )
        | inr whole ↦
            rw (h.1 ∙ ap (λ b. if b then truncated else success) whole)
              ((refl, whole_lem o s.statements.image t h.0 whole), kept s synced)
      ]

  -- The part of the search behind the statement.
  fetched_lem :
      Laws traits
      → (b : Bool) (o : Option (Object floats)) (r : Outcome driver.Cursor) (s : Session driver)
      → Selected driver row b o r
      → s.statements.select_image_binding.bind ≡ bind traits s.statements.image statement_select
      → s.statements.select_image_version ≡ s.statements.image.version
      → s.statements.image.version + 1 < 2 ^ 64
      → IsSynced traits s.statements
      → let f = continue r (λ c. fetch_row driver c >>= λ r. after_fetch driver c r) s in
        FindsRow b o f × IsKept s f.1
  unfolding fetch_row
  fetched_lem laws true o (ok c) s at bound same small synced =
      let st = s.statements in
      let f = driver.fetch c st.select_image_binding.bind st.image st.select_image_truncated in
      let l =
        Program.fetch_lem server st.id_image c st.select_image_binding.bind st.image
          st.select_image_truncated bound in
      let w = IsWritten-IsSynced traits st f.1 l.1 synced in
      let a =
        after_fetch_lem laws c o f.0
          (record s { statements = record st { image = f.1; select_image_truncated = f.2 } }) at
          (rw (sym at) l.0) (same ∙ sym l.1.version) (rw l.1.version small)
          (record { insert = w.insert; update = w.update; select = w.select; ids = w.ids }) in
      (
        a.0,
        record {
          synced = a.1.synced;
          rows_same = a.1.rows_same;
          lock_same = a.1.lock_same;
          in_transaction_same = a.1.in_transaction_same;
          version_within = omega (arith, a.1.version_within, l.1.version);
        },
      )
  fetched_lem laws true o (throws x) s at bound same small synced = elim at [ ]
  fetched_lem laws true o fault s at bound same small synced = elim at [ ]
  fetched_lem laws false o r s at bound same small synced = rw at (refl, kept s synced)

  pub find_row_lem :
      Laws traits
      → (id : ℕ) (s : Session driver) → IsSynced traits s.statements
      → s.statements.image.version + 1 < 2 ^ 64
      → id < 2 ^ 64
      → FindsRow (answers s.db) (object id (rows s.db id)) (find_row driver id s)
        × IsKept s (find_row driver id s).1
  unfolding find_row
  find_row_lem laws id s synced small id_small =
      let t = prepare_find traits id s.statements in
      let p = prepare_find-IsSynced traits id s.statements synced in
      let w = prepare_find_lem traits laws id s.statements id_small in
      let r =
        driver.select find_statement find_statement_types t.id_image_binding.bind t.id_image s.db in
      let l = Program.select_lem server t.image t.id_image_binding.bind t.id_image s.db p.1 in
      let f =
        fetched_lem laws (answers s.db) (object id (rows s.db id)) r.0
          (record { statements = t; db = r.1 })
          (subst (λ k. Selected driver row (answers s.db) (object k (rows s.db k)) r.0) w.0 l.0) p.2
          p.3 (rw w.1 small) p.0 in
      (
        f.0,
        record {
          synced = f.1.synced;
          rows_same = f.1.rows_same ∙ l.1;
          lock_same = f.1.lock_same ∙ w.2;
          in_transaction_same = f.1.in_transaction_same ∙ l.2;
          version_within = omega (arith, f.1.version_within, ap (λ i. i.version) w.1);
        },
      )
