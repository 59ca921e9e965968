-- ===== src/Odb/Table/Changing.antt =====
-- `persist`, `update` and `erase` against the table.
use client_server_db.Prelude.{
  ℕ, ◌+◌, ◌^◌, ◌<◌, ◌≡◌, refl, ap, ◌∙◌, Bool, true, false, Option, some, ◌==◌, if◌then◌else◌,
}
use client_server_db.Prelude.Exec.{
  Outcome, ok, throws, fault, pure, lift, continue, ◌>>=◌, database_exception,
  object_not_persistent,
}
use client_server_db.Floats.{Floats}
use client_server_db.Machine.{MachineInfo}
use client_server_db.Odb.Traits.{Traits}
use client_server_db.Odb.Traits.Laws.{Laws}
use client_server_db.Odb.Image.{Object, of_image, id_of_id_image}
use client_server_db.Odb.Image.RoundTrip.{IsStorable}
use client_server_db.Odb.Statements.{
  Driver, persist_statement, persist_statement_types, update_statement, update_statement_types,
  erase_statement,
}
use client_server_db.Odb.Statements.Synced.{IsSynced}
use client_server_db.Odb.Prepare.{prepare_insert, prepare_update, prepare_erase}
use client_server_db.Odb.Object.{Session, current_transaction, inserted, persist, update, erase}
use client_server_db.Odb.Prepare.Images.{prepare_insert_lem, prepare_update_lem, prepare_erase_lem}
use client_server_db.Odb.Prepare.Prepared.{
  prepare_insert-IsSynced, prepare_update-IsSynced, prepare_erase-IsSynced,
}
use client_server_db.Odb.Table.Program
use client_server_db.Odb.Table.{Table, put, remove, replace, count, Server, Inserted}

-- What `persist` promises: the object with the id of a new row that holds it, or no change.
abbrev pub Persisted :
    {floats : Floats}
    → Object floats
    → Table floats
    → Table floats
    → Outcome (Object floats)
    → Type 0
Persisted obj before after (ok o) =
    (o.info ≡ obj.info)
    × (before o.id_ ≡ Option.none)
    × (after ≡ put o.id_ obj.info before)
    × (o.id_ < 2 ^ 64)
Persisted obj before after (throws e) = after ≡ before
Persisted obj before after fault = ⊥

-- How an operation on the row of an id ends.
abbrev pub if_row : {floats : Floats} → Option (MachineInfo floats) → Outcome (Unit {0})
if_row Option.none = throws object_not_persistent
if_row (some info) = ok tt

module _ {floats : Floats} {traits : Traits floats} {driver : Driver traits}
    (server : Server driver) where
  open server use {rows, answers}

  persisted_lem :
      (obj : Object floats) (info : MachineInfo floats) (before : Table floats) (s : Session driver)
      (r : Outcome (Option (traits.Bigint × Bool)))
      → info ≡ obj.info
      → Inserted driver info before (rows s.db) r
      → let p = continue r (λ a. inserted driver a >>= λ id. pure (record obj { id_ = id })) s in
        Persisted obj before (rows p.1.db) p.0
  unfolding inserted id_of_id_image
  persisted_lem obj info before s (ok (some (v, null))) e h =
      (refl, h.0, h.1 ∙ ap (λ i. put (traits.bigint_value v null) i before) e, h.2)
  persisted_lem obj info before s (ok Option.none) e h = h
  persisted_lem obj info before s (throws x) e h = h
  persisted_lem obj info before s fault e h = h

  -- In a transaction, with bindings that follow the images, room for the version of the image to
  -- go up once, and an object within the ranges of its fields: persist answers the object with the
  -- id of a new row, which holds it, and that row is the only change to the table; or it throws,
  -- and the table is as it was.
  pub persist_lem :
      Laws traits
      → (obj : Object floats) (s : Session driver) → driver.in_transaction s.db ≡ true
      → IsSynced traits s.statements
      → s.statements.image.version + 1 < 2 ^ 64
      → IsStorable obj.info
      → Persisted obj (rows s.db) (rows (persist driver obj s).1.db) (persist driver obj s).0
  unfolding persist current_transaction
  persist_lem laws obj s in_tr synced small storable =
      let t = prepare_insert traits obj s.statements in
      let p = prepare_insert-IsSynced traits laws obj s.statements small synced in
      let r =
        driver.insert persist_statement persist_statement_types t.insert_image_binding.bind t.image
          t.id_image_binding.bind s.db in
      rw in_tr (
        persisted_lem obj _ (rows s.db) (record { statements = t; db = r.1 }) r.0
          (prepare_insert_lem traits laws obj s.statements storable)
          (Program.insert_lem server t.insert_image_binding.bind t.image t.id_image_binding.bind
            t.id_image s.db p.1 p.2).0)

  -- The number of rows that an UPDATE or a DELETE has changed decides how the operation ends.
  update_ends :
      (row : Option (MachineInfo floats)) (b : Bool) (r : Outcome ℕ) (s : Session driver)
      → r ≡ (if b then ok (count row) else throws database_exception)
      → continue r (λ n. if n == 0 then lift (throws object_not_persistent) else pure tt) s
        ≡ (if b then if_row row else throws database_exception, s)
  update_ends row false r s e = rw e refl
  update_ends Option.none true r s e = rw e refl
  update_ends (some info) true r s e = rw e refl

  erase_ends :
      (row : Option (MachineInfo floats)) (b : Bool) (r : Outcome ℕ) (s : Session driver)
      → r ≡ (if b then ok (count row) else throws database_exception)
      → continue r (λ n. if n == 1 then pure tt else lift (throws object_not_persistent)) s
        ≡ (if b then if_row row else throws database_exception, s)
  erase_ends row false r s e = rw e refl
  erase_ends Option.none true r s e = rw e refl
  erase_ends (some info) true r s e = rw e refl

  -- In a transaction, with bindings that follow the images, room for the version of the image to
  -- go up once, and arguments within their types: where the server answers, update ends well and
  -- writes the object over its row if there is one, and else throws `object_not_persistent` and
  -- changes no row; where the server does not answer, it throws and changes no row.
  pub update_lem :
      Laws traits
      → (obj : Object floats) (s : Session driver) → driver.in_transaction s.db ≡ true
      → IsSynced traits s.statements
      → s.statements.image.version + 1 < 2 ^ 64
      → obj.id_ < 2 ^ 64
      → IsStorable obj.info
      → ((update driver obj s).0
          ≡ (if answers s.db then if_row (rows s.db obj.id_) else throws database_exception))
        × (rows (update driver obj s).1.db
            ≡ (if answers s.db then replace obj.id_ obj.info (rows s.db) else rows s.db))
  unfolding update current_transaction
  update_lem laws obj s in_tr synced small id_small storable =
      let t = prepare_update traits obj s.statements in
      let p = prepare_update-IsSynced traits laws obj s.statements small synced in
      let w = prepare_update_lem traits laws obj s.statements id_small storable in
      let r =
        driver.update update_statement update_statement_types t.update_image_binding.bind t.image
          t.id_image_binding.bind t.id_image s.db in
      let u =
        Program.update_lem server t.update_image_binding.bind t.image t.id_image_binding.bind
          t.id_image s.db p.1 p.2 in
      let ends =
        update_ends (rows s.db (id_of_id_image traits t.id_image)) (answers s.db) r.0
          (record { statements = t; db = r.1 }) u.0 in
      rw in_tr (
        ap (λ e. e.0) ends
            ∙ ap (λ k. if answers s.db then if_row (rows s.db k) else throws database_exception)
                w.1,
        ap (λ e. rows e.1.db) ends
            ∙ (u.1
                ∙ (ap
                      (λ k.
                        if answers s.db
                        then replace k (of_image traits t.image).info (rows s.db)
                        else rows s.db)
                      w.1
                    ∙ ap (λ i. if answers s.db then replace obj.id_ i (rows s.db) else rows s.db)
                        w.0)),
      )

  -- In a transaction, with bindings that follow the images, and an id within its type: where the
  -- server answers, erase ends well and removes the row of the id if there is one, and else throws
  -- `object_not_persistent`; where the server does not answer, it throws and changes no row.
  pub erase_lem :
      Laws traits
      → (id : ℕ) (s : Session driver) → driver.in_transaction s.db ≡ true
      → IsSynced traits s.statements
      → id < 2 ^ 64
      → ((erase driver id s).0
          ≡ (if answers s.db then if_row (rows s.db id) else throws database_exception))
        × (rows (erase driver id s).1.db
            ≡ (if answers s.db then remove id (rows s.db) else rows s.db))
  unfolding erase current_transaction
  erase_lem laws id s in_tr synced id_small =
      let t = prepare_erase traits id s.statements in
      let p = prepare_erase-IsSynced traits id s.statements synced in
      let w = prepare_erase_lem traits laws id s.statements id_small in
      let r = driver.delete erase_statement t.id_image_binding.bind t.id_image s.db in
      let u = Program.delete_lem server t.image t.id_image_binding.bind t.id_image s.db p.1 in
      let ends =
        erase_ends (rows s.db (id_of_id_image traits t.id_image)) (answers s.db) r.0
          (record { statements = t; db = r.1 }) u.0 in
      rw in_tr (
        ap (λ e. e.0) ends
            ∙ ap (λ k. if answers s.db then if_row (rows s.db k) else throws database_exception) w,
        ap (λ e. rows e.1.db) ends
            ∙ (u.1 ∙ ap (λ k. if answers s.db then remove k (rows s.db) else rows s.db) w),
      )
