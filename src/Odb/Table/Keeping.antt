-- ===== src/Odb/Table/Keeping.antt =====
-- What `persist`, `update` and `erase` leave as it was, however they end.
use mathlib.Core.Path.{subst}
use client_server_db.Prelude.{ap, ℕ, ◌+◌, ◌^◌, ◌<◌, ◌≤◌, ◌≡◌, sym, Bool, true, Option, some, arith}
use client_server_db.Prelude.Exec.{Exec, Outcome, ok, throws, fault, pure, continue, ◌>>=◌}
use client_server_db.Floats.{Floats}
use client_server_db.Odb.Traits.{Traits}
use client_server_db.Odb.Traits.Laws.{Laws}
use client_server_db.Odb.Image.{Object}
use client_server_db.Odb.Binding.{id_bind}
use client_server_db.Odb.Statements.{
  Driver, persist_statement, persist_statement_types, update_statement, update_statement_types,
  erase_statement,
}
use client_server_db.Odb.Statements.Synced.{IsSynced}
use client_server_db.Odb.Prepare.{prepare_insert, prepare_update, prepare_erase}
use client_server_db.Odb.Object.{Session, current_transaction, inserted, persist, update, erase}
use client_server_db.Odb.Prepare.Images.{
  prepare_insert_kept, prepare_update_kept, prepare_erase_kept,
}
use client_server_db.Odb.Prepare.Prepared.{
  prepare_insert-IsSynced, prepare_update-IsSynced, prepare_erase-IsSynced,
}
use client_server_db.Odb.Table.Program
use client_server_db.Odb.Table.{Server}

module _ {floats : Floats} {traits : Traits floats} (driver : Driver traits) where
  -- The session as it can be used for the next operation: n buffers may have moved.
  pub record IsUsable (n : ℕ) (s s' : Session driver) : Type 0 where
    pub in_transaction : driver.in_transaction s'.db ≡ driver.in_transaction s.db
    pub synced : IsSynced traits s'.statements
    pub locked : traits.is_locked s'.statements.lock ≡ traits.is_locked s.statements.lock
    pub version : s'.statements.image.version ≤ s.statements.image.version + n

  inserted-IsUsable :
      (obj : Object floats) (n : ℕ) (s s' : Session driver)
      (r : Outcome (Option (traits.Bigint × Bool)))
      → IsUsable n s s'
      → IsUsable n s
          (continue r (λ a. inserted driver a >>= λ id. pure (record obj { id_ = id })) s').1
  unfolding inserted id_bind
  inserted-IsUsable obj n s s' (ok (some (v, null))) h = record {
    in_transaction = h.in_transaction;
    synced = record {
      insert = h.synced.insert;
      update = h.synced.update;
      select = h.synced.select;
      ids = h.synced.ids;
    };
    locked = h.locked;
    version = h.version;
  }
  inserted-IsUsable obj n s s' (ok Option.none) h = h
  inserted-IsUsable obj n s s' (throws e) h = h
  inserted-IsUsable obj n s s' fault h = h

  -- An operation whose end leaves the state alone.
  ended-IsUsable :
      {A B : Type 0} (n : ℕ) (s s' : Session driver) (r : Outcome A)
      (k : A → Exec (Session driver) B)
      → ((a : A) → (k a s').1 ≡ s')
      → IsUsable n s s'
      → IsUsable n s (continue r k s').1
  ended-IsUsable n s s' (ok a) k stays h = subst (IsUsable n s) (sym (stays a)) h
  ended-IsUsable n s s' (throws e) k stays h = h
  ended-IsUsable n s s' fault k stays h = h

module _ {floats : Floats} {traits : Traits floats} {driver : Driver traits}
    (server : Server driver) where
  pub persist-IsUsable :
      Laws traits
      → (obj : Object floats) (s : Session driver) → driver.in_transaction s.db ≡ true
      → IsSynced traits s.statements
      → s.statements.image.version + 1 < 2 ^ 64
      → IsUsable driver 1 s (persist driver obj s).1
  unfolding persist current_transaction
  persist-IsUsable laws obj s in_tr synced small =
      let t = prepare_insert traits obj s.statements in
      let p = prepare_insert-IsSynced traits laws obj s.statements small synced in
      let k = prepare_insert_kept traits obj s.statements small in
      let r =
        driver.insert persist_statement persist_statement_types t.insert_image_binding.bind t.image
          t.id_image_binding.bind s.db in
      let l =
        Program.insert_lem server t.insert_image_binding.bind t.image t.id_image_binding.bind
          t.id_image s.db p.1 p.2 in
      rw in_tr (
        inserted-IsUsable driver obj 1 s (record { statements = t; db = r.1 }) r.0
          (record {
            in_transaction = l.1;
            synced = p.0;
            locked = ap traits.is_locked k.0;
            version = k.1;
          }))

  pub update-IsUsable :
      Laws traits
      → (obj : Object floats) (s : Session driver) → driver.in_transaction s.db ≡ true
      → IsSynced traits s.statements
      → s.statements.image.version + 1 < 2 ^ 64
      → IsUsable driver 1 s (update driver obj s).1
  unfolding update current_transaction
  update-IsUsable laws obj s in_tr synced small =
      let t = prepare_update traits obj s.statements in
      let p = prepare_update-IsSynced traits laws obj s.statements small synced in
      let k = prepare_update_kept traits obj s.statements small in
      let r =
        driver.update update_statement update_statement_types t.update_image_binding.bind t.image
          t.id_image_binding.bind t.id_image s.db in
      let l =
        Program.update_lem server t.update_image_binding.bind t.image t.id_image_binding.bind
          t.id_image s.db p.1 p.2 in
      rw in_tr (
        ended-IsUsable driver 1 s (record { statements = t; db = r.1 }) r.0 _ (λ n. ground arith)
          (record {
            in_transaction = l.2;
            synced = p.0;
            locked = ap traits.is_locked k.0;
            version = k.1;
          }))

  pub erase-IsUsable :
      (n id : ℕ) (s : Session driver)
      → driver.in_transaction s.db ≡ true
      → IsSynced traits s.statements
      → IsUsable driver n s (erase driver id s).1
  unfolding erase current_transaction
  erase-IsUsable n id s in_tr synced =
      let t = prepare_erase traits id s.statements in
      let p = prepare_erase-IsSynced traits id s.statements synced in
      let k = prepare_erase_kept traits id s.statements in
      let r = driver.delete erase_statement t.id_image_binding.bind t.id_image s.db in
      let l = Program.delete_lem server t.image t.id_image_binding.bind t.id_image s.db p.1 in
      rw in_tr (
        ended-IsUsable driver n s (record { statements = t; db = r.1 }) r.0 _ (λ m. ground arith)
          (record {
            in_transaction = l.2;
            synced = p.0;
            locked = ap traits.is_locked k.0;
            version = rw k.1 (omega arith);
          }))
